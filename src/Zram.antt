-- ===== src/Zram.antt =====
-- kernel/zram.rs: the compressed page store. The parts, from the inside out: `Page` is one group of
-- slots of one size, `Slots` the size-class allocator over such pages, `Device` the store of pages
-- by number, and `Swap` the cache in front of it.
pub mod Types
pub mod Classes
pub mod Page
pub mod Slots
pub mod Device
pub mod Swap
mod Tests
