-- ===== src/Kernel.antt =====
-- The kernel's parts, `kernel/`.
pub mod Vfs
pub mod Frames
pub mod Cmdline
pub mod Log
pub mod Reclaim
pub mod Allocation
mod Tests
