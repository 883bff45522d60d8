-- ===== src/Crabfs/OnDisk.antt =====
-- The on-disk structures, `lib/crabfs/on_disk`.
pub mod Agf
pub mod Agfl
pub mod Agi
pub mod Inobt
pub mod Inode
pub mod Superblock
pub mod Bmap
