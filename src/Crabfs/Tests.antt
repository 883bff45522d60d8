-- ===== src/Crabfs/Tests.antt =====
-- The theorems on lib/crabfs at concrete inputs.
mod Agi
mod Inode
mod Superblock
mod Blocks
mod ShortDir
mod Reader
