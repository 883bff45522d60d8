-- ===== src/Crabfs.antt =====
-- `lib/crabfs`, the XFS driver: byte order, checksums and the on-disk structures.
pub mod Error
pub mod Endian
pub mod Crc
pub mod OnDisk
pub mod ExtentDir
mod Tests
pub mod ShortDir
pub mod Reader
pub mod FileData
