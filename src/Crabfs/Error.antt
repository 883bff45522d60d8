-- ===== src/Crabfs/Error.antt =====
-- The errors of `lib/crabfs/error.rs`.
use theos.Base.{ℕ}

-- The names that the code gives to the fields it refuses.
pub data FieldName : Type 0 where
  sb_blocksize : FieldName
  sb_sectsize : FieldName
  sb_inodesize : FieldName
  sector_size_field : FieldName
  mode_field : FieldName

-- The blocks that a checksum mismatch is reported of.
pub data Checked : Type 0 where
  superblock_block : Checked
  agf_block : Checked
  inode_block : Checked
  agi_block : Checked
  agfl_block : Checked
  inobt_root_block : Checked
  finobt_root_block : Checked

pub data ParseError : Type 0 where
  buffer_too_small : (expected actual : ℕ) → ParseError
  invalid_magic : (expected actual : ℕ) → ParseError
  unsupported_version : ℕ → ParseError
  invalid_field : (field : FieldName) (value : ℕ) → ParseError
  crc_mismatch : Checked → ParseError
  invalid_int : ParseError

pub data DeviceError : Type 0 where
  io : DeviceError
  short_read : (expected actual : ℕ) → DeviceError
  short_write : (expected actual : ℕ) → DeviceError
  out_of_range : DeviceError

pub data WriteError : Type 0 where
  device : DeviceError → WriteError
  parse : ParseError → WriteError
  try_from_int : WriteError

pub data ReadError : Type 0 where
  read_device : DeviceError → ReadError
  read_parse : ParseError → ReadError
