-- ===== src/Crabfs/OnDisk/Inobt.antt =====
-- The root block of an inode B-tree, `lib/crabfs/on_disk/inobt.rs`.
pub mod RoundTrip
use theos.Base.{
  ℕ, List, [], ◌∷◌, ◌+◌, ◌*◌, ◌/◌, ◌%◌, ◌-◌, Option, none, some, Bool, true, false, not, map, ◌++◌,
}
use theos.Base.{
  Exec, done, ◌>>=◌, Result, ok, err, try, and_then, slice, index, ◌==◌, ltb, leb, if◌then◌else◌,
}
use theos.Crabfs.Error.{
  ParseError, invalid_magic, invalid_int, unsupported_version, invalid_field, sb_blocksize,
  sb_sectsize, sb_inodesize, buffer_too_small, FieldName,
}
use theos.Crabfs.Endian.{
  Buffer, Put, put, fill, put_byte, put_be16, put_be32, put_be64, be_u16, be_u32, be_u64, le_u32,
  apply_all, require_len,
}

abbrev pub xfs_ibt_crc_magic : ℕ
xfs_ibt_crc_magic = 0x49414233

abbrev pub xfs_fibt_crc_magic : ℕ
xfs_fibt_crc_magic = 0x46494233

abbrev pub xfs_btree_sblock_crc_off : ℕ
xfs_btree_sblock_crc_off = 52

abbrev pub xfs_btree_sblock_crc_len : ℕ
xfs_btree_sblock_crc_len = 56

pub data InodeBtreeKind : Type 0 where
  inobt : InodeBtreeKind
  finobt : InodeBtreeKind

pub record InodeBtreeRoot : Type 0 where
  pub kind : InodeBtreeKind
  pub magic : ℕ
  pub level : ℕ
  pub numrecs : ℕ
  pub leftsib : ℕ
  pub rightsib : ℕ
  pub blkno : ℕ
  pub lsn : ℕ
  pub uuid : List ℕ
  pub owner : ℕ
  pub crc : ℕ

abbrev pub expected_magic : InodeBtreeKind → ℕ
expected_magic inobt = xfs_ibt_crc_magic
expected_magic finobt = xfs_fibt_crc_magic

unfoldable pub parse : Buffer → InodeBtreeKind → Bool → Exec (Result ParseError InodeBtreeRoot)
parse bytes kind crc_enabled =
    if not crc_enabled
    then done (err (unsupported_version 4))
    else and_then (require_len bytes xfs_btree_sblock_crc_len) λ _. be_u32 bytes 0 >>= λ magic.
        if magic == expected_magic kind
        then (slice bytes 32 16 >>= λ uuid. be_u16 bytes 4 >>= λ level.
            be_u16 bytes 6 >>= λ numrecs. be_u32 bytes 8 >>= λ leftsib.
            be_u32 bytes 12 >>= λ rightsib. be_u64 bytes 16 >>= λ blkno. be_u64 bytes 24 >>= λ lsn.
            be_u32 bytes 48 >>= λ owner. le_u32 bytes 52 >>= λ crc. done (
              ok (record {
                kind = kind;
                magic = magic;
                level = level;
                numrecs = numrecs;
                leftsib = leftsib;
                rightsib = rightsib;
                blkno = blkno;
                lsn = lsn;
                uuid = uuid;
                owner = owner;
                crc = crc;
              })))
        else done (err (invalid_magic (expected_magic kind) magic))

-- The stores that `serialize` makes, in their order.
abbrev pub stores : InodeBtreeRoot → List Put
stores self =
    put_be32 0 self.magic
    ∷ put_be16 4 self.level
    ∷ put_be16 6 self.numrecs
    ∷ put_be32 8 self.leftsib
    ∷ put_be32 12 self.rightsib
    ∷ put_be64 16 self.blkno
    ∷ put_be64 24 self.lsn
    ∷ put 32 16 self.uuid
    ∷ put_be32 48 self.owner
    ∷ []

unfoldable pub serialize : InodeBtreeRoot → Buffer → Exec (Result ParseError (Unit {0}) × Buffer)
serialize self bytes =
    try (require_len bytes xfs_btree_sblock_crc_len) bytes
      λ _. apply_all (stores self) bytes >>= λ bytes. done (ok tt, bytes)
