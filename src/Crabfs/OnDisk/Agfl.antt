-- ===== src/Crabfs/OnDisk/Agfl.antt =====
-- The free list's header, `lib/crabfs/on_disk/agfl.rs`.
pub mod RoundTrip
use theos.Base.{
  ℕ, List, [], ◌∷◌, ◌+◌, ◌*◌, ◌/◌, ◌%◌, ◌-◌, Option, none, some, Bool, true, false, not, map, ◌++◌,
}
use theos.Base.{
  Exec, done, ◌>>=◌, Result, ok, err, try, and_then, slice, index, ◌==◌, ltb, leb, if◌then◌else◌,
}
use theos.Crabfs.Error.{
  ParseError, invalid_magic, invalid_int, unsupported_version, invalid_field, sb_blocksize,
  sb_sectsize, sb_inodesize, buffer_too_small, FieldName,
}
use theos.Crabfs.Endian.{
  Buffer, Put, put, fill, put_byte, put_be16, put_be32, put_be64, be_u16, be_u32, be_u64, le_u32,
  apply_all, require_len,
}

abbrev pub xfs_agfl_magic : ℕ
xfs_agfl_magic = 0x5841464c

abbrev pub xfs_agfl_header_size : ℕ
xfs_agfl_header_size = 36

abbrev pub xfs_agfl_crc_off : ℕ
xfs_agfl_crc_off = 32

pub record Agfl : Type 0 where
  pub magicnum : ℕ
  pub seqno : ℕ
  pub uuid : List ℕ
  pub lsn : ℕ
  pub crc : ℕ
  pub entries_total : ℕ

-- `u32::try_from`
abbrev pub u32_try_from : ℕ → Result ParseError ℕ
u32_try_from n = if ltb n 4294967296 then ok n else err invalid_int

abbrev pub entries_bytes : ℕ → Bool → ℕ
entries_bytes sector_size crc_enabled =
    if crc_enabled then sector_size - xfs_agfl_header_size else sector_size

unfoldable pub parse : Buffer → ℕ → Bool → Exec (Result ParseError Agfl)
parse bytes sector_size crc_enabled = and_then (require_len bytes sector_size) λ _.
    and_then (require_len bytes xfs_agfl_header_size) λ _. be_u32 bytes 0 >>= λ magicnum.
    if magicnum == xfs_agfl_magic
    then and_then (u32_try_from (entries_bytes sector_size crc_enabled / 4)) (λ entries_total.
      slice bytes 8 16 >>= λ uuid. be_u32 bytes 4 >>= λ seqno. be_u64 bytes 24 >>= λ lsn.
      be_u32 bytes 32 >>= λ crc. done (
        ok (record {
          magicnum = magicnum;
          seqno = seqno;
          uuid = uuid;
          lsn = lsn;
          crc = crc;
          entries_total = entries_total;
        })))
    else done (err (invalid_magic xfs_agfl_magic magicnum))

-- The stores that `serialize` makes, in their order.
abbrev pub stores : Agfl → List Put
stores self =
    put_be32 0 xfs_agfl_magic
    ∷ put_be32 4 self.seqno
    ∷ put 8 16 self.uuid
    ∷ put_be64 24 self.lsn
    ∷ []

unfoldable pub serialize : Agfl → Buffer → Bool → Exec (Result ParseError (Unit {0}) × Buffer)
serialize self bytes crc_enabled =
    if crc_enabled
    then try (require_len bytes xfs_agfl_header_size) bytes
        (λ _. apply_all (stores self) bytes >>= λ bytes. done (ok tt, bytes))
    else done (ok tt, bytes)
