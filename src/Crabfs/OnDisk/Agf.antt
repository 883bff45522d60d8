-- ===== src/Crabfs/OnDisk/Agf.antt =====
-- The header of an allocation group's free space, `lib/crabfs/on_disk/agf.rs`.
pub mod RoundTrip
use theos.Base.{
  ℕ, List, [], ◌∷◌, ◌+◌, ◌*◌, ◌/◌, ◌%◌, ◌-◌, Option, none, some, Bool, true, false, not, map, ◌++◌,
}
use theos.Base.{
  Exec, done, ◌>>=◌, Result, ok, err, try, and_then, slice, index, ◌==◌, ltb, leb, if◌then◌else◌,
}
use theos.Crabfs.Error.{
  ParseError, invalid_magic, invalid_int, unsupported_version, invalid_field, sb_blocksize,
  sb_sectsize, sb_inodesize, buffer_too_small, FieldName,
}
use theos.Crabfs.Endian.{
  Buffer, Put, put, fill, put_byte, put_be16, put_be32, put_be64, be_u16, be_u32, be_u64, le_u32,
  apply_all, require_len,
}

abbrev pub xfs_agf_magic : ℕ
xfs_agf_magic = 0x58414746

abbrev pub xfs_agf_version : ℕ
xfs_agf_version = 1

abbrev pub xfs_agf_size : ℕ
xfs_agf_size = 224

abbrev pub xfs_agf_crc_off : ℕ
xfs_agf_crc_off = 216

pub record Agf : Type 0 where
  pub seqno : ℕ
  pub length : ℕ
  pub bno_root : ℕ
  pub cnt_root : ℕ
  pub rmap_root : ℕ
  pub bno_level : ℕ
  pub cnt_level : ℕ
  pub rmap_level : ℕ
  pub flfirst : ℕ
  pub fllast : ℕ
  pub flcount : ℕ
  pub freeblks : ℕ
  pub longest : ℕ
  pub btreeblks : ℕ
  pub uuid : List ℕ
  pub rmap_blocks : ℕ
  pub refcount_blocks : ℕ
  pub refcount_root : ℕ
  pub refcount_level : ℕ
  pub lsn : ℕ
  pub crc : ℕ

unfoldable pub parse : Buffer → Exec (Result ParseError Agf)
parse bytes = and_then (require_len bytes xfs_agf_size) λ _. be_u32 bytes 0 >>= λ magic.
    if magic == xfs_agf_magic
    then (be_u32 bytes 4 >>= λ version.
        if version == xfs_agf_version
        then (slice bytes 64 16 >>= λ uuid. be_u32 bytes 8 >>= λ seqno.
            be_u32 bytes 12 >>= λ length. be_u32 bytes 16 >>= λ bno_root.
            be_u32 bytes 20 >>= λ cnt_root. be_u32 bytes 24 >>= λ rmap_root.
            be_u32 bytes 28 >>= λ bno_level. be_u32 bytes 32 >>= λ cnt_level.
            be_u32 bytes 36 >>= λ rmap_level. be_u32 bytes 40 >>= λ flfirst.
            be_u32 bytes 44 >>= λ fllast. be_u32 bytes 48 >>= λ flcount.
            be_u32 bytes 52 >>= λ freeblks. be_u32 bytes 56 >>= λ longest.
            be_u32 bytes 60 >>= λ btreeblks. be_u32 bytes 80 >>= λ rmap_blocks.
            be_u32 bytes 84 >>= λ refcount_blocks. be_u32 bytes 88 >>= λ refcount_root.
            be_u32 bytes 92 >>= λ refcount_level. be_u64 bytes 208 >>= λ lsn.
            be_u32 bytes 216 >>= λ crc. done (
              ok (record {
                seqno = seqno;
                length = length;
                bno_root = bno_root;
                cnt_root = cnt_root;
                rmap_root = rmap_root;
                bno_level = bno_level;
                cnt_level = cnt_level;
                rmap_level = rmap_level;
                flfirst = flfirst;
                fllast = fllast;
                flcount = flcount;
                freeblks = freeblks;
                longest = longest;
                btreeblks = btreeblks;
                uuid = uuid;
                rmap_blocks = rmap_blocks;
                refcount_blocks = refcount_blocks;
                refcount_root = refcount_root;
                refcount_level = refcount_level;
                lsn = lsn;
                crc = crc;
              })))
        else done (err (unsupported_version version)))
    else done (err (invalid_magic xfs_agf_magic magic))

-- The stores that `serialize` makes, in their order.
abbrev pub stores : Agf → List Put
stores self =
    put_be32 0 xfs_agf_magic
    ∷ put_be32 4 xfs_agf_version
    ∷ put_be32 8 self.seqno
    ∷ put_be32 12 self.length
    ∷ put_be32 16 self.bno_root
    ∷ put_be32 20 self.cnt_root
    ∷ put_be32 24 self.rmap_root
    ∷ put_be32 28 self.bno_level
    ∷ put_be32 32 self.cnt_level
    ∷ put_be32 36 self.rmap_level
    ∷ put_be32 40 self.flfirst
    ∷ put_be32 44 self.fllast
    ∷ put_be32 48 self.flcount
    ∷ put_be32 52 self.freeblks
    ∷ put_be32 56 self.longest
    ∷ put_be32 60 self.btreeblks
    ∷ put 64 16 self.uuid
    ∷ put_be32 80 self.rmap_blocks
    ∷ put_be32 84 self.refcount_blocks
    ∷ put_be32 88 self.refcount_root
    ∷ put_be32 92 self.refcount_level
    ∷ fill 96 112 0
    ∷ put_be64 208 self.lsn
    ∷ []

unfoldable pub serialize : Agf → Buffer → Exec (Result ParseError (Unit {0}) × Buffer)
serialize self bytes =
    try (require_len bytes xfs_agf_size) bytes
      λ _. apply_all (stores self) bytes >>= λ bytes. done (ok tt, bytes)
