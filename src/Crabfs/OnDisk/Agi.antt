-- ===== src/Crabfs/OnDisk/Agi.antt =====
-- The header of an allocation group's inodes, `lib/crabfs/on_disk/agi.rs`.
pub mod Buckets
pub mod RoundTrip
pub mod Total
use theos.Base.{ℕ, zero, suc, ◌+◌, List, [], ◌∷◌, ◌++◌}
use theos.Base.{Exec, done, ◌>>=◌, Result, ok, err, try, and_then, slice, ◌==◌, if◌then◌else◌}
use theos.Crabfs.Error.{ParseError, invalid_magic, unsupported_version}
use theos.Crabfs.Endian.{
  Buffer, Put, put, put_be32, put_be64, be_u32, be_u64, apply_all, require_len,
}

abbrev pub xfs_agi_magic : ℕ
xfs_agi_magic = 0x58414749

abbrev pub xfs_agi_version : ℕ
xfs_agi_version = 1

abbrev pub xfs_agi_unlinked_buckets : ℕ
xfs_agi_unlinked_buckets = 64

abbrev pub xfs_agi_size : ℕ
xfs_agi_size = 344

abbrev pub xfs_agi_crc_off : ℕ
xfs_agi_crc_off = 312

pub record Agi : Type 0 where
  pub seqno : ℕ
  pub length : ℕ
  pub count : ℕ
  pub root : ℕ
  pub level : ℕ
  pub freecount : ℕ
  pub newino : ℕ
  pub dirino : ℕ
  pub unlinked : List ℕ
  pub uuid : List ℕ
  pub crc : ℕ
  pub lsn : ℕ
  pub free_root : ℕ
  pub free_level : ℕ
  pub iblocks : ℕ
  pub fblocks : ℕ

-- The loop over the buckets: `count` numbers from `off` on.
unfoldable pub read_buckets : Buffer → ℕ → ℕ → Exec (List ℕ)
read_buckets bytes zero off = done []
read_buckets bytes (suc count) off = be_u32 bytes off >>= λ bucket.
    read_buckets bytes count (off + 4) >>= λ rest. done (bucket ∷ rest)

unfoldable pub parse : Buffer → Exec (Result ParseError Agi)
parse bytes = and_then (require_len bytes xfs_agi_size) λ _. be_u32 bytes 0 >>= λ magic.
    if magic == xfs_agi_magic
    then (be_u32 bytes 4 >>= λ version.
        if version == xfs_agi_version
        then (read_buckets bytes xfs_agi_unlinked_buckets 40 >>= λ unlinked.
            slice bytes 296 16 >>= λ uuid. be_u32 bytes 8 >>= λ seqno. be_u32 bytes 12 >>= λ length.
            be_u32 bytes 16 >>= λ count. be_u32 bytes 20 >>= λ root. be_u32 bytes 24 >>= λ level.
            be_u32 bytes 28 >>= λ freecount. be_u32 bytes 32 >>= λ newino.
            be_u32 bytes 36 >>= λ dirino. be_u32 bytes 312 >>= λ crc. be_u64 bytes 320 >>= λ lsn.
            be_u32 bytes 328 >>= λ free_root. be_u32 bytes 332 >>= λ free_level.
            be_u32 bytes 336 >>= λ iblocks. be_u32 bytes 340 >>= λ fblocks. done (
              ok (record {
                seqno = seqno;
                length = length;
                count = count;
                root = root;
                level = level;
                freecount = freecount;
                newino = newino;
                dirino = dirino;
                unlinked = unlinked;
                uuid = uuid;
                crc = crc;
                lsn = lsn;
                free_root = free_root;
                free_level = free_level;
                iblocks = iblocks;
                fblocks = fblocks;
              })))
        else done (err (unsupported_version version)))
    else done (err (invalid_magic xfs_agi_magic magic))

-- The stores of the loop over the buckets.
abbrev pub bucket_stores : List ℕ → ℕ → List Put
bucket_stores [] off = []
bucket_stores (val ∷ vals) off = put_be32 off val ∷ bucket_stores vals (off + 4)

abbrev pub head_stores : Agi → List Put
head_stores self =
    put_be32 0 xfs_agi_magic
    ∷ put_be32 4 xfs_agi_version
    ∷ put_be32 8 self.seqno
    ∷ put_be32 12 self.length
    ∷ put_be32 16 self.count
    ∷ put_be32 20 self.root
    ∷ put_be32 24 self.level
    ∷ put_be32 28 self.freecount
    ∷ put_be32 32 self.newino
    ∷ put_be32 36 self.dirino
    ∷ []

abbrev pub tail_stores : Agi → List Put
tail_stores self =
    put 296 16 self.uuid
    ∷ put_be64 320 self.lsn
    ∷ put_be32 328 self.free_root
    ∷ put_be32 332 self.free_level
    ∷ put_be32 336 self.iblocks
    ∷ put_be32 340 self.fblocks
    ∷ []

-- The stores that `serialize` makes, in their order.
abbrev pub stores : Agi → List Put
stores self = head_stores self ++ bucket_stores self.unlinked 40 ++ tail_stores self

unfoldable pub serialize : Agi → Buffer → Exec (Result ParseError (Unit {0}) × Buffer)
serialize self bytes =
    try (require_len bytes xfs_agi_size) bytes
      λ _. apply_all (stores self) bytes >>= λ bytes. done (ok tt, bytes)
