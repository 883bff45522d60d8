-- ===== src/Crabfs/OnDisk/Inode.antt =====
-- The inode, `lib/crabfs/on_disk/inode.rs`. The project id's shift by 16 bits is a product, to
-- which the low half is added.
pub mod RoundTrip
use theos.Base.{
  ℕ, List, [], ◌∷◌, zero, suc, ◌+◌, ◌*◌, ◌/◌, ◌%◌, ◌-◌, Option, none, some, Bool, true, false, not,
  map, ◌++◌,
}
use theos.Base.{
  Exec, done, ◌>>=◌, Result, ok, err, try, and_then, slice, index, ◌==◌, ltb, leb, if◌then◌else◌,
}
use theos.Crabfs.Error.{
  ParseError, invalid_magic, invalid_int, unsupported_version, invalid_field, sb_blocksize,
  sb_sectsize, sb_inodesize, buffer_too_small, FieldName,
}
use theos.Crabfs.Endian.{
  Buffer, Put, put, fill, put_byte, put_be16, put_be32, put_be64, be_u16, be_u32, be_u64, le_u32,
  apply_all, require_len,
}
use theos.Base.Int.{ℤ, as_signed, as_unsigned}

abbrev pub xfs_dinode_magic : ℕ
xfs_dinode_magic = 0x494e

abbrev pub xfs_dinode_size_v3 : ℕ
xfs_dinode_size_v3 = 176

abbrev pub xfs_dinode_crc_off : ℕ
xfs_dinode_crc_off = 100

abbrev pub as_i32 : ℕ → ℤ
as_i32 n = as_signed 2147483648 n

abbrev pub i32_as_u32 : ℤ → ℕ
i32_as_u32 z = as_unsigned 2147483648 z

abbrev pub as_i64 : ℕ → ℤ
as_i64 n = as_signed 9223372036854775808 n

abbrev pub i64_as_u64 : ℤ → ℕ
i64_as_u64 z = as_unsigned 9223372036854775808 z

pub data InodeFormat : Type 0 where
  dev : InodeFormat
  inline : InodeFormat
  extents : InodeFormat
  btree : InodeFormat
  uuid_format : InodeFormat

abbrev pub from_u8 : ℕ → InodeFormat
from_u8 v =
    if v == 0
    then dev
    else (if v == 1
        then inline
        else (if v == 2 then extents else (if v == 3 then btree else uuid_format)))

abbrev pub to_u8 : InodeFormat → ℕ
to_u8 dev = 0
to_u8 inline = 1
to_u8 extents = 2
to_u8 btree = 3
to_u8 uuid_format = 4

pub record Inode : Type 0 where
  pub magic : ℕ
  pub mode : ℕ
  pub version : ℕ
  pub format : InodeFormat
  pub onlink : ℕ
  pub uid : ℕ
  pub gid : ℕ
  pub nlink : ℕ
  pub projid : ℕ
  pub flushiter : ℕ
  pub atime : ℤ × ℕ
  pub mtime : ℤ × ℕ
  pub ctime : ℤ × ℕ
  pub size : ℤ
  pub nblocks : ℕ
  pub extsize : ℕ
  pub nextents : ℕ
  pub anextents : ℕ
  pub forkoff : ℕ
  pub aformat : InodeFormat
  pub dmevmask : ℕ
  pub dmstate : ℕ
  pub flags : ℕ
  pub generation : ℕ
  pub next_unlinked : ℕ
  pub crc : ℕ
  pub change_count : ℕ
  pub lsn : ℕ
  pub flags2 : ℕ
  pub cowextsize : ℕ
  pub crtime : ℤ × ℕ
  pub ino : ℕ
  pub uuid : List ℕ

unfoldable pub parse : Buffer → Exec (Result ParseError Inode)
parse bytes = and_then (require_len bytes xfs_dinode_size_v3) λ _. be_u16 bytes 0 >>= λ magic.
    if magic == xfs_dinode_magic
    then (be_u16 bytes 20 >>= λ projid_lo. be_u16 bytes 22 >>= λ projid_hi.
        be_u16 bytes 2 >>= λ mode. index bytes 4 >>= λ version. index bytes 5 >>= λ format_byte.
        be_u16 bytes 6 >>= λ onlink. be_u32 bytes 8 >>= λ uid. be_u32 bytes 12 >>= λ gid.
        be_u32 bytes 16 >>= λ nlink. be_u16 bytes 30 >>= λ flushiter.
        be_u32 bytes 32 >>= λ atime_sec. be_u32 bytes 36 >>= λ atime_nsec.
        be_u32 bytes 40 >>= λ mtime_sec. be_u32 bytes 44 >>= λ mtime_nsec.
        be_u32 bytes 48 >>= λ ctime_sec. be_u32 bytes 52 >>= λ ctime_nsec.
        be_u64 bytes 56 >>= λ size_word. be_u64 bytes 64 >>= λ nblocks.
        be_u32 bytes 72 >>= λ extsize. be_u32 bytes 76 >>= λ nextents.
        be_u16 bytes 80 >>= λ anextents. index bytes 82 >>= λ forkoff.
        index bytes 83 >>= λ aformat_byte. be_u32 bytes 84 >>= λ dmevmask.
        be_u16 bytes 88 >>= λ dmstate. be_u16 bytes 90 >>= λ flags.
        be_u32 bytes 92 >>= λ generation. be_u32 bytes 96 >>= λ next_unlinked.
        le_u32 bytes 100 >>= λ crc. be_u64 bytes 104 >>= λ change_count. be_u64 bytes 112 >>= λ lsn.
        be_u64 bytes 120 >>= λ flags2. be_u32 bytes 128 >>= λ cowextsize.
        be_u32 bytes 144 >>= λ crtime_sec. be_u32 bytes 148 >>= λ crtime_nsec.
        be_u64 bytes 152 >>= λ ino. slice bytes 160 16 >>= λ uuid. done (
          ok (record {
            magic = magic;
            mode = mode;
            version = version;
            format = from_u8 format_byte;
            onlink = onlink;
            uid = uid;
            gid = gid;
            nlink = nlink;
            projid = projid_hi * 65536 + projid_lo;
            flushiter = flushiter;
            atime = (as_i32 atime_sec, atime_nsec);
            mtime = (as_i32 mtime_sec, mtime_nsec);
            ctime = (as_i32 ctime_sec, ctime_nsec);
            size = as_i64 size_word;
            nblocks = nblocks;
            extsize = extsize;
            nextents = nextents;
            anextents = anextents;
            forkoff = forkoff;
            aformat = from_u8 aformat_byte;
            dmevmask = dmevmask;
            dmstate = dmstate;
            flags = flags;
            generation = generation;
            next_unlinked = next_unlinked;
            crc = crc;
            change_count = change_count;
            lsn = lsn;
            flags2 = flags2;
            cowextsize = cowextsize;
            crtime = (as_i32 crtime_sec, crtime_nsec);
            ino = ino;
            uuid = uuid;
          })))
    else done (err (invalid_magic xfs_dinode_magic magic))

-- The stores that `serialize` makes, in their order.
abbrev pub stores : Inode → List Put
stores self =
    put_be16 0 self.magic
    ∷ put_be16 2 self.mode
    ∷ put_byte 4 self.version
    ∷ put_byte 5 (to_u8 self.format)
    ∷ put_be16 6 self.onlink
    ∷ put_be32 8 self.uid
    ∷ put_be32 12 self.gid
    ∷ put_be32 16 self.nlink
    ∷ put_be16 20 (self.projid % 65536)
    ∷ put_be16 22 (self.projid / 65536)
    ∷ fill 24 6 0
    ∷ put_be16 30 self.flushiter
    ∷ put_be32 32 (i32_as_u32 self.atime.0)
    ∷ put_be32 36 self.atime.1
    ∷ put_be32 40 (i32_as_u32 self.mtime.0)
    ∷ put_be32 44 self.mtime.1
    ∷ put_be32 48 (i32_as_u32 self.ctime.0)
    ∷ put_be32 52 self.ctime.1
    ∷ put_be64 56 (i64_as_u64 self.size)
    ∷ put_be64 64 self.nblocks
    ∷ put_be32 72 self.extsize
    ∷ put_be32 76 self.nextents
    ∷ put_be16 80 self.anextents
    ∷ put_byte 82 self.forkoff
    ∷ put_byte 83 (to_u8 self.aformat)
    ∷ put_be32 84 self.dmevmask
    ∷ put_be16 88 self.dmstate
    ∷ put_be16 90 self.flags
    ∷ put_be32 92 self.generation
    ∷ put_be32 96 self.next_unlinked
    ∷ put_be64 104 self.change_count
    ∷ put_be64 112 self.lsn
    ∷ put_be64 120 self.flags2
    ∷ put_be32 128 self.cowextsize
    ∷ fill 132 12 0
    ∷ put_be32 144 (i32_as_u32 self.crtime.0)
    ∷ put_be32 148 self.crtime.1
    ∷ put_be64 152 self.ino
    ∷ put 160 16 self.uuid
    ∷ []

unfoldable pub serialize : Inode → Buffer → Exec (Result ParseError (Unit {0}) × Buffer)
serialize self bytes =
    try (require_len bytes xfs_dinode_size_v3) bytes
      λ _. apply_all (stores self) bytes >>= λ bytes. done (ok tt, bytes)
