-- ===== src/Crabfs/OnDisk/Inode/RoundTrip.antt =====
-- What `Inode::serialize` writes, `Inode::parse` reads back, and `parse` returns on all bytes.
use theos.Base.{
  ℕ, ◌≡◌, ◌≤◌, ◌<◌, ◌+◌, ◌%◌, ◌*◌, ◌/◌, refl, length, done, ok, arith, inl, inr, ◌>>=◌,
}
use theos.Crabfs.Endian.{Buffer, bound, le_u32, require_len_lem, require_len_short, length_cases}
use theos.Crabfs.Endian.Layout.{Fits, after, within, spares, stored, Sized, apply_all_lem}
use theos.Crabfs.Endian.Layout.{
  be_u16-after, be_u32-after, be_u64-after, slice-after, index-after, le_u32-spared, length-after,
}
use theos.Crabfs.Endian.Total.{
  IsTotal, done-IsTotal, then-IsTotal, if-IsTotal, be_u16-IsTotal, be_u32-IsTotal, be_u64-IsTotal,
  le_u32-IsTotal, slice-IsTotal, index-IsTotal,
}
use theos.Crabfs.OnDisk.Inode.{
  Inode, InodeFormat, dev, inline, extents, btree, uuid_format, parse, serialize, stores, from_u8,
  to_u8, i32_as_u32, i64_as_u64, xfs_dinode_magic,
}
use theos.Base.{==_iff}
use theos.Base.Int.{IsSigned, as_unsigned_bound, as_signed-as_unsigned}

pub from_u8-to_u8 : (f : InodeFormat) → from_u8 (to_u8 f) ≡ f
from_u8-to_u8 dev = refl
from_u8-to_u8 inline = refl
from_u8-to_u8 extents = refl
from_u8-to_u8 btree = refl
from_u8-to_u8 uuid_format = refl

join-projid : (p : ℕ) → p / 65536 * 65536 + p % 65536 ≡ p
join-projid p = omega arith

-- The widths of the fields.
pub record IsValid (a : Inode) : Type 0 where
  pub magic_u16 : a.magic < bound 2
  pub mode_u16 : a.mode < bound 2
  pub onlink_u16 : a.onlink < bound 2
  pub uid_u32 : a.uid < bound 4
  pub gid_u32 : a.gid < bound 4
  pub nlink_u32 : a.nlink < bound 4
  pub flushiter_u16 : a.flushiter < bound 2
  pub nblocks_u64 : a.nblocks < bound 8
  pub extsize_u32 : a.extsize < bound 4
  pub nextents_u32 : a.nextents < bound 4
  pub anextents_u16 : a.anextents < bound 2
  pub dmevmask_u32 : a.dmevmask < bound 4
  pub dmstate_u16 : a.dmstate < bound 2
  pub flags_u16 : a.flags < bound 2
  pub generation_u32 : a.generation < bound 4
  pub next_unlinked_u32 : a.next_unlinked < bound 4
  pub change_count_u64 : a.change_count < bound 8
  pub lsn_u64 : a.lsn < bound 8
  pub flags2_u64 : a.flags2 < bound 8
  pub cowextsize_u32 : a.cowextsize < bound 4
  pub ino_u64 : a.ino < bound 8
  pub uuid_array : length a.uuid ≡ 16
  pub projid_u32 : a.projid < bound 4
  pub size_i64 : IsSigned 9223372036854775808 a.size
  pub atime_i32 : IsSigned 2147483648 a.atime.0
  pub atime_u32 : a.atime.1 < bound 4
  pub mtime_i32 : IsSigned 2147483648 a.mtime.0
  pub mtime_u32 : a.mtime.1 < bound 4
  pub ctime_i32 : IsSigned 2147483648 a.ctime.0
  pub ctime_u32 : a.ctime.1 < bound 4
  pub crtime_i32 : IsSigned 2147483648 a.crtime.0
  pub crtime_u32 : a.crtime.1 < bound 4
  pub magic_lem : a.magic ≡ xfs_dinode_magic

fits : (a : Inode) (bytes : Buffer) → IsValid a → 176 ≤ length bytes → Fits 176 (stores a) bytes
unfolding within Sized
fits a bytes v h = record { inside = refl; sized = search (v.uuid_array) depth 60; room = h }

serialize-after :
    (a : Inode) (bytes : Buffer)
    → IsValid a
    → 176 ≤ length bytes
    → serialize a bytes ≡ done (ok tt, after (stores a) bytes)
unfolding serialize
serialize-after a bytes v h =
    rw (require_len_lem bytes 176 h, apply_all_lem (fits a bytes v h)) refl

parse-after :
    (a : Inode) (bytes : Buffer)
    → IsValid a
    → 176 ≤ length bytes
    → le_u32 bytes 100 ≡ done a.crc
    → parse (after (stores a) bytes) ≡ done (ok a)
unfolding parse stored spares
parse-after a bytes v h c =
    let f = fits a bytes v h in
    rw
      (
        require_len_lem (after (stores a) bytes) 176 (omega (arith, length-after (stores a) bytes)),
        be_u16-after f 0 a.magic v.magic_u16 refl refl,
        (==_iff a.magic xfs_dinode_magic).1 v.magic_lem,
        be_u16-after f 20 (a.projid % 65536) (omega arith) refl refl,
        be_u16-after f 22 (a.projid / 65536) (omega (arith, v.projid_u32)) refl refl,
        be_u16-after f 2 a.mode v.mode_u16 refl refl,
        index-after f 4 a.version refl refl,
        index-after f 5 (to_u8 a.format) refl refl,
        be_u16-after f 6 a.onlink v.onlink_u16 refl refl,
        be_u32-after f 8 a.uid v.uid_u32 refl refl,
        be_u32-after f 12 a.gid v.gid_u32 refl refl,
        be_u32-after f 16 a.nlink v.nlink_u32 refl refl,
        be_u16-after f 30 a.flushiter v.flushiter_u16 refl refl,
        be_u32-after f 32 (i32_as_u32 a.atime.0)
            (as_unsigned_bound 2147483648 a.atime.0 v.atime_i32) refl refl,
        be_u32-after f 36 a.atime.1 v.atime_u32 refl refl,
        be_u32-after f 40 (i32_as_u32 a.mtime.0)
            (as_unsigned_bound 2147483648 a.mtime.0 v.mtime_i32) refl refl,
        be_u32-after f 44 a.mtime.1 v.mtime_u32 refl refl,
        be_u32-after f 48 (i32_as_u32 a.ctime.0)
            (as_unsigned_bound 2147483648 a.ctime.0 v.ctime_i32) refl refl,
        be_u32-after f 52 a.ctime.1 v.ctime_u32 refl refl,
        be_u64-after f 56 (i64_as_u64 a.size)
            (as_unsigned_bound 9223372036854775808 a.size v.size_i64) refl refl,
        be_u64-after f 64 a.nblocks v.nblocks_u64 refl refl,
        be_u32-after f 72 a.extsize v.extsize_u32 refl refl,
        be_u32-after f 76 a.nextents v.nextents_u32 refl refl,
        be_u16-after f 80 a.anextents v.anextents_u16 refl refl,
        index-after f 82 a.forkoff refl refl,
        index-after f 83 (to_u8 a.aformat) refl refl,
        be_u32-after f 84 a.dmevmask v.dmevmask_u32 refl refl,
        be_u16-after f 88 a.dmstate v.dmstate_u16 refl refl,
        be_u16-after f 90 a.flags v.flags_u16 refl refl,
        be_u32-after f 92 a.generation v.generation_u32 refl refl,
        be_u32-after f 96 a.next_unlinked v.next_unlinked_u32 refl refl,
        be_u64-after f 104 a.change_count v.change_count_u64 refl refl,
        be_u64-after f 112 a.lsn v.lsn_u64 refl refl,
        be_u64-after f 120 a.flags2 v.flags2_u64 refl refl,
        be_u32-after f 128 a.cowextsize v.cowextsize_u32 refl refl,
        be_u32-after f 144 (i32_as_u32 a.crtime.0)
            (as_unsigned_bound 2147483648 a.crtime.0 v.crtime_i32) refl refl,
        be_u32-after f 148 a.crtime.1 v.crtime_u32 refl refl,
        be_u64-after f 152 a.ino v.ino_u64 refl refl,
        slice-after f 160 16 a.uuid refl refl,
        le_u32-spared f 100 a.crc refl refl c,
        as_signed-as_unsigned 2147483648 a.atime.0 v.atime_i32,
        as_signed-as_unsigned 2147483648 a.mtime.0 v.mtime_i32,
        as_signed-as_unsigned 2147483648 a.ctime.0 v.ctime_i32,
        as_signed-as_unsigned 2147483648 a.crtime.0 v.crtime_i32,
        as_signed-as_unsigned 9223372036854775808 a.size v.size_i64,
        from_u8-to_u8 a.format,
        from_u8-to_u8 a.aformat,
        join-projid a.projid,
      )
      refl

-- An inode with the magic number and fields of their widths, stored into a buffer that holds its
-- checksum already, is read back the same.
pub parse-serialize_inode :
    (a : Inode) (bytes : Buffer)
    → IsValid a
    → 176 ≤ length bytes
    → le_u32 bytes 100 ≡ done a.crc
    → (serialize a bytes >>= λ r. parse r.1) ≡ done (ok a)
parse-serialize_inode a bytes v h c = rw (serialize-after a bytes v h) (parse-after a bytes v h c)

-- `Inode::parse` returns on every buffer.
pub parse_inode-IsTotal : (bytes : Buffer) → IsTotal (parse bytes)
unfolding parse
parse_inode-IsTotal bytes = elim (length_cases bytes 176) [
  | inl short ↦ rw (require_len_short bytes 176 short) (done-IsTotal _)
  | inr h ↦ rw (require_len_lem bytes 176 h) (
      search
        (
          done-IsTotal,
          then-IsTotal,
          if-IsTotal,
          be_u16-IsTotal bytes h,
          be_u32-IsTotal bytes h,
          be_u64-IsTotal bytes h,
          le_u32-IsTotal bytes h,
          slice-IsTotal bytes h,
          index-IsTotal bytes h,
        )
        depth 90 fits 8000)
]
