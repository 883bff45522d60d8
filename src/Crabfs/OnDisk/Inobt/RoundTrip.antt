-- ===== src/Crabfs/OnDisk/Inobt/RoundTrip.antt =====
-- What `InodeBtreeRoot::serialize` writes, `InodeBtreeRoot::parse` reads back, and `parse` returns on all bytes.
use theos.Base.{◌≡◌, ◌≤◌, ◌<◌, refl, length, done, ok, arith, inl, inr, ◌>>=◌, true}
use theos.Crabfs.Endian.{Buffer, bound, le_u32, require_len_lem, require_len_short, length_cases}
use theos.Crabfs.Endian.Layout.{Fits, after, within, spares, stored, Sized, apply_all_lem}
use theos.Crabfs.Endian.Layout.{
  be_u16-after, be_u32-after, be_u64-after, slice-after, le_u32-spared, length-after,
}
use theos.Crabfs.Endian.Total.{
  IsTotal, done-IsTotal, then-IsTotal, if-IsTotal, be_u16-IsTotal, be_u32-IsTotal, be_u64-IsTotal,
  le_u32-IsTotal, slice-IsTotal, index-IsTotal,
}
use theos.Base.{==_iff}
use theos.Crabfs.OnDisk.Inobt.{
  InodeBtreeRoot, InodeBtreeKind, parse, serialize, stores, expected_magic,
}

-- The widths of the fields.
pub record IsValid (a : InodeBtreeRoot) : Type 0 where
  pub magic_u32 : a.magic < bound 4
  pub level_u16 : a.level < bound 2
  pub numrecs_u16 : a.numrecs < bound 2
  pub leftsib_u32 : a.leftsib < bound 4
  pub rightsib_u32 : a.rightsib < bound 4
  pub blkno_u64 : a.blkno < bound 8
  pub lsn_u64 : a.lsn < bound 8
  pub uuid_array : length a.uuid ≡ 16
  pub owner_u32 : a.owner < bound 4
  pub magic_lem : a.magic ≡ expected_magic a.kind

fits :
    (a : InodeBtreeRoot) (bytes : Buffer) → IsValid a → 56 ≤ length bytes → Fits 56 (stores a) bytes
unfolding within Sized
fits a bytes v h = record { inside = refl; sized = search (v.uuid_array) depth 60; room = h }

serialize-after :
    (a : InodeBtreeRoot) (bytes : Buffer)
    → IsValid a
    → 56 ≤ length bytes
    → serialize a bytes ≡ done (ok tt, after (stores a) bytes)
unfolding serialize
serialize-after a bytes v h = rw (require_len_lem bytes 56 h, apply_all_lem (fits a bytes v h)) refl

parse-after :
    (a : InodeBtreeRoot) (bytes : Buffer)
    → IsValid a
    → 56 ≤ length bytes
    → le_u32 bytes 52 ≡ done a.crc
    → parse (after (stores a) bytes) a.kind true ≡ done (ok a)
unfolding parse stored spares
parse-after a bytes v h c =
    let f = fits a bytes v h in
    rw
      (
        require_len_lem (after (stores a) bytes) 56 (omega (arith, length-after (stores a) bytes)),
        be_u32-after f 0 a.magic v.magic_u32 refl refl,
        (==_iff a.magic (expected_magic a.kind)).1 v.magic_lem,
        be_u16-after f 4 a.level v.level_u16 refl refl,
        be_u16-after f 6 a.numrecs v.numrecs_u16 refl refl,
        be_u32-after f 8 a.leftsib v.leftsib_u32 refl refl,
        be_u32-after f 12 a.rightsib v.rightsib_u32 refl refl,
        be_u64-after f 16 a.blkno v.blkno_u64 refl refl,
        be_u64-after f 24 a.lsn v.lsn_u64 refl refl,
        slice-after f 32 16 a.uuid refl refl,
        be_u32-after f 48 a.owner v.owner_u32 refl refl,
        le_u32-spared f 52 a.crc refl refl c,
      )
      refl

-- A root block with the magic number of its kind and fields of their widths, stored into a buffer
-- that holds its checksum already, is read back the same.
pub parse-serialize_inobt :
    (a : InodeBtreeRoot) (bytes : Buffer)
    → IsValid a
    → 56 ≤ length bytes
    → le_u32 bytes 52 ≡ done a.crc
    → (serialize a bytes >>= λ r. parse r.1 a.kind true) ≡ done (ok a)
parse-serialize_inobt a bytes v h c = rw (serialize-after a bytes v h) (parse-after a bytes v h c)

-- `InodeBtreeRoot::parse` returns on every buffer.
pub parse_inobt-IsTotal : (bytes : Buffer) (kind : InodeBtreeKind) → IsTotal (parse bytes kind true)
unfolding parse
parse_inobt-IsTotal bytes kind = elim (length_cases bytes 56) [
  | inl short ↦ rw (require_len_short bytes 56 short) (done-IsTotal _)
  | inr h ↦ rw (require_len_lem bytes 56 h) (
      search
        (
          done-IsTotal,
          then-IsTotal,
          if-IsTotal,
          be_u16-IsTotal bytes h,
          be_u32-IsTotal bytes h,
          be_u64-IsTotal bytes h,
          le_u32-IsTotal bytes h,
          slice-IsTotal bytes h,
          index-IsTotal bytes h,
        )
        depth 90 fits 8000)
]
