-- ===== src/Crabfs/OnDisk/Agf/RoundTrip.antt =====
-- What `Agf::serialize` writes, `Agf::parse` reads back, and `parse` returns on all bytes.
use theos.Base.{◌≡◌, ◌≤◌, ◌<◌, refl, length, done, ok, arith, inl, inr, ◌>>=◌}
use theos.Crabfs.Endian.{Buffer, bound, be_u32, require_len_lem, require_len_short, length_cases}
use theos.Crabfs.Endian.Layout.{Fits, after, within, spares, stored, Sized, apply_all_lem}
use theos.Crabfs.Endian.Layout.{
  be_u32-after, be_u64-after, slice-after, be_u32-spared, length-after,
}
use theos.Crabfs.Endian.Total.{
  IsTotal, done-IsTotal, then-IsTotal, if-IsTotal, be_u16-IsTotal, be_u32-IsTotal, be_u64-IsTotal,
  le_u32-IsTotal, slice-IsTotal, index-IsTotal,
}
use theos.Crabfs.OnDisk.Agf.{Agf, parse, serialize, stores, xfs_agf_magic, xfs_agf_version}

-- The widths of the fields.
pub record IsValid (a : Agf) : Type 0 where
  pub seqno_u32 : a.seqno < bound 4
  pub length_u32 : a.length < bound 4
  pub bno_root_u32 : a.bno_root < bound 4
  pub cnt_root_u32 : a.cnt_root < bound 4
  pub rmap_root_u32 : a.rmap_root < bound 4
  pub bno_level_u32 : a.bno_level < bound 4
  pub cnt_level_u32 : a.cnt_level < bound 4
  pub rmap_level_u32 : a.rmap_level < bound 4
  pub flfirst_u32 : a.flfirst < bound 4
  pub fllast_u32 : a.fllast < bound 4
  pub flcount_u32 : a.flcount < bound 4
  pub freeblks_u32 : a.freeblks < bound 4
  pub longest_u32 : a.longest < bound 4
  pub btreeblks_u32 : a.btreeblks < bound 4
  pub uuid_array : length a.uuid ≡ 16
  pub rmap_blocks_u32 : a.rmap_blocks < bound 4
  pub refcount_blocks_u32 : a.refcount_blocks < bound 4
  pub refcount_root_u32 : a.refcount_root < bound 4
  pub refcount_level_u32 : a.refcount_level < bound 4
  pub lsn_u64 : a.lsn < bound 8

fits : (a : Agf) (bytes : Buffer) → IsValid a → 224 ≤ length bytes → Fits 224 (stores a) bytes
unfolding within Sized
fits a bytes v h = record { inside = refl; sized = search (v.uuid_array) depth 60; room = h }

serialize-after :
    (a : Agf) (bytes : Buffer)
    → IsValid a
    → 224 ≤ length bytes
    → serialize a bytes ≡ done (ok tt, after (stores a) bytes)
unfolding serialize
serialize-after a bytes v h =
    rw (require_len_lem bytes 224 h, apply_all_lem (fits a bytes v h)) refl

parse-after :
    (a : Agf) (bytes : Buffer)
    → IsValid a
    → 224 ≤ length bytes
    → be_u32 bytes 216 ≡ done a.crc
    → parse (after (stores a) bytes) ≡ done (ok a)
unfolding parse stored spares
parse-after a bytes v h c =
    let f = fits a bytes v h in
    rw
      (
        require_len_lem (after (stores a) bytes) 224 (omega (arith, length-after (stores a) bytes)),
        be_u32-after f 0 xfs_agf_magic (omega arith) refl refl,
        be_u32-after f 4 xfs_agf_version (omega arith) refl refl,
        be_u32-after f 8 a.seqno v.seqno_u32 refl refl,
        be_u32-after f 12 a.length v.length_u32 refl refl,
        be_u32-after f 16 a.bno_root v.bno_root_u32 refl refl,
        be_u32-after f 20 a.cnt_root v.cnt_root_u32 refl refl,
        be_u32-after f 24 a.rmap_root v.rmap_root_u32 refl refl,
        be_u32-after f 28 a.bno_level v.bno_level_u32 refl refl,
        be_u32-after f 32 a.cnt_level v.cnt_level_u32 refl refl,
        be_u32-after f 36 a.rmap_level v.rmap_level_u32 refl refl,
        be_u32-after f 40 a.flfirst v.flfirst_u32 refl refl,
        be_u32-after f 44 a.fllast v.fllast_u32 refl refl,
        be_u32-after f 48 a.flcount v.flcount_u32 refl refl,
        be_u32-after f 52 a.freeblks v.freeblks_u32 refl refl,
        be_u32-after f 56 a.longest v.longest_u32 refl refl,
        be_u32-after f 60 a.btreeblks v.btreeblks_u32 refl refl,
        slice-after f 64 16 a.uuid refl refl,
        be_u32-after f 80 a.rmap_blocks v.rmap_blocks_u32 refl refl,
        be_u32-after f 84 a.refcount_blocks v.refcount_blocks_u32 refl refl,
        be_u32-after f 88 a.refcount_root v.refcount_root_u32 refl refl,
        be_u32-after f 92 a.refcount_level v.refcount_level_u32 refl refl,
        be_u64-after f 208 a.lsn v.lsn_u64 refl refl,
        be_u32-spared f 216 a.crc refl refl c,
      )
      refl

-- A header whose fields have their widths, stored into a buffer of at least 224 bytes that holds
-- its checksum field already, is read back the same: `serialize` and then `parse` return it.
pub parse-serialize_agf :
    (a : Agf) (bytes : Buffer)
    → IsValid a
    → 224 ≤ length bytes
    → be_u32 bytes 216 ≡ done a.crc
    → (serialize a bytes >>= λ r. parse r.1) ≡ done (ok a)
parse-serialize_agf a bytes v h c = rw (serialize-after a bytes v h) (parse-after a bytes v h c)

-- `Agf::parse` returns on every buffer, whatever it holds: no read leaves it.
pub parse_agf-IsTotal : (bytes : Buffer) → IsTotal (parse bytes)
unfolding parse
parse_agf-IsTotal bytes = elim (length_cases bytes 224) [
  | inl short ↦ rw (require_len_short bytes 224 short) (done-IsTotal _)
  | inr h ↦ rw (require_len_lem bytes 224 h) (
      search
        (
          done-IsTotal,
          then-IsTotal,
          if-IsTotal,
          be_u16-IsTotal bytes h,
          be_u32-IsTotal bytes h,
          be_u64-IsTotal bytes h,
          le_u32-IsTotal bytes h,
          slice-IsTotal bytes h,
          index-IsTotal bytes h,
        )
        depth 90 fits 8000)
]
