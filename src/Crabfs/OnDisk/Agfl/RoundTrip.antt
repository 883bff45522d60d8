-- ===== src/Crabfs/OnDisk/Agfl/RoundTrip.antt =====
-- What `Agfl::serialize` writes, `Agfl::parse` reads back, and `parse` returns on all bytes.
use theos.Base.{ℕ, ◌≡◌, ◌≤◌, ◌<◌, ◌/◌, refl, sym, length, done, ok, arith, ◌>>=◌, true}
use theos.Crabfs.Endian.{Buffer, bound, be_u32, require_len_lem}
use theos.Crabfs.Endian.Layout.{Fits, after, within, spares, stored, Sized, apply_all_lem}
use theos.Crabfs.Endian.Layout.{
  be_u32-after, be_u64-after, slice-after, be_u32-spared, length-after,
}
use theos.Base.{lt→ltb, ◌-◌}
use mathlib.Core.Path.{ap₂}
use theos.Crabfs.OnDisk.Agfl.{Agfl, parse, serialize, stores, xfs_agfl_magic}

-- The widths of the fields.
pub record IsValid (a : Agfl) : Type 0 where
  pub seqno_u32 : a.seqno < bound 4
  pub uuid_array : length a.uuid ≡ 16
  pub lsn_u64 : a.lsn < bound 8
  pub magicnum_lem : a.magicnum ≡ xfs_agfl_magic

fits : (a : Agfl) (bytes : Buffer) → IsValid a → 36 ≤ length bytes → Fits 36 (stores a) bytes
unfolding within Sized
fits a bytes v h = record { inside = refl; sized = search (v.uuid_array) depth 60; room = h }

serialize-after :
    (a : Agfl) (bytes : Buffer)
    → IsValid a
    → 36 ≤ length bytes
    → serialize a bytes true ≡ done (ok tt, after (stores a) bytes)
unfolding serialize
serialize-after a bytes v h = rw (require_len_lem bytes 36 h, apply_all_lem (fits a bytes v h)) refl

parse-after :
    (a : Agfl) (bytes : Buffer) (sector_size : ℕ)
    → IsValid a
    → 36 ≤ length bytes
    → sector_size ≤ length bytes
    → sector_size < bound 2
    → a.entries_total ≡ (sector_size - 36) / 4
    → be_u32 bytes 32 ≡ done a.crc
    → parse (after (stores a) bytes) sector_size true ≡ done (ok a)
unfolding parse stored spares
parse-after a bytes sector_size v h s b t c =
    let f = fits a bytes v h in
    rw
      (
        require_len_lem (after (stores a) bytes) 36 (omega (arith, length-after (stores a) bytes)),
        require_len_lem (after (stores a) bytes) sector_size
            (omega (arith, length-after (stores a) bytes)),
        be_u32-after f 0 xfs_agfl_magic (omega arith) refl refl,
        lt→ltb ((sector_size - 36) / 4) 4294967296 (omega arith),
        be_u32-after f 4 a.seqno v.seqno_u32 refl refl,
        slice-after f 8 16 a.uuid refl refl,
        be_u64-after f 24 a.lsn v.lsn_u64 refl refl,
        be_u32-spared f 32 a.crc refl refl c,
      )
      (ap₂
        (λ m e. done (
          ok (record {
            magicnum = m;
            seqno = a.seqno;
            uuid = a.uuid;
            lsn = a.lsn;
            crc = a.crc;
            entries_total = e;
          })))
        (sym v.magicnum_lem) (sym t))

-- A header with its magic number, its widths and the number of entries that fit behind it, stored
-- into a sector that holds its checksum field already, is read back the same.
pub parse-serialize_agfl :
    (a : Agfl) (bytes : Buffer) (sector_size : ℕ)
    → IsValid a
    → 36 ≤ length bytes
    → sector_size ≤ length bytes
    → sector_size < bound 2
    → a.entries_total ≡ (sector_size - 36) / 4
    → be_u32 bytes 32 ≡ done a.crc
    → (serialize a bytes true >>= λ r. parse r.1 sector_size true) ≡ done (ok a)
parse-serialize_agfl a bytes sector_size v h s b t c =
    rw (serialize-after a bytes v h) (parse-after a bytes sector_size v h s b t c)
