-- ===== src/Crabfs/ExtentDir/Total.antt =====
-- The directory reader returns on all bytes.
use theos.Base.{
  ◌≤◌, ◌≡◌, ◌⊎◌, Bool-cases, false, done, panic, ℕ, zero, suc, ◌+◌, refl, arith, List, length,
}
use theos.Base.{inl, inr, le→leb, le→not-ltb, lt→ltb}
use theos.Crabfs.Endian.{be_u32, Buffer, require_len_lem, require_len_short, length_cases}
use theos.Crabfs.Endian.Total.{IsTotal, total, done-IsTotal, then-IsTotal}
use theos.Crabfs.Endian.Total.{
  be_u16-IsTotal, be_u32-IsTotal, be_u64-IsTotal, index-IsTotal, slice-IsTotal,
}
use theos.Crabfs.ExtentDir.{DirEntry, Decoder, Memory, parse_entries, parse_extent_dir_entries}

parse_entries-IsTotal :
    (decode : Decoder) (bytes : Buffer) (n pos : ℕ) (entries : List DirEntry)
    → IsTotal (parse_entries decode bytes n pos entries)
unfolding parse_entries
parse_entries-IsTotal decode bytes zero pos entries = done-IsTotal _
parse_entries-IsTotal decode bytes (suc n) pos entries = elim (length_cases bytes (pos + 11)) [
  | inl short ↦ rw (require_len_short bytes (pos + 11) short) (done-IsTotal _)
  | inr h ↦ rw (require_len_lem bytes (pos + 11) h) (
      then-IsTotal (be_u64-IsTotal bytes h pos (le→leb _ _ (omega arith))) λ ino.
        then-IsTotal (index-IsTotal bytes h (pos + 8) (le→leb _ _ (omega arith))) λ ftype.
          then-IsTotal (be_u16-IsTotal bytes h (pos + 9) (le→leb _ _ (omega arith))) λ name_len.
            elim (length_cases bytes (pos + 11 + name_len)) [
              | inl short ↦
                  rw (require_len_short bytes (pos + 11 + name_len) short) (done-IsTotal _)
              | inr k ↦ rw (require_len_lem bytes (pos + 11 + name_len) k) (
                  then-IsTotal
                    (slice-IsTotal bytes k (pos + 11) name_len (le→leb _ _ (omega arith)))
                    λ name. parse_entries-IsTotal decode bytes n _ _)
            ])
]

-- `parse_extent_dir_entries` on any buffer: it returns, so that no read of a truncated or forged directory
-- leaves the buffer, or the buffer has at least 20 bytes, its count is one for which there is no memory,
-- and the run ends there.
pub parse_extent_dir_entries_lem :
    (memory : Memory) (decode : Decoder) (bytes : Buffer) (ino_num : ℕ)
    → IsTotal (parse_extent_dir_entries memory decode bytes ino_num)
      ⊎ ((20 ≤ length bytes)
          × (count : ℕ) × (be_u32 bytes 8 ≡ done count)
          × (memory (count + 2) ≡ false)
          × (parse_extent_dir_entries memory decode bytes ino_num ≡ panic))
unfolding parse_extent_dir_entries
parse_extent_dir_entries_lem memory decode bytes ino_num = elim (length_cases bytes 20) [
  | inl short ↦ inl (rw (lt→ltb (length bytes) 20 short) (done-IsTotal _))
  | inr h ↦ elim (be_u32-IsTotal bytes h 8 refl) [
    | total count c ↦ elim (be_u64-IsTotal bytes h 12 refl) [
      | total parent p ↦ elim (Bool-cases (memory (count + 2))) [
        | inl room ↦ inl (
            rw (le→not-ltb (length bytes) 20 h, c, p, room)
              (parse_entries-IsTotal decode bytes count 20 _))
        | inr none_left ↦
            inr (h, count, c, none_left, rw (le→not-ltb (length bytes) 20 h, c, p, none_left) refl)
      ]
    ]
  ]
]
