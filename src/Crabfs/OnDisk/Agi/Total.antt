-- ===== src/Crabfs/OnDisk/Agi/Total.antt =====
-- `Agi::parse` returns on all bytes.
use theos.Base.{◌≤◌, ◌+◌, ◌*◌, ℕ, zero, suc, length, arith, inl, inr, le→leb}
use theos.Crabfs.Endian.{Buffer, require_len_lem, require_len_short, length_cases}
use theos.Crabfs.Endian.Total.{
  IsTotal, done-IsTotal, then-IsTotal, if-IsTotal, be_u32-IsTotal, be_u64-IsTotal, slice-IsTotal,
}
use theos.Crabfs.OnDisk.Agi.{parse, read_buckets}

-- The loop over `count` buckets returns when the buffer has them all.
read_buckets-IsTotal :
    (bytes : Buffer) (count off : ℕ)
    → off + 4 * count ≤ length bytes
    → IsTotal (read_buckets bytes count off)
unfolding read_buckets
read_buckets-IsTotal bytes zero off h = done-IsTotal _
read_buckets-IsTotal bytes (suc count) off h =
    then-IsTotal (be_u32-IsTotal bytes h off (le→leb (off + 4) _ (omega arith))) λ bucket.
      then-IsTotal (read_buckets-IsTotal bytes count (off + 4) (omega (arith, h)))
        λ rest. done-IsTotal _

-- `Agi::parse` returns on every buffer, whatever it holds: no read leaves it.
pub parse_agi-IsTotal : (bytes : Buffer) → IsTotal (parse bytes)
unfolding parse
parse_agi-IsTotal bytes = elim (length_cases bytes 344) [
  | inl short ↦ rw (require_len_short bytes 344 short) (done-IsTotal _)
  | inr h ↦ rw (require_len_lem bytes 344 h) (
      search
        (
          done-IsTotal,
          then-IsTotal,
          if-IsTotal,
          be_u32-IsTotal bytes h,
          be_u64-IsTotal bytes h,
          slice-IsTotal bytes h,
          read_buckets-IsTotal bytes 64 40 (omega (arith, h)),
        )
        depth 90 fits 8000)
]
