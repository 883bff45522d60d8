-- ===== src/Crabfs/Crc.antt =====
-- The checksum of a metadata block, `lib/crabfs/crc.rs`.
use theos.Base.{ℕ, zero, suc, ◌+◌, ◌-◌, ◌/◌, ◌%◌, ◌≤◌, ◌<◌, ◌≡◌, refl, ap, ◌∙◌, arith}
use theos.Base.{Bool, true, false, List, [], ◌∷◌, length, take, drop, overwrite, replicate}
use theos.Base.{
  length-overwrite, slice-overwrite_self, slice-overwrite_before, drop-overwrite_after,
}
use theos.Base.{Exec, done, ◌>>=◌, slice, slice_from, ltb, ◌==◌, if◌then◌else◌}
use theos.Base.{le→not-ltb, le→leb, ==_iff}
use mathlib.Core.Path.{ap₂}
use theos.Base.Bits.{bit_and, bit_xor}
use theos.Crabfs.Endian.{Buffer, put_le32, apply, le_u32, to_le_bytes}
use theos.Crabfs.Endian.Words.{from_le_bytes-to_le_bytes, bytes_at-take}

abbrev pub xfs_crc_seed : ℕ
xfs_crc_seed = 0xffffffff

-- `!crc`
abbrev pub complement : ℕ → ℕ
complement crc = 0xffffffff - crc

-- `(crc & 1).wrapping_neg()`
abbrev pub mask : ℕ → ℕ
mask crc = (4294967296 - crc % 2) % 4294967296

abbrev pub crc_bits : ℕ → ℕ → ℕ
crc_bits zero crc = crc
crc_bits (suc i) crc = crc_bits i (bit_xor (crc / 2) (bit_and 0x82f63b78 (mask crc)))

unfoldable pub crc32c : ℕ → List ℕ → ℕ
crc32c crc [] = crc
crc32c crc (byte ∷ rest) = crc32c (crc_bits 8 (bit_xor crc byte)) rest

-- The checksum that both functions compute, with zeros for the four bytes of the field.
unfoldable pub checksum : Buffer → ℕ → Exec ℕ
checksum bytes cksum_offset = slice bytes 0 cksum_offset >>= λ before.
    slice_from bytes (cksum_offset + 4) >>= λ behind.
    done (complement (crc32c (crc32c (crc32c xfs_crc_seed before) (replicate 4 0)) behind))

unfoldable pub verify_xfs_crc : Buffer → ℕ → Exec Bool
verify_xfs_crc bytes cksum_offset =
    if ltb (length bytes) (cksum_offset + 4)
    then done false
    else (checksum bytes cksum_offset >>= λ expected.
        le_u32 bytes cksum_offset >>= λ actual. done (expected == actual))

unfoldable pub write_xfs_crc : Buffer → ℕ → Exec Buffer
write_xfs_crc bytes cksum_offset =
    if ltb (length bytes) (cksum_offset + 4)
    then done bytes
    else (apply (put_le32 cksum_offset 0) bytes >>= λ zeroed.
        checksum zeroed cksum_offset >>= λ crc. apply (put_le32 cksum_offset crc) zeroed)

abbrev sum : Buffer → ℕ → ℕ
sum bytes off =
    complement (
      crc32c (crc32c (crc32c xfs_crc_seed (take off bytes)) (replicate 4 0)) (drop (off + 4) bytes))

module _ (bytes : Buffer) (off : ℕ) (h : off + 4 ≤ length bytes) where
  pub apply-put_le32 :
      (v : ℕ) → apply (put_le32 off v) bytes ≡ done (overwrite bytes off (to_le_bytes 4 v))
  unfolding apply
  apply-put_le32 v = rw (le→leb (off + 4) (length bytes) h) refl

  checksum_lem : checksum bytes off ≡ done (sum bytes off)
  unfolding checksum
  checksum_lem =
      rw (le→leb (0 + off) (length bytes) (omega arith), le→leb (off + 4) (length bytes) h) refl

  le_u32-overwrite :
      (v : ℕ) → v < 4294967296 → le_u32 (overwrite bytes off (to_le_bytes 4 v)) off ≡ done v
  unfolding le_u32
  le_u32-overwrite v b =
      rw
        (
          bytes_at-take (overwrite bytes off (to_le_bytes 4 v)) off 4
              (omega (arith, length-overwrite bytes off (to_le_bytes 4 v))),
          slice-overwrite_self bytes off (to_le_bytes 4 v) h,
        )
        (ap done (from_le_bytes-to_le_bytes 4 v b))

-- The sum is a 32-bit number.
sum_bound : (bytes : Buffer) (off : ℕ) → sum bytes off < 4294967296
sum_bound bytes off = omega arith

module _ (bytes : Buffer) (off : ℕ) (h : off + 4 ≤ length bytes) (v : ℕ) where
  abbrev changed : Buffer
  changed = overwrite bytes off (to_le_bytes 4 v)

  changed_room : off + 4 ≤ length changed
  changed_room = omega (arith, length-overwrite bytes off (to_le_bytes 4 v))

  before_kept : take off changed ≡ take off bytes
  before_kept = slice-overwrite_before bytes off (to_le_bytes 4 v) 0 off (omega arith)

  behind_kept : drop (off + 4) changed ≡ drop (off + 4) bytes
  behind_kept = drop-overwrite_after bytes off (to_le_bytes 4 v) (off + 4) (omega arith)

  -- The field does not count.
  sum-overwrite : sum changed off ≡ sum bytes off
  sum-overwrite =
      ap₂ (λ x y. complement (crc32c (crc32c (crc32c xfs_crc_seed x) (replicate 4 0)) y))
        before_kept behind_kept

-- Against the field as it stands.
verify_xfs_crc_lem :
    (bytes : Buffer) (off v : ℕ)
    → off + 4 ≤ length bytes
    → le_u32 bytes off ≡ done v
    → verify_xfs_crc bytes off ≡ done (sum bytes off == v)
unfolding verify_xfs_crc
verify_xfs_crc_lem bytes off v h e =
    rw (le→not-ltb (length bytes) (off + 4) h, checksum_lem bytes off h, e) refl

verify-overwrite :
    (bytes : Buffer) (off : ℕ)
    → off + 4 ≤ length bytes
    → verify_xfs_crc (overwrite bytes off (to_le_bytes 4 (sum bytes off))) off ≡ done true
verify-overwrite bytes off h =
    verify_xfs_crc_lem (changed bytes off h (sum bytes off)) off (sum bytes off)
      (changed_room bytes off h (sum bytes off))
      (le_u32-overwrite bytes off h (sum bytes off) (sum_bound bytes off))
    ∙ ap done ((==_iff _ _).1 (sum-overwrite bytes off h (sum bytes off)))

-- What `write_xfs_crc` returns: only the field differs, and the block verifies.
pub record Sealed (bytes : Buffer) (off : ℕ) : Type 0 where
  pub result : Buffer
  pub written : write_xfs_crc bytes off ≡ done result
  pub same_length : length result ≡ length bytes
  pub same_before : take off result ≡ take off bytes
  pub same_behind : drop (off + 4) result ≡ drop (off + 4) bytes
  pub verifies : verify_xfs_crc result off ≡ done true

-- A block with room for the field at `off`: `write_xfs_crc` does not panic, it changes no byte but
-- the field's four, and `verify_xfs_crc` accepts the block that it leaves.
pub write_xfs_crc-Sealed : (bytes : Buffer) (off : ℕ) → off + 4 ≤ length bytes → Sealed bytes off
unfolding write_xfs_crc
write_xfs_crc-Sealed bytes off h = record {
  result = sealed;
  written = written;
  same_length = length-overwrite zeroed off _ ∙ length-overwrite bytes off (to_le_bytes 4 0);
  same_before = before_kept zeroed off zeroed_room (sum zeroed off) ∙ before_kept bytes off h 0;
  same_behind = behind_kept zeroed off zeroed_room (sum zeroed off) ∙ behind_kept bytes off h 0;
  verifies = verify-overwrite zeroed off zeroed_room;
}
  where
    zeroed : Buffer
    zeroed = overwrite bytes off (to_le_bytes 4 0)

    zeroed_room : off + 4 ≤ length zeroed
    zeroed_room = changed_room bytes off h 0

    sealed : Buffer
    sealed = overwrite zeroed off (to_le_bytes 4 (sum zeroed off))

    written : write_xfs_crc bytes off ≡ done sealed
    written =
        rw
          (
            le→not-ltb (length bytes) (off + 4) h,
            apply-put_le32 bytes off h 0,
            checksum_lem zeroed off zeroed_room,
          )
          (apply-put_le32 zeroed off zeroed_room (sum zeroed off))
