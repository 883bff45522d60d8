-- ===== src/Base/Int.antt =====
-- Signed numbers of a width: `as i32`, `as u32` and their like, in two's complement. The half `h` is
-- 2 to the width less one.
use theos.Base.{ℕ, ◌-◌, ◌*◌, ◌<◌, ◌≡◌, refl, ap, arith, ltb, lt→ltb, le→not-ltb, if◌then◌else◌}

pub data ℤ : Type 0 where
  pos : ℕ → ℤ
  negsuc : ℕ → ℤ

abbrev pub as_signed : ℕ → ℕ → ℤ
as_signed h n = if ltb n h then pos n else negsuc (2 * h - 1 - n)

abbrev pub as_unsigned : ℕ → ℤ → ℕ
as_unsigned h (pos n) = n
as_unsigned h (negsuc n) = 2 * h - 1 - n

-- The numbers of the width.
abbrev pub IsSigned : ℕ → ℤ → Type 0
IsSigned h (pos n) = n < h
IsSigned h (negsuc n) = n < h

pub as_unsigned_bound : (h : ℕ) (z : ℤ) → IsSigned h z → as_unsigned h z < 2 * h
as_unsigned_bound h (pos n) v = omega arith
as_unsigned_bound h (negsuc n) v = omega arith

pub as_signed-as_unsigned : (h : ℕ) (z : ℤ) → IsSigned h z → as_signed h (as_unsigned h z) ≡ z
as_signed-as_unsigned h (pos n) v = rw (lt→ltb n h v) refl
as_signed-as_unsigned h (negsuc n) v =
    rw (le→not-ltb (2 * h - 1 - n) h (omega arith)) (ap negsuc (omega arith))
