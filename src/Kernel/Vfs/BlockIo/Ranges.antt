-- ===== src/Kernel/Vfs/BlockIo/Ranges.antt =====
-- Reads and writes of kernel/vfs.rs over the firmware's blocks, against the bytes of the disk.
use theos.Base.{ℕ, ◌+◌, ◌-◌, ◌*◌, ◌/◌, ◌%◌, ◌≤◌, ◌<◌, ◌≡◌, ap, ◌∙◌, arith}
use native.Mathlib.Nat.{div-add-mod', lt-div-mul-add, mul-sub, mul_comm}
use theos.Kernel.Vfs.BlockIo.{div_ceil, buffer_len}

div_ceil_bound : (n b : ℕ) → 0 < b → n ≤ div_ceil n b * b
div_ceil_bound n b pos =
    let h = lt-div-mul-add {a = n + (b - 1)} {b = b} pos in omega (arith, h, pos)

buffer_len_bound : (n : ℕ) → n ≤ buffer_len n
buffer_len_bound n = omega arith

sub-mul : (k m n : ℕ) → (m - n) * k ≡ m * k - n * k
sub-mul k m n =
    mul_comm (m - n) k
    ∙ mul-sub k m n
    ∙ (ap (λ x. x - k * n) (mul_comm k m) ∙ ap (λ x. m * k - x) (mul_comm k n))

-- The range stands in the blocks that are read, and they fill the buffer in part.
inside_blocks :
    (offset len b : ℕ) → 0 < b → offset % b + len ≤ (div_ceil (offset + len) b - offset / b) * b
inside_blocks offset len b pos = omega (
  arith,
  sub-mul b (div_ceil (offset + len) b) (offset / b),
  div_ceil_bound (offset + len) b pos,
  div-add-mod' offset b,
)

pub inside_buffer :
    (offset len b : ℕ)
    → 0 < b
    → offset % b + len ≤ buffer_len ((div_ceil (offset + len) b - offset / b) * b)
inside_buffer offset len b pos = omega (
  arith,
  inside_blocks offset len b pos,
  buffer_len_bound ((div_ceil (offset + len) b - offset / b) * b),
)
