-- ===== src/Crabfs/Endian/Total.antt =====
-- Reads inside a buffer come back: what a parser that has checked the length relies on.
use theos.Base.{ℕ, ◌+◌, ◌≤◌, ◌≡◌, refl, sym, subst, true, length, take, drop, arith}
use theos.Base.{
  get_elem?-some_bound, Exec, done, ◌>>=◌, index, slice, leb, leb→le, le→leb, if◌then◌else◌,
}
use theos.Base.{Bool, false}
use theos.Crabfs.Endian.{Buffer, bytes_at, be_u16, be_u32, be_u64, le_u32}
use theos.Crabfs.Endian.Words.{bytes_at-take}

-- A run that comes back.
pub data IsTotal {ℓ} {A : Type ℓ} (m : Exec A) : Type ℓ where
  total : (a : A) → m ≡ done a → IsTotal m

pub done-IsTotal {ℓ} : {A : Type ℓ} (a : A) → IsTotal (done a)
done-IsTotal a = total a refl

pub then-IsTotal {ℓ κ} :
    {A : Type ℓ} {B : Type κ} {m : Exec A} {k : A → Exec B}
    → IsTotal m
    → ((a : A) → IsTotal (k a))
    → IsTotal (m >>= k)
then-IsTotal {k = k} (total a e) f = subst (λ r. IsTotal (r >>= k)) (sym e) (f a)

pub if-IsTotal {ℓ} :
    {A : Type ℓ} (b : Bool) {x y : Exec A} → IsTotal x → IsTotal y → IsTotal (if b then x else y)
if-IsTotal true p q = p
if-IsTotal false p q = q

module _ (bytes : Buffer) {n : ℕ} (h : n ≤ length bytes) where
  bytes_at-IsTotal : (off len : ℕ) → leb (off + len) n ≡ true → IsTotal (bytes_at bytes off len)
  bytes_at-IsTotal off len room =
      total _ (bytes_at-take bytes off len (omega (arith, leb→le (off + len) n room)))

  pub be_u16-IsTotal : (off : ℕ) → leb (off + 2) n ≡ true → IsTotal (be_u16 bytes off)
  unfolding be_u16
  be_u16-IsTotal off room = then-IsTotal (bytes_at-IsTotal off 2 room) λ bs. done-IsTotal _

  pub be_u32-IsTotal : (off : ℕ) → leb (off + 4) n ≡ true → IsTotal (be_u32 bytes off)
  unfolding be_u32
  be_u32-IsTotal off room = then-IsTotal (bytes_at-IsTotal off 4 room) λ bs. done-IsTotal _

  pub be_u64-IsTotal : (off : ℕ) → leb (off + 8) n ≡ true → IsTotal (be_u64 bytes off)
  unfolding be_u64
  be_u64-IsTotal off room = then-IsTotal (bytes_at-IsTotal off 8 room) λ bs. done-IsTotal _

  pub le_u32-IsTotal : (off : ℕ) → leb (off + 4) n ≡ true → IsTotal (le_u32 bytes off)
  unfolding le_u32
  le_u32-IsTotal off room = then-IsTotal (bytes_at-IsTotal off 4 room) λ bs. done-IsTotal _

  pub index-IsTotal : (off : ℕ) → leb (off + 1) n ≡ true → IsTotal (index bytes off)
  index-IsTotal off room =
      let (a, e) = get_elem?-some_bound bytes off (omega (arith, leb→le (off + 1) n room)) in
      total a (rw (e, index) refl)

  pub slice-IsTotal : (off len : ℕ) → leb (off + len) n ≡ true → IsTotal (slice bytes off len)
  slice-IsTotal off len room =
      total (take len (drop off bytes))
        (rw (le→leb (off + len) (length bytes) (omega (arith, leb→le (off + len) n room))) refl)
