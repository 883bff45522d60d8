-- ===== src/Base/Run.antt =====
-- Runs that may panic, and Rust's `Result` with the `?` operator.
use mathlib.Core.Logic.{◌⊎◌, inl, inr}
use mathlib.Core.Path.{◌≡◌, refl}
use Prim.Native.Nat.{ℕ, ◌+◌}
use mathlib.Core.List.{List}
use mathlib.Core.Option.{Option, none, some}
use theos.Base.Tests.{leb, if◌then◌else◌}
use theos.Base.Lists.{length, get_elem?, set, take, drop, overwrite}

-- A call that comes back, or a panic: an index or a range out of bounds.
pub data Exec {ℓ} (A : Type ℓ) : Type ℓ where
  done : A → Exec A
  panic : Exec A

infixl 5 ◌>>=◌ ◌>>◌
abbrev pub ◌>>=◌ {ℓ κ} : {A : Type ℓ} {B : Type κ} → Exec A → (A → Exec B) → Exec B
done a >>= f = f a
panic >>= f = panic

abbrev pub ◌>>◌ {ℓ} : {B : Type ℓ} → Exec (Unit {0}) → Exec B → Exec B
m >> k = m >>= λ _. k

pub data Result {ℓ κ} (E : Type ℓ) (A : Type κ) : Type (ℓ ⊔ κ) where
  ok : A → Result E A
  err : E → Result E A

-- `r?` in a function with `&mut self`: an error returns with the state `s` as it stands.
abbrev pub try {ℓ κ μ ν} :
    {E : Type ℓ} {A : Type κ} {S : Type μ} {B : Type ν}
    → Result E A
    → S
    → (A → Exec (Result E B × S))
    → Exec (Result E B × S)
try (ok a) s k = k a
try (err e) s k = done (err e, s)

-- `r?` in a function that changes nothing.
abbrev pub and_then {ℓ κ ν} :
    {E : Type ℓ} {A : Type κ} {B : Type ν}
    → Result E A
    → (A → Exec (Result E B))
    → Exec (Result E B)
and_then (ok a) k = k a
and_then (err e) k = done (err e)

-- `f(...)?` in a function that changes nothing.
infixl 5 ◌>>?◌
abbrev pub ◌>>?◌ {ℓ κ ν} :
    {E : Type ℓ} {A : Type κ} {B : Type ν}
    → Exec (Result E A)
    → (A → Exec (Result E B))
    → Exec (Result E B)
m >>? k = m >>= λ r. and_then r k

-- `r?` in a function that only computes.
abbrev pub ok_then {ℓ κ ν} :
    {E : Type ℓ} {A : Type κ} {B : Type ν} → Result E A → (A → Result E B) → Result E B
ok_then (ok a) k = k a
ok_then (err e) k = err e

abbrev pub ok_or {ℓ κ} : {E : Type ℓ} {A : Type κ} → Option A → E → Result E A
ok_or none e = err e
ok_or (some a) e = ok a

module _ {ℓ} {A : Type ℓ} where
  -- `xs[i]`
  abbrev pub index : List A → ℕ → Exec A
  index xs i = elim (get_elem? xs i) [ none ↦ panic | some a ↦ done a ]

  -- `xs[i] = v`
  abbrev pub assign : List A → ℕ → A → Exec (List A)
  assign xs i v = elim (get_elem? xs i) [ none ↦ panic | some _ ↦ done (set xs i v) ]

  -- `xs[off..off + len]`
  abbrev pub slice : List A → ℕ → ℕ → Exec (List A)
  slice xs off len = if leb (off + len) (length xs) then done (take len (drop off xs)) else panic

  -- `xs[off..]`
  abbrev pub slice_from : List A → ℕ → Exec (List A)
  slice_from xs off = if leb off (length xs) then done (drop off xs) else panic

  -- `xs[off..off + bs.len()].copy_from_slice(bs)`
  abbrev pub write : List A → ℕ → List A → Exec (List A)
  write xs off bs = if leb (off + length bs) (length xs) then done (overwrite xs off bs) else panic

-- `r?` in a function with `&mut self` that does not panic.
abbrev pub attempt {ℓ κ μ ν} :
    {E : Type ℓ} {A : Type κ} {S : Type μ} {B : Type ν}
    → Result E A
    → S
    → (A → Result E B × S)
    → Result E B × S
attempt (ok a) s k = k a
attempt (err e) s k = (err e, s)

abbrev pub map_err {ℓ κ ν} :
    {E : Type ℓ} {F : Type κ} {A : Type ν} → (E → F) → Result E A → Result F A
map_err f (ok a) = ok a
map_err f (err e) = err (f e)

pub result_cases :
    {E A : Type 0} (r : Result E A) → ((a : A) × (r ≡ ok a)) ⊎ ((e : E) × (r ≡ err e))
result_cases (ok a) = inl (a, refl)
result_cases (err e) = inr (e, refl)

pub done_injective {ℓ} : {A : Type ℓ} (a b : A) → done a ≡ done b → a ≡ b
done_injective a b e = cc
