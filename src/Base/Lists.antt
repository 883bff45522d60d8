-- ===== src/Base/Lists.antt =====
-- Vectors and slices as lists, measured and indexed by native numbers.
use Prim.Native.Nat.{ℕ, zero, suc, ◌+◌, ◌-◌, ◌≤◌, ◌<◌, min}
use mathlib.Core.Path.{◌≡◌, refl, ap, sym, ◌∙◌}
use mathlib.Core.Logic.{◌≢◌, ◌⊎◌, inl, inr}
use mathlib.Core.List.{List, [], ◌∷◌, ◌++◌}
use mathlib.Core.Option.{Option, none, some}
use native.Mathlib.Omega.{arith}

module _ {ℓ} {A : Type ℓ} where
  abbrev pub length : List A → ℕ
  length [] = 0
  length (x ∷ xs) = suc (length xs)

  abbrev pub get_elem? : List A → ℕ → Option A
  get_elem? [] i = none
  get_elem? (x ∷ xs) zero = some x
  get_elem? (x ∷ xs) (suc i) = get_elem? xs i

  abbrev pub set : List A → ℕ → A → List A
  set [] i v = []
  set (x ∷ xs) zero v = v ∷ xs
  set (x ∷ xs) (suc i) v = x ∷ set xs i v

  abbrev pub take : ℕ → List A → List A
  take zero xs = []
  take (suc n) [] = []
  take (suc n) (x ∷ xs) = x ∷ take n xs

  abbrev pub drop : ℕ → List A → List A
  drop zero xs = xs
  drop (suc n) [] = []
  drop (suc n) (x ∷ xs) = drop n xs

  abbrev pub replicate : ℕ → A → List A
  replicate zero a = []
  replicate (suc n) a = a ∷ replicate n a

  -- `xs[off..off + bs.len()].copy_from_slice(bs)`, for a range inside `xs`.
  abbrev pub overwrite : List A → ℕ → List A → List A
  overwrite [] off bs = []
  overwrite (x ∷ xs) zero [] = x ∷ xs
  overwrite (x ∷ xs) zero (b ∷ bs) = b ∷ overwrite xs zero bs
  overwrite (x ∷ xs) (suc off) bs = x ∷ overwrite xs off bs

module _ {ℓ} {A : Type ℓ} where
  pub length-append : (xs ys : List A) → length (xs ++ ys) ≡ length xs + length ys
  length-append [] ys = omega arith
  length-append (x ∷ xs) ys = omega (arith, length-append xs ys)

  pub length-set : (xs : List A) (i : ℕ) (v : A) → length (set xs i v) ≡ length xs
  length-set [] i v = refl
  length-set (x ∷ xs) zero v = refl
  length-set (x ∷ xs) (suc i) v = ap suc (length-set xs i v)

  pub get_elem?-set_self :
      (xs : List A) (i : ℕ) (v : A) → i < length xs → get_elem? (set xs i v) i ≡ some v
  get_elem?-set_self [] i v h = absurd (omega arith)
  get_elem?-set_self (x ∷ xs) zero v h = refl
  get_elem?-set_self (x ∷ xs) (suc i) v h = get_elem?-set_self xs i v (omega arith)

  pub get_elem?-set_ne :
      (xs : List A) (i j : ℕ) (v : A) → i ≢ j → get_elem? (set xs i v) j ≡ get_elem? xs j
  get_elem?-set_ne [] i j v h = refl
  get_elem?-set_ne (x ∷ xs) zero zero v h = absurd (h refl)
  get_elem?-set_ne (x ∷ xs) zero (suc j) v h = refl
  get_elem?-set_ne (x ∷ xs) (suc i) zero v h = refl
  get_elem?-set_ne (x ∷ xs) (suc i) (suc j) v h = get_elem?-set_ne xs i j v (λ e. h (ap suc e))

  pub get_elem?-some_bound :
      (xs : List A) (i : ℕ) → i < length xs → (a : A) × (get_elem? xs i ≡ some a)
  get_elem?-some_bound [] i h = absurd (omega arith)
  get_elem?-some_bound (x ∷ xs) zero h = (x, refl)
  get_elem?-some_bound (x ∷ xs) (suc i) h = get_elem?-some_bound xs i (omega arith)

  pub get_elem?_bound : (xs : List A) (i : ℕ) {a : A} → get_elem? xs i ≡ some a → i < length xs
  get_elem?_bound [] i h = cc
  get_elem?_bound (x ∷ xs) zero h = omega arith
  get_elem?_bound (x ∷ xs) (suc i) h = omega (arith, get_elem?_bound xs i h)

  pub get_elem?_past : (xs : List A) (i : ℕ) → length xs ≤ i → get_elem? xs i ≡ none
  get_elem?_past [] i h = refl
  get_elem?_past (x ∷ xs) zero h = absurd (omega arith)
  get_elem?_past (x ∷ xs) (suc i) h = get_elem?_past xs i (omega arith)

  pub length-take : (n : ℕ) (xs : List A) → length (take n xs) ≡ min n (length xs)
  length-take zero xs = omega arith
  length-take (suc n) [] = omega arith
  length-take (suc n) (x ∷ xs) = omega (arith, length-take n xs)

  pub length-drop : (n : ℕ) (xs : List A) → length (drop n xs) ≡ length xs - n
  length-drop zero xs = omega arith
  length-drop (suc n) [] = omega arith
  length-drop (suc n) (x ∷ xs) = omega (arith, length-drop n xs)

  drop-nil : (n : ℕ) → drop {A = A} n [] ≡ []
  drop-nil zero = refl
  drop-nil (suc n) = refl

  pub drop-drop : (m n : ℕ) (xs : List A) → drop (m + n) xs ≡ drop n (drop m xs)
  drop-drop zero n xs = ap (λ k. drop k xs) (plus_zero n)
    where
      plus_zero : (n : ℕ) → 0 + n ≡ n
      plus_zero n = omega arith
  drop-drop (suc m) n [] = drop-nil (suc m + n) ∙ sym (drop-nil n)
  drop-drop (suc m) n (x ∷ xs) = ap (λ k. drop k (x ∷ xs)) (plus_suc m n) ∙ drop-drop m n xs
    where
      plus_suc : (m n : ℕ) → suc m + n ≡ suc (m + n)
      plus_suc m n = omega arith

  pub take-append : (xs ys : List A) → take (length xs) (xs ++ ys) ≡ xs
  take-append [] ys = refl
  take-append (x ∷ xs) ys = ap (◌∷◌ x) (take-append xs ys)

  pub drop-append : (xs ys : List A) → drop (length xs) (xs ++ ys) ≡ ys
  drop-append [] ys = refl
  drop-append (x ∷ xs) ys = drop-append xs ys

  pub append_assoc : (xs ys zs : List A) → (xs ++ ys) ++ zs ≡ xs ++ (ys ++ zs)
  append_assoc [] ys zs = refl
  append_assoc (x ∷ xs) ys zs = ap (◌∷◌ x) (append_assoc xs ys zs)

  pub append_nil : (xs : List A) → xs ++ [] ≡ xs
  append_nil [] = refl
  append_nil (x ∷ xs) = ap (◌∷◌ x) (append_nil xs)

  pub length-replicate : (n : ℕ) (a : A) → length (replicate n a) ≡ n
  length-replicate zero a = refl
  length-replicate (suc n) a = ap suc (length-replicate n a)

  pub get_elem?-replicate : (n : ℕ) (a : A) (i : ℕ) → i < n → get_elem? (replicate n a) i ≡ some a
  get_elem?-replicate zero a i h = absurd (omega arith)
  get_elem?-replicate (suc n) a zero h = refl
  get_elem?-replicate (suc n) a (suc i) h = get_elem?-replicate n a i (omega arith)

  pub get_elem?-append_left :
      (xs ys : List A) (i : ℕ) → i < length xs → get_elem? (xs ++ ys) i ≡ get_elem? xs i
  get_elem?-append_left [] ys i h = absurd (omega arith)
  get_elem?-append_left (x ∷ xs) ys zero h = refl
  get_elem?-append_left (x ∷ xs) ys (suc i) h = get_elem?-append_left xs ys i (omega arith)

  pub get_elem?-append_end : (xs : List A) (y : A) → get_elem? (xs ++ y ∷ []) (length xs) ≡ some y
  get_elem?-append_end [] y = refl
  get_elem?-append_end (x ∷ xs) y = get_elem?-append_end xs y

  pub length-overwrite :
      (xs : List A) (off : ℕ) (bs : List A) → length (overwrite xs off bs) ≡ length xs
  length-overwrite [] off bs = refl
  length-overwrite (x ∷ xs) zero [] = refl
  length-overwrite (x ∷ xs) zero (b ∷ bs) = ap suc (length-overwrite xs zero bs)
  length-overwrite (x ∷ xs) (suc off) bs = ap suc (length-overwrite xs off bs)

  -- What was written is read back.
  pub slice-overwrite_self :
      (xs : List A) (off : ℕ) (bs : List A)
      → off + length bs ≤ length xs
      → take (length bs) (drop off (overwrite xs off bs)) ≡ bs
  slice-overwrite_self [] zero [] h = refl
  slice-overwrite_self [] zero (b ∷ bs) h = absurd (omega arith)
  slice-overwrite_self [] (suc off) bs h = absurd (omega arith)
  slice-overwrite_self (x ∷ xs) zero [] h = refl
  slice-overwrite_self (x ∷ xs) zero (b ∷ bs) h =
      ap (◌∷◌ b) (slice-overwrite_self xs zero bs (omega arith))
  slice-overwrite_self (x ∷ xs) (suc off) bs h = slice-overwrite_self xs off bs (omega arith)

  -- A range that ends before the written one is as it was.
  pub slice-overwrite_before :
      (xs : List A) (off : ℕ) (bs : List A) (o l : ℕ)
      → o + l ≤ off
      → take l (drop o (overwrite xs off bs)) ≡ take l (drop o xs)
  slice-overwrite_before [] off bs o l h = refl
  slice-overwrite_before (x ∷ xs) zero bs zero zero h = refl
  slice-overwrite_before (x ∷ xs) zero bs zero (suc l) h = absurd (omega arith)
  slice-overwrite_before (x ∷ xs) zero bs (suc o) l h = absurd (omega arith)
  slice-overwrite_before (x ∷ xs) (suc off) bs zero zero h = refl
  slice-overwrite_before (x ∷ xs) (suc off) bs zero (suc l) h =
      ap (◌∷◌ x) (slice-overwrite_before xs off bs zero l (omega arith))
  slice-overwrite_before (x ∷ xs) (suc off) bs (suc o) l h =
      slice-overwrite_before xs off bs o l (omega arith)

  -- So is all that comes behind it.
  pub drop-overwrite_after :
      (xs : List A) (off : ℕ) (bs : List A) (o : ℕ)
      → off + length bs ≤ o
      → drop o (overwrite xs off bs) ≡ drop o xs
  drop-overwrite_after [] off bs o h = refl
  drop-overwrite_after (x ∷ xs) zero [] o h = refl
  drop-overwrite_after (x ∷ xs) zero (b ∷ bs) zero h = absurd (omega arith)
  drop-overwrite_after (x ∷ xs) zero (b ∷ bs) (suc o) h =
      drop-overwrite_after xs zero bs o (omega arith)
  drop-overwrite_after (x ∷ xs) (suc off) bs zero h = absurd (omega arith)
  drop-overwrite_after (x ∷ xs) (suc off) bs (suc o) h =
      drop-overwrite_after xs off bs o (omega arith)

module _ {ℓ} {A : Type ℓ} where
  -- What stands in a vector after a write.
  pub get_elem?-set_cases :
      (xs : List A) (i j : ℕ) (v : A) {a : A}
      → get_elem? (set xs i v) j ≡ some a
      → ((i ≡ j) × (a ≡ v)) ⊎ ((i ≢ j) × (get_elem? xs j ≡ some a))
  get_elem?-set_cases [] i j v e = cc
  get_elem?-set_cases (x ∷ xs) zero zero v e = inl (refl, cc)
  get_elem?-set_cases (x ∷ xs) zero (suc j) v e = inr (omega arith, e)
  get_elem?-set_cases (x ∷ xs) (suc i) zero v e = inr (omega arith, e)
  get_elem?-set_cases (x ∷ xs) (suc i) (suc j) v e = elim (get_elem?-set_cases xs i j v e) [
    | inl (same, w) ↦ inl (ap suc same, w)
    | inr (apart, w) ↦ inr (omega (arith, apart), w)
  ]

  -- Writing what is there already.
  pub set-same : (xs : List A) (i : ℕ) {v : A} → get_elem? xs i ≡ some v → set xs i v ≡ xs
  set-same [] i e = refl
  set-same (x ∷ xs) zero e = cc
  set-same (x ∷ xs) (suc i) e = ap (◌∷◌ x) (set-same xs i e)
