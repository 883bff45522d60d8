-- ===== src/Base/Ranges.antt =====
-- Ranges of a vector that lie in other ranges of it.
use mathlib.Core.Path.{◌≡◌, refl, sym, ap, ◌∙◌}
use Prim.Native.Nat.{ℕ, zero, suc, ◌+◌, ◌≤◌}
use mathlib.Core.List.{List, [], ◌∷◌}
use theos.Base.Lists.{length, take, drop, overwrite, drop-drop}
use native.Mathlib.Omega.{arith}

module _ {ℓ} {A : Type ℓ} where
  take-drop-take :
      (r l n : ℕ) (xs : List A) → r + l ≤ n → take l (drop r (take n xs)) ≡ take l (drop r xs)
  take-drop-take zero zero n xs h = refl
  take-drop-take zero (suc l) zero xs h = absurd (omega arith)
  take-drop-take zero (suc l) (suc n) [] h = refl
  take-drop-take zero (suc l) (suc n) (x ∷ xs) h =
      ap (◌∷◌ x) (take-drop-take zero l n xs (omega arith))
  take-drop-take (suc r) l zero xs h = absurd (omega arith)
  take-drop-take (suc r) l (suc n) [] h = refl
  take-drop-take (suc r) l (suc n) (x ∷ xs) h = take-drop-take r l n xs (omega arith)

  -- A range of a range.
  pub take-drop_inner :
      (o r l n : ℕ) (xs : List A)
      → r + l ≤ n
      → take l (drop r (take n (drop o xs))) ≡ take l (drop (o + r) xs)
  take-drop_inner o r l n xs h =
      take-drop-take r l n (drop o xs) h ∙ ap (take l) (sym (drop-drop o r xs))

  overwrite-take : (n : ℕ) (xs : List A) → overwrite xs 0 (take n xs) ≡ xs
  overwrite-take n [] = refl
  overwrite-take zero (x ∷ xs) = refl
  overwrite-take (suc n) (x ∷ xs) = ap (◌∷◌ x) (overwrite-take n xs)

  overwrite_front :
      (r n : ℕ) (xs bs : List A)
      → r + length bs ≤ n
      → overwrite xs 0 (overwrite (take n xs) r bs) ≡ overwrite xs r bs
  overwrite_front r n [] bs h = refl
  overwrite_front zero n (x ∷ xs) [] h =
      ap (overwrite (x ∷ xs) 0) (unchanged (take n (x ∷ xs))) ∙ overwrite-take n (x ∷ xs)
    where
      unchanged : (ys : List A) → overwrite ys 0 [] ≡ ys
      unchanged [] = refl
      unchanged (y ∷ ys) = refl
  overwrite_front zero zero (x ∷ xs) (b ∷ bs) h = absurd (omega arith)
  overwrite_front zero (suc n) (x ∷ xs) (b ∷ bs) h =
      ap (◌∷◌ b) (overwrite_front zero n xs bs (omega arith))
  overwrite_front (suc r) zero (x ∷ xs) bs h = absurd (omega arith)
  overwrite_front (suc r) (suc n) (x ∷ xs) bs h =
      ap (◌∷◌ x) (overwrite_front r n xs bs (omega arith))

  -- A range that is read, changed in part and written back changes that part.
  pub overwrite_inner :
      (o r n : ℕ) (xs bs : List A)
      → r + length bs ≤ n
      → overwrite xs o (overwrite (take n (drop o xs)) r bs) ≡ overwrite xs (r + o) bs
  overwrite_inner zero r n xs bs h =
      overwrite_front r n xs bs h ∙ ap (λ k. overwrite xs k bs) (plus_zero r)
    where
      plus_zero : (k : ℕ) → k ≡ k + 0
      plus_zero k = omega arith
  overwrite_inner (suc o) r n [] bs h = refl
  overwrite_inner (suc o) r n (x ∷ xs) bs h =
      ap (◌∷◌ x) (overwrite_inner o r n xs bs h) ∙ ap (λ k. overwrite (x ∷ xs) k bs) (plus_suc r o)
    where
      plus_suc : (m n : ℕ) → suc (m + n) ≡ m + suc n
      plus_suc m n = omega arith
