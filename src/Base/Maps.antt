-- ===== src/Base/Maps.antt =====
-- `BTreeMap` with number keys: an association list in key order. `insert` replaces the value under
-- an equal key, and `remove` drops the key.
use Prim.Native.Nat.{ℕ}
use mathlib.Core.Path.{◌≡◌, refl, ◌∙◌}
use mathlib.Core.Logic.{◌≢◌}
use mathlib.Core.List.{List, [], ◌∷◌}
use mathlib.Core.Option.{Option, none, some}
use native.Mathlib.Omega.{arith}
use theos.Base.Tests.{ltb, ◌==◌, if◌then◌else◌}

abbrev pub Map {ℓ} : Type ℓ → Type ℓ
Map V = List (ℕ × V)

module _ {ℓ} {V : Type ℓ} where
  unfoldable pub get : Map V → ℕ → Option V
  get [] k = none
  get ((j, v) ∷ m) k = if j == k then some v else get m k

  unfoldable pub insert : Map V → ℕ → V → Map V
  insert [] k v = (k, v) ∷ []
  insert ((j, w) ∷ m) k v =
      if ltb k j
      then (k, v) ∷ (j, w) ∷ m
      else (if j == k then (k, v) ∷ m else (j, w) ∷ insert m k v)

  unfoldable pub remove : Map V → ℕ → Map V
  remove [] k = []
  remove ((j, w) ∷ m) k = if j == k then remove m k else (j, w) ∷ remove m k

  pub get-insert :
      (m : Map V) (k : ℕ) (v : V) (j : ℕ)
      → get (insert m k v) j ≡ (if k == j then some v else get m j)
  unfolding get insert
  get-insert [] k v j = refl
  get-insert ((i, w) ∷ m) k v j = ground (arith, get-insert m k v j)

  pub get-insert_self : (m : Map V) (k : ℕ) (v : V) → get (insert m k v) k ≡ some v
  get-insert_self m k v = get-insert m k v k ∙ ground arith

  pub get-insert_other :
      (m : Map V) (k : ℕ) (v : V) (j : ℕ) → k ≢ j → get (insert m k v) j ≡ get m j
  get-insert_other m k v j apart = get-insert m k v j ∙ ground arith

  pub get-remove : (m : Map V) (k j : ℕ) → get (remove m k) j ≡ (if k == j then none else get m j)
  unfolding get remove
  get-remove [] k j = ground arith
  get-remove ((i, w) ∷ m) k j = ground (arith, get-remove m k j)
