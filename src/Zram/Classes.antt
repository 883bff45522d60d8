-- ===== src/Zram/Classes.antt =====
-- The size classes of kernel/zram.rs: `size_class_index` and the size of a new page.
use theos.Base.{ℕ, zero, suc, ◌+◌, ◌*◌, ◌≤◌, ◌<◌, ◌≡◌, refl, ◌⊎◌, inl, inr, arith}
use theos.Base.{List, [], ◌∷◌, none, some, get_elem?, Bool-cases, leb, leb→le}
use theos.Zram.Types.{page_size, size_classes, size_class_index, pages_per_zspage, position_ge}

-- Every member of the list is below the bound.
abbrev AllBelow : ℕ → List ℕ → Type 0
AllBelow n [] = Unit {0}
AllBelow n (c ∷ cs) = (c < n) × AllBelow n cs

-- `i` is the first index at which the list has a member of at least `n`, and `c` is that member.
pub record IsFirst (n : ℕ) (cs : List ℕ) (i c : ℕ) : Type 0 where
  pub at : get_elem? cs i ≡ some c
  pub fits : n ≤ c
  pub least : (j d : ℕ) → j < i → get_elem? cs j ≡ some d → d < n

position_ge_cases :
    (n : ℕ) (cs : List ℕ)
    → ((position_ge n cs ≡ none) × AllBelow n cs)
      ⊎ ((i : ℕ) × (c : ℕ) × (position_ge n cs ≡ some i) × IsFirst n cs i c)
position_ge_cases n [] = inl (refl, tt)
position_ge_cases n (c ∷ cs) = elim (Bool-cases (leb n c)) [
  | inl here ↦ inr (
    0,
    c,
    rw here,
    record { at = refl; fits = leb→le n c here; least = λ j d h e. absurd (omega arith) },
  )
  | inr no_fit ↦ elim (position_ge_cases n cs) [
    | inl (e, below) ↦ inl (rw (no_fit, e), (ground arith, below))
    | inr (i, d, e, r) ↦ inr (
      i + 1,
      d,
      rw (no_fit, e),
      record { at = ground (arith, r.at); fits = r.fits; least = later i (ground arith) r.least },
    )
  ]
]
  where
    later :
        (i : ℕ)
        → c < n
        → ((j d : ℕ) → j < i → get_elem? cs j ≡ some d → d < n)
        → (j d : ℕ) → j < i + 1
        → get_elem? (c ∷ cs) j ≡ some d
        → d < n
    later i lt ih zero d h e = ground arith
    later i lt ih (suc j) d h e = ih j d (omega arith) e

abbrev AllSmall : List ℕ → Type 0
AllSmall [] = Unit {0}
AllSmall (c ∷ cs) = (0 < c) × (c ≤ page_size) × AllSmall cs

AllSmall-get :
    (cs : List ℕ) (i c : ℕ) → AllSmall cs → get_elem? cs i ≡ some c → (0 < c) × (c ≤ page_size)
AllSmall-get [] i c h e = cc
AllSmall-get (d ∷ cs) zero c h e = ground arith
AllSmall-get (d ∷ cs) (suc i) c h e = AllSmall-get cs i c h.2 e

-- Every class size is positive and at most a page.
pub class_bounds : (i c : ℕ) → get_elem? size_classes i ≡ some c → (0 < c) × (c ≤ page_size)
class_bounds i c e = AllSmall-get size_classes i c (omega arith) e

-- A new page of a class has room for a slot.
pub class_room : (c : ℕ) → c ≤ page_size → c ≤ page_size * pages_per_zspage c
unfolding pages_per_zspage
class_room c h = ground arith

-- A payload of up to a page has a size class, the first that it fits; a longer one has none.
pub size_class_cases :
    (n : ℕ)
    → ((page_size < n) × (size_class_index n ≡ none))
      ⊎ ((n ≤ page_size)
          × (i : ℕ) × (c : ℕ) × (size_class_index n ≡ some i)
          × IsFirst n size_classes i c)
unfolding size_class_index
size_class_cases n = elim (position_ge_cases n size_classes) [
  | inl (e, below) ↦ inl (omega arith, e)
  | inr (i, c, e, r) ↦ inr (omega (arith, r.fits, class_bounds i c r.at), i, c, e, r)
]
