-- ===== src/Zram/Page/Valid.antt =====
-- The well-formedness of a `ZsPage`, what it means for a slot to hold bytes, and a new page.
use native.Mathlib.Nat.{div-add-mod}
use theos.Base.{ℕ, zero, suc, ◌+◌, ◌-◌, ◌*◌, ◌/◌, ◌≤◌, ◌<◌, max, ◌≡◌, ◌≢◌, refl, ap}
use theos.Base.{List, [], ◌∷◌, some, arith, length, get_elem?, set, replicate, take, drop}
use theos.Base.{length-replicate, get_elem?-replicate, get_elem?-set_ne}
use theos.Base.{dec_lt, overwrite, slice-overwrite_before, drop-overwrite_after}
use theos.Base.{◌==◌, if◌then◌else◌}
use theos.Zram.Types.{page_size}
use theos.Zram.Page.{ZsPage, range, new}

-- `s` is not on the list.
abbrev pub NotIn : ℕ → List ℕ → Type 0
NotIn s [] = Unit {0}
NotIn s (t ∷ ts) = (s ≢ t) × NotIn s ts

-- Every slot on the list has length 0 and is on it once.
abbrev pub AreFree : List ℕ → List ℕ → Type 0
AreFree lengths [] = Unit {0}
AreFree lengths (s ∷ ss) = (get_elem? lengths s ≡ some 0) × NotIn s ss × AreFree lengths ss

pub record IsValid (p : ZsPage) : Type 0 where
  pub slot_pos : 0 < p.slot_size
  pub paired : length p.slot_generations ≡ length p.slot_lengths
  pub roomy : length p.slot_lengths * p.slot_size ≤ length p.storage
  pub bounded : (s n : ℕ) → get_elem? p.slot_lengths s ≡ some n → n ≤ p.slot_size
  pub frees : AreFree p.slot_lengths p.free_list
  pub counted : p.used_slots + length p.free_list ≡ length p.slot_lengths

-- A range inside slot `s` of `n` slots lies in the first `n` slots, and before the next slot.
pub slot_room : (s n z l : ℕ) → s < n → l ≤ z → s * z + l ≤ n * z
slot_room s n z l h k = grind arith

-- A write to one slot leaves the ranges of the others as they are.
pub slice_other :
    (xs bs : List ℕ) (s t z l : ℕ)
    → s ≢ t
    → length bs ≤ z
    → l ≤ z
    → take l (drop (t * z) (overwrite xs (s * z) bs)) ≡ take l (drop (t * z) xs)
slice_other xs bs s t z l apart h k = elim (dec_lt t s) [
  | yes before ↦ slice-overwrite_before xs (s * z) bs (t * z) l (slot_room t s z l before k)
  | no after ↦ ap (take l) (
      drop-overwrite_after xs (s * z) bs (t * z)
        (slot_room s t z (length bs) (omega (arith, after, apart)) h))
]

-- Slot `s` is in use under generation `g` and its bytes are `b`.
pub record Holds (p : ZsPage) (s g : ℕ) (b : List ℕ) : Type 0 where
  pub current : get_elem? p.slot_generations s ≡ some g
  pub len : get_elem? p.slot_lengths s ≡ some (length b)
  pub filled : 0 < length b
  pub bytes : take (length b) (drop (s * p.slot_size) p.storage) ≡ b

pub NotIn-of_used :
    (lengths : List ℕ) (s n : ℕ) (ss : List ℕ)
    → get_elem? lengths s ≡ some n
    → 0 < n
    → AreFree lengths ss
    → NotIn s ss
NotIn-of_used lengths s n [] e pos f = tt
NotIn-of_used lengths s n (t ∷ ts) e pos f = (
  (λ same. ground (arith, ap (get_elem? lengths) same, f.0)),
  NotIn-of_used lengths s n ts e pos f.2,
)

-- Writing the length of a slot that is not on the list keeps the list free.
pub AreFree-set :
    (lengths : List ℕ) (s n : ℕ) (ss : List ℕ)
    → NotIn s ss
    → AreFree lengths ss
    → AreFree (set lengths s n) ss
AreFree-set lengths s n [] h f = tt
AreFree-set lengths s n (t ∷ ts) h f =
    (rw (get_elem?-set_ne lengths s t n h.0) f.0, f.1, AreFree-set lengths s n ts h.1 f.2)

-- How many lengths are 0.
abbrev zeros : List ℕ → ℕ
zeros [] = 0
zeros (x ∷ xs) = (if x == 0 then 1 else 0) + zeros xs

zeros-set : (xs : List ℕ) (s : ℕ) → get_elem? xs s ≡ some 0 → zeros (set xs s 1) + 1 ≡ zeros xs
zeros-set [] s e = cc
zeros-set (x ∷ xs) zero e = ground arith
zeros-set (x ∷ xs) (suc s) e = omega (arith, zeros-set xs s e)

zeros-le : (xs : List ℕ) → zeros xs ≤ length xs
zeros-le [] = omega arith
zeros-le (x ∷ xs) = ground (arith, zeros-le xs)

zeros-lt : (xs : List ℕ) (s n : ℕ) → get_elem? xs s ≡ some n → 0 < n → zeros xs < length xs
zeros-lt [] s n e pos = cc
zeros-lt (x ∷ xs) zero n e pos = ground (arith, zeros-le xs)
zeros-lt (x ∷ xs) (suc s) n e pos = ground (arith, zeros-lt xs s n)

length-le-zeros : (xs ss : List ℕ) → AreFree xs ss → length ss ≤ zeros xs
length-le-zeros xs [] f = omega arith
length-le-zeros xs (s ∷ ss) f =
    omega
      (arith, length-le-zeros (set xs s 1) ss (AreFree-set xs s 1 ss f.1 f.2), zeros-set xs s f.0)

-- While a slot is in use the count of used slots is not 0.
pub used_pos :
    (p : ZsPage) (s n : ℕ)
    → IsValid p
    → get_elem? p.slot_lengths s ≡ some n
    → 0 < n
    → 0 < p.used_slots
used_pos p s n v e pos = omega (
  arith,
  v.counted,
  length-le-zeros p.slot_lengths p.free_list v.frees,
  zeros-lt p.slot_lengths s n e pos,
)

NotIn-range : (s i n : ℕ) → s < i → NotIn s (range i n)
NotIn-range s i zero h = tt
NotIn-range s i (suc n) h = (omega arith, NotIn-range s (i + 1) n (omega arith))

AreFree-range : (m i n : ℕ) → i + n ≤ m → AreFree (replicate m 0) (range i n)
AreFree-range m i zero h = tt
AreFree-range m i (suc n) h = (
  get_elem?-replicate m 0 i (omega arith),
  NotIn-range i (i + 1) n (omega arith),
  AreFree-range m (i + 1) n (omega arith),
)

length-range : (i n : ℕ) → length (range i n) ≡ n
length-range i zero = refl
length-range i (suc n) = ap suc (length-range (i + 1) n)

replicate_zero : (m s n : ℕ) → get_elem? (replicate m 0) s ≡ some n → n ≡ 0
replicate_zero zero s n e = cc
replicate_zero (suc m) zero n e = ground arith
replicate_zero (suc m) (suc s) n e = replicate_zero m s n e

slots_fit : (bytes size : ℕ) → 0 < size → size ≤ bytes → max (bytes / size) 1 * size ≤ bytes
slots_fit bytes size pos h = grind (arith, div-add-mod bytes size)

-- A page whose slot size fits its buffer starts well formed, with every slot free.
pub new-IsValid : (size pages : ℕ) → 0 < size → size ≤ page_size * pages → IsValid (new size pages)
unfolding new
new-IsValid size pages pos h =
    let slots = max (page_size * pages / size) 1 in
    record {
      slot_pos = pos;
      paired = refl;
      roomy =
          rw (length-replicate {A = ℕ} slots 0, length-replicate {A = ℕ} (page_size * pages) 0)
            (slots_fit (page_size * pages) size pos h);
      bounded = λ s n e. omega (arith, replicate_zero slots s n e);
      frees = AreFree-range slots 0 slots (omega arith);
      counted = rw (length-range, length-replicate) (omega arith);
    }

range_head : (n : ℕ) → 0 < n → range 0 n ≡ 0 ∷ range 1 (n - 1)
range_head zero h = absurd (omega arith)
range_head (suc n) h = ground arith

pub new-free_list : (size pages : ℕ) → (ss : List ℕ) × ((new size pages).free_list ≡ 0 ∷ ss)
unfolding new
new-free_list size pages = (_, range_head (max (page_size * pages / size) 1) (omega arith))
