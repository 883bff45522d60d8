-- ===== src/Kernel/Vfs/Ends.antt =====
-- The ends of pipes in the descriptor table of kernel/vfs.rs, counted.
use theos.Base.{
  ℕ, zero, suc, ◌+◌, ◌≤◌, ◌<◌, ◌≡◌, ◌≢◌, refl, sym, ap, subst, arith, Bool, true, false, ◌==◌,
  if◌then◌else◌, [], ◌∷◌, set, drop, length, Option, none, some,
}
use theos.Kernel.Vfs.{Files, OpenFile, SpecialFd, pipe_read, pipe_write, Pipe, entry, find_none}

-- The reading ends (`true`) or the writing ends of the pipe `id`.
abbrev pub end_at : Bool → ℕ → Option SpecialFd → ℕ
end_at true id (some (pipe_read j)) = if j == id then 1 else 0
end_at false id (some (pipe_write j)) = if j == id then 1 else 0
end_at side id special = 0

abbrev pub ends_of : Bool → ℕ → Option OpenFile → ℕ
ends_of side id none = 0
ends_of side id (some f) = end_at side id f.special

unfoldable pub count : Bool → ℕ → Files → ℕ
count side id [] = 0
count side id (f ∷ fs) = ends_of side id f + count side id fs

-- The ends that a pipe counts itself.
abbrev pub held : Bool → Option Pipe → ℕ
held side none = 0
held true (some p) = p.readers
held false (some p) = p.writers

pub count-set :
    (side : Bool) (id : ℕ) (fs : Files) (i : ℕ) (f : Option OpenFile)
    → i < length fs
    → count side id (set fs i f) + ends_of side id (entry fs i)
      ≡ count side id fs + ends_of side id f
unfolding count
count-set side id [] i f h = absurd (omega arith)
count-set side id (g ∷ fs) zero f h = omega arith
count-set side id (g ∷ fs) (suc i) f h = omega (arith, count-set side id fs i f (omega arith))

pub entry_bound : (fs : Files) (i : ℕ) {f : OpenFile} → entry fs i ≡ some f → i < length fs
entry_bound [] i e = cc
entry_bound (g ∷ fs) zero e = omega arith
entry_bound (g ∷ fs) (suc i) e = omega (arith, entry_bound fs i e)

pub entry-set_ne :
    (fs : Files) (i j : ℕ) (f : Option OpenFile) → i ≢ j → entry (set fs i f) j ≡ entry fs j
entry-set_ne [] i j f h = refl
entry-set_ne (g ∷ fs) zero zero f h = absurd (h refl)
entry-set_ne (g ∷ fs) zero (suc j) f h = refl
entry-set_ne (g ∷ fs) (suc i) zero f h = refl
entry-set_ne (g ∷ fs) (suc i) (suc j) f h = entry-set_ne fs i j f (λ e. h (ap suc e))

-- A file takes the place of one that stands for the same.
pub count-set_same :
    (side : Bool) (id : ℕ) (fs : Files) (i : ℕ) (g f : OpenFile)
    → entry fs i ≡ some g
    → g.special ≡ f.special
    → count side id (set fs i (some f)) ≡ count side id fs
count-set_same side id fs i g f e same =
    let there : ends_of side id (entry fs i) ≡ end_at side id f.special = rw (e, same) refl in
    omega (arith, there, count-set side id fs i (some f) (entry_bound fs i e))

-- The first empty slot from `start` on.
pub data Free (fs : Files) (start k : ℕ) : Type 0 where
  free :
      start ≤ k
      → k < length fs
      → entry fs k ≡ none
      → ((i : ℕ) → start ≤ i → i < k → entry fs i ≢ none)
      → Free fs start k

later :
    (f : Option OpenFile) (fs : Files) (start k : ℕ)
    → Free fs start k
    → Free (f ∷ fs) (suc start) (suc k)
later f fs start k (free a b c d) = free (omega arith) (omega arith) c taken
  where
    taken : (i : ℕ) → suc start ≤ i → i < suc k → entry (f ∷ fs) i ≢ none
    taken zero h h' = absurd (omega arith)
    taken (suc i) h h' = d i (omega arith) (omega arith)

past : (f : OpenFile) (fs : Files) (k : ℕ) → Free fs 0 k → Free (some f ∷ fs) 0 (suc k)
past f fs k (free a b c d) = free (omega arith) (omega arith) c taken
  where
    taken : (i : ℕ) → 0 ≤ i → i < suc k → entry (some f ∷ fs) i ≢ none
    taken zero h h' = λ e. cc
    taken (suc i) h h' = d i (omega arith) (omega arith)

found :
    (fs : Files) (start base k : ℕ)
    → find_none (drop start fs) (base + start) ≡ some k
    → (j : ℕ) × (k ≡ base + j) × Free fs start j
unfolding find_none
found [] zero base k e = cc
found [] (suc start) base k e = cc
found (none ∷ fs) zero base k e =
    (0, cc, free (omega arith) (omega arith) refl (λ i h h'. absurd (omega arith)))
found (some f ∷ fs) zero base k e =
    let shifted : suc base + 0 ≡ suc (base + 0) = omega arith in
    let (j, same, h) = found fs zero (suc base) k (rw shifted e) in
    (suc j, omega (arith, same), past f fs j h)
found (f ∷ fs) (suc start) base k e =
    let shifted : suc base + start ≡ base + suc start = omega arith in
    let (j, same, h) = found fs start (suc base) k (rw shifted e) in
    (suc j, omega (arith, same), later f fs start j h)

pub find_none-Free :
    (fs : Files) (start k : ℕ) → find_none (drop start fs) start ≡ some k → Free fs start k
find_none-Free fs start k e =
    let zero_plus : 0 + start ≡ start = omega arith in
    let (j, same, h) = found fs start 0 k (rw zero_plus e) in
    let same' : k ≡ j = omega (arith, same) in subst (λ j. Free fs start j) (sym same') h
