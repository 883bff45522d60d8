-- ===== src/Kernel/Frames/Walk.antt =====
-- The walk over the memory map of kernel/allocator.rs, and how often a frame is in a list.
use theos.Base.{
  ℕ, zero, suc, ◌+◌, ◌%◌, ◌≤◌, ◌<◌, ◌≡◌, ◌≢◌, max, refl, sym, ap, subst, arith, Bool-cases, inl,
  inr, ◌==◌, leb, if◌then◌else◌, List, [], ◌∷◌, ◌++◌, get_elem?, drop, Option, none, some,
}
use theos.Kernel.Frames.{
  MemoryRegion, BootInfoFrameAllocator, frame_size, pop, pop_behind, frame_at, from_region,
  next_region, containing_address, next_addr, walk_regions,
}

-- How often a frame is in a list.
unfoldable pub times : ℕ → List ℕ → ℕ
times f [] = 0
times f (x ∷ xs) = (if x == f then 1 else 0) + times f xs

unfoldable pub take_out : ℕ → List ℕ → List ℕ
take_out f [] = []
take_out f (x ∷ xs) = let rest = take_out f xs in if x == f then xs else x ∷ rest

-- The regions start at page boundaries, each where the one before it ends or later.
abbrev pub IsOrdered : ℕ → List MemoryRegion → Type 0
IsOrdered lo [] = Unit
IsOrdered lo (r ∷ rs) = (lo ≤ r.base) × (r.base % frame_size ≡ 0) × IsOrdered (r.base + r.length) rs

-- A whole page of a region, and not page 0.
pub data InRegion (regions : List MemoryRegion) (f : ℕ) : Type 0 where
  in_region :
      (i : ℕ) (r : MemoryRegion)
      → get_elem? regions i ≡ some r
      → r.base ≤ f
      → f + frame_size ≤ r.base + r.length
      → frame_size ≤ f
      → InRegion regions f

-- Frames up to `lo` may be gone, where the walk is at the address `cur` of the first of the regions.
abbrev pub Ahead : ℕ → ℕ → List MemoryRegion → Type 0
Ahead lo cur [] = Unit
Ahead lo cur (r ∷ rs) =
    (lo ≤ max cur r.base)
    × (cur ≤ r.base + r.length)
    × (cur % frame_size ≡ 0)
    × (r.base % frame_size ≡ 0)
    × IsOrdered (r.base + r.length) rs

pub times-append : (f : ℕ) (xs ys : List ℕ) → times f (xs ++ ys) ≡ times f xs + times f ys
unfolding times
times-append f [] ys = omega arith
times-append f (x ∷ xs) ys = omega (arith, times-append f xs ys)

pop_succeeds : (x : ℕ) (xs : List ℕ) → pop (x ∷ xs) ≢ none
unfolding pop
pop_succeeds x xs = on_rest (pop xs)
  where
    on_rest : (o : Option (ℕ × List ℕ)) → pop_behind x o ≢ none
    on_rest none = λ e. cc
    on_rest (some (y, ys)) = λ e. cc

pub times-pop :
    (f : ℕ) (xs : List ℕ) (y : ℕ) (ys : List ℕ)
    → pop xs ≡ some (y, ys)
    → times f xs ≡ times f (y ∷ ys)
unfolding times pop
times-pop f [] y ys e = cc
times-pop f (x ∷ []) y ys e =
    let same : x ≡ y = cc in let empty : [] ≡ ys = cc in rw (same, sym empty) refl
times-pop f (x ∷ z ∷ xs) y ys e = on_rest (pop (z ∷ xs)) refl e (times-pop f (z ∷ xs))
  where
    on_rest :
        (o : Option (ℕ × List ℕ))
        → pop (z ∷ xs) ≡ o
        → pop_behind x o ≡ some (y, ys)
        → ((y : ℕ) (ys : List ℕ)
            → pop (z ∷ xs) ≡ some (y, ys)
            → times f (z ∷ xs) ≡ times f (y ∷ ys))
        → times f (x ∷ z ∷ xs) ≡ times f (y ∷ ys)
    on_rest none h e ih = absurd (pop_succeeds z xs h)
    on_rest (some (y', ys')) h e ih =
        let a : y' ≡ y = cc in
        let b : x ∷ ys' ≡ ys = cc in rw (sym a, sym b) (omega (arith, ih y' ys' h))

pub times-take_out :
    (f g : ℕ) (xs : List ℕ) → 0 < times g xs → times f xs ≡ times f (g ∷ take_out g xs)
unfolding times take_out
times-take_out f g [] h = absurd (omega arith)
times-take_out f g (x ∷ xs) h = ground (arith, times-take_out f g xs)

drop_at :
    (rs : List MemoryRegion) (i : ℕ) (r : MemoryRegion)
    → get_elem? rs i ≡ some r
    → drop i rs ≡ r ∷ drop (suc i) rs
drop_at [] i r e = cc
drop_at (x ∷ xs) zero r e = let same : x ≡ r = cc in ap (λ z. z ∷ xs) same
drop_at (x ∷ xs) (suc i) r e = drop_at xs i r e

-- The walk, from where frames up to `lo` may be gone: it finds a frame at `lo` or behind it, in a region.
pub data Found (regions : List MemoryRegion) (recycled : List ℕ) (lo : ℕ)
    : Option ℕ × BootInfoFrameAllocator → Type 0 where
  nothing :
      (s : BootInfoFrameAllocator)
      → s.regions ≡ regions
      → s.recycled ≡ recycled
      → Ahead lo s.current_addr (drop s.current_entry s.regions)
      → Found regions recycled lo (none, s)
  found :
      (f : ℕ) (s : BootInfoFrameAllocator)
      → s.regions ≡ regions
      → s.recycled ≡ recycled
      → lo ≤ f
      → InRegion regions f
      → Ahead (f + frame_size) s.current_addr (drop s.current_entry s.regions)
      → Found regions recycled lo (some f, s)

next-Ahead :
    (lo cur : ℕ) (r : MemoryRegion) (rs : List MemoryRegion) → Ahead lo cur (r ∷ rs) → Ahead lo 0 rs
next-Ahead lo cur r [] h = tt
next-Ahead lo cur r (q ∷ rs) h = ground arith

aligned : (addr : ℕ) → addr % frame_size ≡ 0 → containing_address addr ≡ addr
aligned addr h = omega (arith, h)

next_addr_aligned :
    (cur : ℕ) (r : MemoryRegion)
    → cur % frame_size ≡ 0
    → r.base % frame_size ≡ 0
    → next_addr cur r % frame_size ≡ 0
next_addr_aligned cur r h h' = omega (arith, h, h')

frame_at-Found :
    (s : BootInfoFrameAllocator) (lo : ℕ) (r : MemoryRegion) (rs : List MemoryRegion)
    → get_elem? s.regions s.current_entry ≡ some r
    → drop s.current_entry s.regions ≡ r ∷ rs
    → Ahead lo s.current_addr (r ∷ rs)
    → next_addr s.current_addr r + frame_size ≤ r.base + r.length
    → Found s.regions s.recycled lo (frame_at s (next_addr s.current_addr r))
frame_at-Found s lo r rs e split h fits =
    let even = next_addr_aligned s.current_addr r h.2 h.3 in
    let same = aligned (next_addr s.current_addr r) even in
    found _ _ refl refl (omega (arith, same, h.0))
      (in_region s.current_entry r e (omega (arith, same)) (omega (arith, same, fits))
        (omega (arith, same)))
      (subst (Ahead _ (next_addr s.current_addr r + frame_size)) (sym split)
        (omega (arith, same), fits, omega (arith, even), h.3, h.4))

on_region :
    (s : BootInfoFrameAllocator) (lo : ℕ) (o : Option MemoryRegion)
    (rest : Option ℕ × BootInfoFrameAllocator)
    → get_elem? s.regions s.current_entry ≡ o
    → Ahead lo s.current_addr (drop s.current_entry s.regions)
    → (Ahead lo 0 (drop (suc s.current_entry) s.regions) → Found s.regions s.recycled lo rest)
    → Found s.regions s.recycled lo (from_region s o rest)
on_region s lo none rest e h next = nothing s refl refl h
on_region s lo (some r) rest e h next =
    let split = drop_at s.regions s.current_entry r e in
    let h' : Ahead lo s.current_addr (r ∷ drop (suc s.current_entry) s.regions) =
      subst (Ahead lo s.current_addr) split h in
    elim (Bool-cases (leb (next_addr s.current_addr r + frame_size) (r.base + r.length))) [
      | inl fits ↦
          rw fits
            (frame_at-Found s lo r (drop (suc s.current_entry) s.regions) e split h' (ground arith))
      | inr full ↦
          rw full (next (next-Ahead lo s.current_addr r (drop (suc s.current_entry) s.regions) h'))
    ]

pub walk_regions-Found :
    (n lo : ℕ) (s : BootInfoFrameAllocator)
    → Ahead lo s.current_addr (drop s.current_entry s.regions)
    → Found s.regions s.recycled lo (walk_regions n s)
unfolding walk_regions
walk_regions-Found zero lo s h = nothing s refl refl h
walk_regions-Found (suc n) lo s h =
    on_region s lo (get_elem? s.regions s.current_entry) (walk_regions n (next_region s)) refl h
      (walk_regions-Found n lo (next_region s))
