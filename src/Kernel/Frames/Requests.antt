-- ===== src/Kernel/Frames/Requests.antt =====
-- The frames that kernel/allocator.rs hands out: each to one holder at a time, in a region of the map.
use theos.Base.{
  ℕ, ◌+◌, ◌≤◌, ◌<◌, ◌≡◌, refl, sym, ◌∙◌, subst, arith, Bool-cases, inl, inr, ◌⊎◌, ℕ_discrete,
  dec_lt, ◌==◌, ltb, if◌then◌else◌, List, [], ◌∷◌, ◌++◌, drop, Option, none, some,
}
use theos.Kernel.Frames.{
  MemoryRegion, BootInfoFrameAllocator, frame_size, init_from_regions, pop, recycled_or_new,
  allocate_frame, recycle,
}
use theos.Kernel.Frames.Walk.{
  times, take_out, IsOrdered, InRegion, Ahead, times-append, times-pop, times-take_out, Found,
  nothing, found, walk_regions-Found,
}

-- A frame is asked for, or one that is held is given back.
pub data Request : Type 0 where
  take_frame : Request
  give_back : ℕ → Request

abbrev with_frame : List ℕ → Option ℕ × BootInfoFrameAllocator → List ℕ × BootInfoFrameAllocator
with_frame held (none, s) = (held, s)
with_frame held (some f, s) = (f ∷ held, s)

unfoldable pub serve : List ℕ → BootInfoFrameAllocator → Request → List ℕ × BootInfoFrameAllocator
serve held s take_frame = with_frame held (allocate_frame s)
serve held s (give_back f) =
    if ltb 0 (times f held) then (take_out f held, recycle s f) else (held, s)

unfoldable pub run :
    List ℕ → BootInfoFrameAllocator → List Request → List ℕ × BootInfoFrameAllocator
run held s [] = (held, s)
run held s (r ∷ requests) = let (held', s') = serve held s r in run held' s' requests

-- The frames that are held and those that are recycled: each once, below where the walk is, and in a region.
record IsFair (regions : List MemoryRegion) (held : List ℕ) (s : BootInfoFrameAllocator)
    : Type 0 where
  floor : ℕ
  same : s.regions ≡ regions
  ahead : Ahead floor s.current_addr (drop s.current_entry s.regions)
  once : (f : ℕ) → times f held + times f s.recycled ≤ 1
  below : (f : ℕ) → 0 < times f held + times f s.recycled → f + frame_size ≤ floor
  inside : (f : ℕ) → 0 < times f held + times f s.recycled → InRegion regions f

-- The same frames, in other hands.
moved :
    (regions : List MemoryRegion) (held held' recycled : List ℕ) (s : BootInfoFrameAllocator)
    → IsFair regions held s
    → ((f : ℕ) → times f held' + times f recycled ≡ times f held + times f s.recycled)
    → IsFair regions held' (record s { recycled = recycled })
moved regions held held' recycled s w count = record {
  floor = w.floor;
  same = w.same;
  ahead = w.ahead;
  once = λ f. omega (arith, w.once f, count f);
  below = λ f h. w.below f (omega (arith, h, count f));
  inside = λ f h. w.inside f (omega (arith, h, count f));
}

new_frame :
    (regions : List MemoryRegion) (held : List ℕ) (s : BootInfoFrameAllocator)
    (w : IsFair regions held s) (x : Option ℕ × BootInfoFrameAllocator)
    → Found s.regions s.recycled w.floor x
    → let (held', s') = with_frame held x in IsFair regions held' s'
unfolding times
new_frame regions held s w x (nothing s' regs recs ahead) = record {
  floor = w.floor;
  same = regs ∙ w.same;
  ahead = ahead;
  once = λ f. rw recs (w.once f);
  below = λ f h. w.below f (rw recs at h);
  inside = λ f h. w.inside f (rw recs at h);
}
new_frame regions held s w x (found f s' regs recs later inside ahead) = record {
  floor = f + frame_size;
  same = regs ∙ w.same;
  ahead = ahead;
  once = λ g. rw recs (ground (arith, w.below g, w.once g, later));
  below = λ g h.
      let h' : 0 < (if f == g then 1 else 0) + times g held + times g s.recycled =
        rw (sym recs) h in
      ground (arith, w.below g, later);
  inside = λ g h.
      let h' : 0 < (if f == g then 1 else 0) + times g held + times g s.recycled =
        rw (sym recs) h in
      elim (ℕ_discrete f g) [
        | yes q ↦ subst (InRegion regions) q (subst (λ rs. InRegion rs f) w.same inside)
        | no q ↦ w.inside g (ground arith)
      ];
}

times-cons : (g f : ℕ) (xs : List ℕ) → times g (f ∷ xs) ≡ (if f == g then 1 else 0) + times g xs
unfolding times
times-cons g f xs = refl

allocate_frame-IsFair :
    (regions : List MemoryRegion) (held : List ℕ) (s : BootInfoFrameAllocator)
    → IsFair regions held s
    → let (held', s') = with_frame held (allocate_frame s) in IsFair regions held' s'
unfolding allocate_frame
allocate_frame-IsFair regions held s w = on_pop (pop s.recycled) refl
  where
    popped :
        (g f : ℕ) (rest : List ℕ)
        → pop s.recycled ≡ some (f, rest)
        → times g (f ∷ held) + times g rest ≡ times g held + times g s.recycled
    popped g f rest e =
        omega (arith, times-pop g s.recycled f rest e, times-cons g f held, times-cons g f rest)

    on_pop :
        (o : Option (ℕ × List ℕ))
        → pop s.recycled ≡ o
        → let (held', s') = with_frame held (recycled_or_new s o) in IsFair regions held' s'
    on_pop none e = new_frame regions held s w _ (walk_regions-Found _ w.floor s w.ahead)
    on_pop (some (f, rest)) e = moved regions held (f ∷ held) rest s w (λ g. popped g f rest e)

times-one : (g f : ℕ) → times g (f ∷ []) ≡ (if f == g then 1 else 0)
unfolding times
times-one g f = omega arith

serve-IsFair :
    (regions : List MemoryRegion) (held : List ℕ) (s : BootInfoFrameAllocator) (r : Request)
    → IsFair regions held s
    → let (held', s') = serve held s r in IsFair regions held' s'
unfolding serve
serve-IsFair regions held s take_frame w = allocate_frame-IsFair regions held s w
serve-IsFair regions held s (give_back f) w = elim (Bool-cases (ltb 0 (times f held))) [
  | inl its_own ↦ rw its_own (
      moved regions held (take_out f held) (s.recycled ++ f ∷ []) s w (λ g. given g (ground arith)))
  | inr not_held ↦ rw not_held w
]
  where
    given :
        (g : ℕ)
        → 0 < times f held
        → times g (take_out f held) + times g (s.recycled ++ f ∷ [])
          ≡ times g held + times g s.recycled
    given g h = omega (
      arith,
      times-take_out g f held h,
      times-cons g f (take_out f held),
      times-append g s.recycled (f ∷ []),
      times-one g f,
    )

run-IsFair :
    (regions : List MemoryRegion) (requests : List Request) (held : List ℕ)
    (s : BootInfoFrameAllocator)
    → IsFair regions held s
    → let (held', s') = run held s requests in IsFair regions held' s'
unfolding run
run-IsFair regions [] held s w = w
run-IsFair regions (r ∷ requests) held s w =
    run-IsFair regions requests (serve held s r).0 (serve held s r).1
      (serve-IsFair regions held s r w)

start-IsFair :
    (regions : List MemoryRegion)
    → IsOrdered 0 regions
    → IsFair regions [] (init_from_regions regions)
unfolding times
start-IsFair regions h = record {
  floor = 0;
  same = refl;
  ahead = at_start regions h;
  once = λ f. omega arith;
  below = λ f h. absurd (omega arith);
  inside = λ f h. absurd (omega arith);
}
  where
    at_start : (rs : List MemoryRegion) → IsOrdered 0 rs → Ahead 0 0 rs
    at_start [] h = tt
    at_start (r ∷ rs) h = (omega arith, omega arith, omega arith, h.1, h.2)

-- From a map whose regions start at page boundaries, in order and apart, whatever frames are asked
-- for and given back, in whatever order: a frame is held at most once at any time, each frame that is held
-- is a whole page of a region of the map, and none is page 0. A holder gives back only what it holds.
pub run-distinct :
    (regions : List MemoryRegion) (requests : List Request) (f : ℕ)
    → IsOrdered 0 regions
    → let held = (run [] (init_from_regions regions) requests).0 in
      (times f held ≤ 1) × ((times f held ≡ 0) ⊎ InRegion regions f)
run-distinct regions requests f h =
    held_once (run-IsFair regions requests [] (init_from_regions regions) (start-IsFair regions h))
  where
    held_once :
        {held : List ℕ} {s : BootInfoFrameAllocator}
        → IsFair regions held s
        → (times f held ≤ 1) × ((times f held ≡ 0) ⊎ InRegion regions f)
    held_once {held} w = (
      omega (arith, w.once f),
      elim (dec_lt 0 (times f held)) [
        | yes some_held ↦ inr (w.inside f (omega (arith, some_held)))
        | no none_held ↦ inl (omega (arith, none_held))
      ],
    )
