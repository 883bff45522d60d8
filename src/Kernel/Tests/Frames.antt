-- ===== src/Kernel/Tests/Frames.antt =====
-- The theorem on the frames of kernel/allocator.rs at a concrete input.
use theos.Base.{◌≡◌, ◌≤◌, ◌⊎◌, refl, arith, List, [], ◌∷◌}
use theos.Kernel.Frames.{MemoryRegion, init_from_regions, walk_regions, allocate_frame, pop}
use theos.Kernel.Frames.Walk.{IsOrdered, InRegion, times, take_out}
use theos.Kernel.Frames.Requests.{Request, take_frame, give_back, run, serve, run-distinct}

-- Two pages from 0 on, and two from 16384 on.
abbrev regions : List MemoryRegion
regions = record { base = 0; length = 8192 } ∷ record { base = 16384; length = 8192 } ∷ []

abbrev requests : List Request
requests = take_frame ∷ take_frame ∷ give_back 4096 ∷ take_frame ∷ take_frame ∷ []

-- The page behind page 0, given back and taken again, and the two of the second region.
held_frames : (run [] (init_from_regions regions) requests).0 ≡ 20480 ∷ 4096 ∷ 16384 ∷ []
unfolding run serve allocate_frame walk_regions pop times take_out
held_frames = refl

ordered : IsOrdered 0 regions
ordered = (omega arith, omega arith, (omega arith, omega arith, tt))

run-distinct_example :
    let held = (run [] (init_from_regions regions) requests).0 in
    (times 4096 held ≤ 1) × ((times 4096 held ≡ 0) ⊎ InRegion regions 4096)
run-distinct_example = run-distinct regions requests 4096 ordered
