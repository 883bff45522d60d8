-- ===== src/Kernel/Tests/Allocation.antt =====
-- An allocation with no frame left, over the pager and the memory of Kernel.Tests.Reclaim.
use theos.Base.{◌≡◌, refl, arith, [], ◌∷◌, length}
use theos.Kernel.Reclaim.{allocate_and_map_page, allocate_region, allocate_pages, new}
use theos.Kernel.Reclaim.Valid.{Contents, Holds}
use theos.Kernel.Reclaim.Calls.{allocate}
use theos.Kernel.Allocation.{allocate_frame}
use theos.Kernel.Allocation.Ends.{Allocates, allocate_frame_ends}
use theos.Kernel.Tests.Reclaim.{
  vm, vm-IsVm, codec, codec-IsLossless, memory, grown, grown_memory, grown_runs,
}

two_wait : length grown.resident_queue ≡ 2
unfolding allocate_region allocate_pages allocate_and_map_page new
two_wait = refl

allocate_frame_ends_example :
    (f : Contents) × Holds vm codec grown grown_memory f
    × Allocates vm codec f (allocate_frame vm codec 3 grown grown_memory)
allocate_frame_ends_example =
    allocate_frame_ends vm codec memory (allocate 2 ∷ []) grown grown_memory 3 vm-IsVm
      codec-IsLossless grown_runs (omega (arith, two_wait))
