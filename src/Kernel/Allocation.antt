-- ===== src/Kernel/Allocation.antt =====
-- `allocate_frame` of kernel/allocator.rs: the loop that has the pager of kernel/reclaim.rs take a page when no
-- frame is free, called while the pager's lock is free.
pub mod Ends
use theos.Base.{
  ℕ, zero, suc, Bool, true, false, Option, none, some, Exec, done, ◌>>=◌, Result, ok, err,
}
use theos.Zram.Device.{Lz4Block}
use theos.Kernel.Frames.{VmError, frame_allocation_failed}
use theos.Kernel.Reclaim.{
  ReclaimPager, ReclaimError, vm_error, zram_error, out_of_virtual_space, untracked_page,
  already_reclaimed, Vm, reclaim_one,
}

abbrev pub reclaim_error_to_vm : ReclaimError → VmError
reclaim_error_to_vm (vm_error e) = e
reclaim_error_to_vm (zram_error e) = frame_allocation_failed
reclaim_error_to_vm out_of_virtual_space = frame_allocation_failed
reclaim_error_to_vm untracked_page = frame_allocation_failed
reclaim_error_to_vm already_reclaimed = frame_allocation_failed

-- The reply is `none` when the fuel is out.
abbrev pub Allocation : Type 0 → Type 0
Allocation M = Exec (Option (Result VmError ℕ) × (ReclaimPager × M))

module _ {M : Type 0} (vm : Vm M) (codec : Lz4Block) where
  unfoldable pub allocate_frame : ℕ → ReclaimPager → M → Allocation M
  allocate_frame zero s m = done (none, (s, m))
  allocate_frame (suc n) s m =
      let t = vm.try_allocate_frame m in
      elim t.0 [
        | err e ↦ done (some (err e), (s, t.1))
        | ok o ↦ elim o [
          | some frame ↦ done (some (ok frame), (s, t.1))
          | none ↦ reclaim_one vm codec s t.1 >>= λ r. elim r.0 [
            | err e ↦ done (some (err (reclaim_error_to_vm e)), r.1)
            | ok reclaimed ↦ elim reclaimed [
              | true ↦ allocate_frame n r.1.0 r.1.1
              | false ↦ done (some (err frame_allocation_failed), r.1)
            ]
          ]
        ]
      ]
