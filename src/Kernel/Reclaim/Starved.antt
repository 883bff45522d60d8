-- ===== src/Kernel/Reclaim/Starved.antt =====
-- Where `allocate_region` of kernel/reclaim.rs waits for ever: behind some of its pages, when no frame is free.
use theos.Base.{
  ℕ, zero, suc, ◌+◌, ◌*◌, ◌<◌, ◌≡◌, arith, inl, inr, Bool-cases, none, Result, ok, err, attempt,
  ltb, result_cases,
}
use theos.Zram.Types.{page_size}
use theos.Kernel.Frames.{containing_address, VmError}
use theos.Kernel.Reclaim.{
  ReclaimPager, ReclaimError, vm_error, Vm, Stop, fails, deadlock, out_of_virtual_space,
  allocate_and_map_page, allocate_pages, allocate_region, add_page, zero_page, reclaim_start,
  reclaim_max_pages,
}
use theos.Kernel.Reclaim.Valid.{IsVm}
use theos.Kernel.Reclaim.Mapped.{allocate_and_map_page-deadlock}

module _ {M : Type 0} (vm : Vm M) where
  -- No frame is free behind the first `k` pages.
  abbrev pub StarvedBehind : ℕ → ℕ → ℕ → ReclaimPager → M → Type 0
  StarvedBehind k off base s m =
      (vm.try_allocate_frame (allocate_pages vm k off base s m).1.1).0 ≡ ok none

  allocate_pages-starved :
      (n off base : ℕ) (s : ReclaimPager) (m : M)
      → IsVm vm
      → (allocate_pages vm n off base s m).0 ≡ err deadlock
      → (k : ℕ) × (k < n) × StarvedBehind k off base s m
  unfolding allocate_pages
  allocate_pages-starved zero off base s m good e = cc
  allocate_pages-starved (suc n) off base s m good e =
      let page = containing_address (base + off * page_size) in
      elim (result_cases (allocate_and_map_page vm m page).0) [
        | inr (fails x, denied) ↦ absurd (failed x (rw denied at e))
        | inr (deadlock, denied) ↦
            (0, omega arith, allocate_and_map_page-deadlock vm good m page denied)
        | inl (frame, given) ↦
            let (k, less, starved) =
              allocate_pages-starved n (off + 1) base (add_page s page frame)
                (zero_page vm (allocate_and_map_page vm m page).1 page) good (rw given at e) in
            (suc k, omega (arith, less), rw (given, allocate_pages) starved)
      ]
    where
      failed :
          (x : VmError)
          → ◌≡◌ {A = Result (Stop ReclaimError) (Unit {0})}
              (err (fails (vm_error x)))
              (err deadlock)
          → ⊥
      failed x e = cc

  pub allocate_region-starved :
      (s : ReclaimPager) (m : M) (n : ℕ)
      → IsVm vm
      → (allocate_region vm s m n).0 ≡ err deadlock
      → (k : ℕ) × (k < n) × StarvedBehind k 0 (reclaim_start + s.next_region_page * page_size) s m
  unfolding allocate_region
  allocate_region-starved s m n good e =
      elim (Bool-cases (ltb reclaim_max_pages (s.next_region_page + n))) [
        | inl over ↦ absurd (refused (rw over at e))
        | inr fits ↦ allocate_pages-starved n 0 _ s m good (
            stopped (allocate_pages vm n 0 (reclaim_start + s.next_region_page * page_size) s m) _
              (rw fits at e))
      ]
    where
      refused :
          ◌≡◌ {A = Result (Stop ReclaimError) ℕ} (err (fails out_of_virtual_space)) (err deadlock)
          → ⊥
      refused e = cc

      stopped :
          (r : Result (Stop ReclaimError) (Unit {0}) × (ReclaimPager × M)) (base : ℕ)
          → (attempt r.0 r.1 (λ _. (ok base, r.1))).0 ≡ err deadlock
          → r.0 ≡ err deadlock
      stopped (ok _, sm) base e = cc
      stopped (err x, sm) base e = cc
