-- ===== src/Kernel/Reclaim/Mapped.antt =====
-- `allocate_and_map_page` of kernel/allocator.rs with the pager's lock held: what it leaves alone, and when it
-- waits for ever.
use theos.Base.{ℕ, ◌≡◌, ◌≢◌, refl, ◌∙◌, Option, none, some, Result, ok, err, attempt, map_err}
use theos.Kernel.Frames.{VmError}
use theos.Kernel.Reclaim.{Vm, fails, deadlock, frame_or_deadlock, allocate_and_map_page}
use theos.Kernel.Reclaim.Valid.{IsVm}

module _ {M : Type 0} (vm : Vm M) (good : IsVm vm) where
  -- Whatever becomes of the call, the other pages have their bytes.
  pub allocate_and_map_page-other :
      (m : M) (p q : ℕ) → p ≢ q → vm.read_page (allocate_and_map_page vm m p).1 q ≡ vm.read_page m q
  unfolding allocate_and_map_page
  allocate_and_map_page-other m p q apart = on_frame (vm.try_allocate_frame m) (good.try_other m q)
    where
      on_map :
          (t : Result VmError (Unit {0}) × M) (frame : ℕ)
          → vm.read_page t.1 q ≡ vm.read_page m q
          → vm.read_page (attempt (map_err fails t.0) t.1 (λ _. (ok frame, t.1))).1 q
            ≡ vm.read_page m q
      on_map (ok _, m1) frame e = e
      on_map (err x, m1) frame e = e

      on_frame :
          (t : Result VmError (Option ℕ) × M)
          → vm.read_page t.1 q ≡ vm.read_page m q
          → vm.read_page
              (attempt (frame_or_deadlock vm t.0) t.1 (λ frame.
                let r = vm.map_existing_page t.1 p frame in
                attempt (map_err fails r.0) r.1 (λ _. (ok frame, r.1)))).1
              q
            ≡ vm.read_page m q
      on_frame (ok (some frame), m1) e =
          on_map (vm.map_existing_page m1 p frame) frame (good.map_other m1 p frame q apart ∙ e)
      on_frame (ok none, m1) e = e
      on_frame (err x, m1) e = e

  -- The deadlock comes of no free frame.
  pub allocate_and_map_page-deadlock :
      (m : M) (p : ℕ)
      → (allocate_and_map_page vm m p).0 ≡ err deadlock
      → (vm.try_allocate_frame m).0 ≡ ok none
  unfolding allocate_and_map_page
  allocate_and_map_page-deadlock m p e = on_frame (vm.try_allocate_frame m) e
    where
      on_map :
          (t : Result VmError (Unit {0}) × M) (frame : ℕ)
          → (attempt (map_err fails t.0) t.1 (λ _. (ok frame, t.1))).0 ≡ err deadlock
          → ⊥
      on_map (ok _, m1) frame e = cc
      on_map (err x, m1) frame e = cc

      on_frame :
          (t : Result VmError (Option ℕ) × M)
          → (attempt (frame_or_deadlock vm t.0) t.1 (λ frame.
              let r = vm.map_existing_page t.1 p frame in
              attempt (map_err fails r.0) r.1 (λ _. (ok frame, r.1)))).0
            ≡ err deadlock
          → t.0 ≡ ok none
      on_frame (ok (some frame), m1) e = absurd (on_map (vm.map_existing_page m1 p frame) frame e)
      on_frame (ok none, m1) e = refl
      on_frame (err x, m1) e = cc
