-- ===== src/Kernel/Reclaim/Progress.antt =====
-- The queue of the pager of kernel/reclaim.rs: every page in memory stands in it, whatever calls are made, and
-- so `reclaim_one` finds one.
use theos.Base.{
  ℕ, zero, suc, ◌+◌, ◌*◌, ltb, ◌≡◌, inl, inr, refl, List, [], ◌∷◌, ◌++◌, length, Option, some, none,
  true, false, Bool, Bool-cases, Result, ok, err, Exec, done, panic, ◌>>=◌, map_err,
}
use theos.Base.Maps.{get}
use theos.Zram.Types.{page_size}
use theos.Zram.Device.{Lz4Block, store_page, load_page, invalidate_page}
use theos.Kernel.Frames.{containing_address}
use theos.Kernel.Reclaim.{
  ReclaimPager, ReclaimEntry, ReclaimError, Stop, fails, deadlock, map_stop, allocate_and_map_page,
  untracked_page, filled, vm_error, zram_error, reclaim_max_pages, reclaim_start, zero_page,
  free_frame, EntryState, resident, compressed, Vm, is_resident, is_resident_state, remove_first,
  add_page, allocate_pages, allocate_region, unmap_entry, reclaim_entry, reclaim_page, rotate,
  found_one, restore_entry, handle_page_fault,
}
use theos.Kernel.Reclaim.Queue.{
  IsIn-rotated, IsIn-remove_first, Placed, pushed-Placed, taken-Placed,
  containing_address-containing_address,
}
use theos.Kernel.Reclaim.Calls.{
  unless_deadlock, Call, allocate, reclaim, fault, reclaim_next, fill_page, step, run, state_of,
}
use theos.Kernel.Reclaim.After.{InQueue, After, After-try, After-attempt, After-bind}

module _ {M : Type 0} (vm : Vm M) where
  allocate_pages-InQueue :
      (n off base : ℕ) (s : ReclaimPager) (m : M)
      → InQueue s
      → InQueue (allocate_pages vm n off base s m).1.0
  unfolding allocate_pages
  allocate_pages-InQueue zero off base s m h = h
  allocate_pages-InQueue (suc n) off base s m h =
      let page = containing_address (base + off * page_size) in
      let r = allocate_and_map_page vm m page in
      After-attempt (map_err (map_stop vm_error) r.0) s r.1 _ h λ frame.
        allocate_pages-InQueue n (off + 1) base (add_page s page frame) (zero_page vm r.1 page) (
          pushed-Placed s.entries s.resident_queue h page _
            (containing_address-containing_address (base + off * page_size)) s.resident_queue
            λ q apart at. at)

  allocate_region-InQueue :
      (s : ReclaimPager) (m : M) (n : ℕ) → InQueue s → InQueue (allocate_region vm s m n).1.0
  unfolding allocate_region
  allocate_region-InQueue s m n h =
      elim (Bool-cases (ltb reclaim_max_pages (s.next_region_page + n))) [
        | inl over ↦ rw (over, allocate_region) h
        | inr fits ↦
            let r = allocate_pages vm n 0 (reclaim_start + s.next_region_page * page_size) s m in
            let h1 =
              allocate_pages-InQueue n 0 (reclaim_start + s.next_region_page * page_size) s m h in
            rw (fits, allocate_region) (After-attempt r.0 r.1.0 r.1.1 _ h1 λ _. h1)
      ]

  unmap_entry-InQueue :
      (s : ReclaimPager) (m : M) (page : ℕ) (entry : ReclaimEntry) (frame : ℕ)
      → containing_address page ≡ page
      → InQueue s
      → InQueue (unmap_entry vm s m page entry frame).1.0
  unfolding unmap_entry
  unmap_entry-InQueue s m page entry frame at h =
      let u = vm.unmap_page m page in
      After-attempt (map_err vm_error u.0) s u.1 _ h λ unmapped.
        let f = free_frame vm u.1 unmapped frame in
        After-attempt (map_err vm_error f.0) s f.1 _ h λ _.
          taken-Placed s.entries s.resident_queue h page (record entry { state = compressed }) at
            refl

  module _ (codec : Lz4Block) where
    reclaim_entry-InQueue :
        (s : ReclaimPager) (m : M) (page : ℕ) (entry : ReclaimEntry) (st : EntryState)
        → containing_address page ≡ page
        → InQueue s
        → After (reclaim_entry vm codec s m page entry st)
    unfolding reclaim_entry After
    reclaim_entry-InQueue s m page entry compressed at h = h
    reclaim_entry-InQueue s m page entry (resident frame) at h =
        After-bind (store_page codec s.backend entry.page_index (vm.read_page m page)) _ λ r.
          After-try (map_err zram_error r.0) (record s { backend = r.1 }) m _ h
            λ _. unmap_entry-InQueue (record s { backend = r.1 }) m page entry frame at h

    pub reclaim_page-InQueue :
        (s : ReclaimPager) (m : M) (addr : ℕ) → InQueue s → After (reclaim_page vm codec s m addr)
    unfolding reclaim_page After
    reclaim_page-InQueue s m addr h =
        elim (get s.entries (containing_address addr))
          as (λ o. After (elim o [
            | none ↦ done (err untracked_page, (s, m))
            | some entry ↦ reclaim_entry vm codec s m (containing_address addr) entry entry.state
          ])) [
            | none ↦ h
            | some entry ↦
                reclaim_entry-InQueue s m (containing_address addr) entry entry.state
                  (containing_address-containing_address addr) h
          ]

    restore_entry-InQueue :
        (s : ReclaimPager) (m : M) (page : ℕ) (entry : ReclaimEntry)
        → containing_address page ≡ page
        → InQueue s
        → After (restore_entry vm codec s m page entry)
    unfolding restore_entry After
    restore_entry-InQueue s m page entry at h =
        After-bind (load_page codec s.backend entry.page_index) _ λ l.
          let s1 = record s { backend = l.1 } in
          After-try (map_err (λ e. fails (zram_error e)) l.0) s1 m _ h λ bytes.
            let r = allocate_and_map_page vm m page in
            After-try (map_err (map_stop vm_error) r.0) s1 r.1 _ h λ frame.
              After-bind (invalidate_page s1.backend entry.page_index) _ λ i.
                After-try (map_err (λ e. fails (zram_error e)) i.0) (record s1 { backend = i.1 })
                  (vm.write_page r.1 page (filled bytes)) _ h
                  λ _.
                    pushed-Placed s.entries s.resident_queue h page
                      (record entry { state = resident frame }) at
                      (remove_first s.resident_queue page)
                      λ q apart there. IsIn-remove_first q page s.resident_queue apart there

    pub handle_page_fault-InQueue :
        (s : ReclaimPager) (m : M) (addr : ℕ)
        → InQueue s
        → After (handle_page_fault vm codec s m addr)
    unfolding handle_page_fault After
    handle_page_fault-InQueue s m addr h =
        elim (get s.entries (containing_address addr))
          as (λ o. After (elim o [
            | none ↦ done (ok false, (s, m))
            | some entry ↦ elim (is_resident_state entry.state) [
              | true ↦ done (ok false, (s, m))
              | false ↦ restore_entry vm codec s m (containing_address addr) entry
            ]
          ])) [
            | none ↦ h
            | some entry ↦
                elim (is_resident_state entry.state)
                  as (λ b. After (elim b [
                    | true ↦ done (ok false, (s, m))
                    | false ↦ restore_entry vm codec s m (containing_address addr) entry
                  ])) [
                    | true ↦ h
                    | false ↦
                        restore_entry-InQueue s m (containing_address addr) entry
                          (containing_address-containing_address addr) h
                  ]
          ]

    found_one-After :
        (r : Exec (Result ReclaimError (Unit {0}) × (ReclaimPager × M)))
        → After r
        → After (r >>= λ x. done (found_one vm codec x))
    unfolding After
    found_one-After (done (ok _, (s, m))) h = h
    found_one-After (done (err e, (s, m))) h = h
    found_one-After panic h = tt

    pub rotate-InQueue :
        (n : ℕ) (s : ReclaimPager) (m : M) → InQueue s → After (rotate vm codec n s m)
    unfolding rotate After
    rotate-InQueue zero s m h = h
    rotate-InQueue (suc n) s m h =
        elim s.resident_queue
            as (λ queue.
              Placed s.entries queue
              → After (elim queue [
                | [] ↦ done (ok false, (s, m))
                | page ∷ rest ↦ elim (is_resident (get s.entries page)) [
                  | true ↦
                      reclaim_page vm codec (record s { resident_queue = rest ++ page ∷ [] }) m page
                      >>= λ r. done (found_one vm codec r)
                  | false ↦ rotate vm codec n (record s { resident_queue = rest ++ page ∷ [] }) m
                ]
              ])) [
                | [] ↦ λ _. h
                | page ∷ rest ↦ λ at.
                    let s1 = record s { resident_queue = rest ++ page ∷ [] } in
                    let h1 : InQueue s1 = record {
                      queued = λ q here. IsIn-rotated q page rest (at.queued q here);
                      aligned = at.aligned;
                    } in
                    elim (is_resident (get s.entries page))
                      as (λ b. After (elim b [
                        | true ↦
                            reclaim_page vm codec s1 m page >>= λ r. done (found_one vm codec r)
                        | false ↦ rotate vm codec n s1 m
                      ])) [
                        | true ↦
                            found_one-After (reclaim_page vm codec s1 m page)
                              (reclaim_page-InQueue s1 m page h1)
                        | false ↦ rotate-InQueue n s1 m h1
                      ]
              ]
          h

    -- What a run leaves, without the reply.
    unfoldable pub StepAfter : Exec (Option (ReclaimPager × M)) → Type 0
    StepAfter (done (some (s, m))) = InQueue s
    StepAfter (done none) = Unit {0}
    StepAfter panic = Unit {0}

    state_of-After :
        {A : Type 0} (r : Exec (A × (ReclaimPager × M))) → After r → StepAfter (state_of vm codec r)
    unfolding After StepAfter
    state_of-After (done (a, (s, m))) h = h
    state_of-After panic h = tt

    unless_deadlock-After :
        {A : Type 0} (r : Result (Stop ReclaimError) A × (ReclaimPager × M))
        → InQueue r.1.0
        → StepAfter (done (unless_deadlock vm codec r))
    unfolding StepAfter
    unless_deadlock-After (ok a, (s, m)) h = h
    unless_deadlock-After (err (fails e), (s, m)) h = h
    unless_deadlock-After (err deadlock, (s, m)) h = tt

    fault-After :
        (r : Exec (Result (Stop ReclaimError) Bool × (ReclaimPager × M)))
        → After r
        → StepAfter (r >>= λ x. done (unless_deadlock vm codec x))
    unfolding After StepAfter
    fault-After (done (a, (s, m))) h = unless_deadlock-After (a, (s, m)) h
    fault-After panic h = tt

    StepAfter-bind :
        (r : Exec (Option (ReclaimPager × M)))
        (k : ReclaimPager × M → Exec (Option (ReclaimPager × M)))
        → StepAfter r
        → ((s : ReclaimPager) (m : M) → InQueue s → StepAfter (k (s, m)))
        → StepAfter (r >>= λ o. elim o [ none ↦ done none | some x ↦ k x ])
    unfolding StepAfter
    StepAfter-bind (done (some (s, m))) k h hk = hk s m h
    StepAfter-bind (done none) k h hk = tt
    StepAfter-bind panic k h hk = tt

    step-InQueue :
        (s : ReclaimPager) (m : M) (c : Call) → InQueue s → StepAfter (step vm codec s m c)
    unfolding step StepAfter
    step-InQueue s m (allocate n) h =
        unless_deadlock-After (allocate_region vm s m n) (allocate_region-InQueue s m n h)
    step-InQueue s m (reclaim addr) h = state_of-After _ (reclaim_page-InQueue s m addr h)
    step-InQueue s m (fault addr) h = fault-After _ (handle_page_fault-InQueue s m addr h)
    step-InQueue s m reclaim_next h =
        state_of-After _ (rotate-InQueue (length s.resident_queue) s m h)
    step-InQueue s m (fill_page p bytes) h = h

    pub run-InQueue :
        (s : ReclaimPager) (m : M) (cs : List Call) → InQueue s → StepAfter (run vm codec s m cs)
    unfolding run StepAfter
    run-InQueue s m [] h = h
    run-InQueue s m (c ∷ cs) h =
        StepAfter-bind _ _ (step-InQueue s m c h) λ s1 m1. run-InQueue s1 m1 cs
