-- ===== src/Kernel/Reclaim/Found.antt =====
-- `reclaim_one` of kernel/reclaim.rs finds a page that is in memory, as long as there is one.
use theos.Base.{
  length-append, ◌<◌, arith, done_injective, some_injective, Option, take, ℕ, zero, suc, ◌≡◌, ◌⊎◌,
  inl, inr, refl, sym, ap, subst, ◌∙◌, List, [], ◌∷◌, ◌++◌, length, some, none, Bool, true, false,
  Bool-cases, Result, ok, err, Exec, done, ◌>>=◌,
}
use theos.Base.Maps.{get}
use theos.Zram.Device.{Lz4Block, IsLossless}
use theos.Kernel.Frames.{VmError}
use theos.Kernel.Reclaim.{
  ReclaimPager, ReclaimEntry, ReclaimError, vm_error, compressed, Vm, new, is_resident,
  reclaim_page, rotate, reclaim_one, found_one,
}
use theos.Kernel.Reclaim.Queue.{
  true_not_false, IsIn, IsIn-take_all, IsIn-take_longer, IsIn-last, length-remove_first, Aligned,
  Placed, new-Placed,
}
use theos.Kernel.Reclaim.Calls.{Call, run}
use theos.Kernel.Reclaim.Runs.{run-Keeps, resident_entry}
use theos.Kernel.Reclaim.Valid.{IsVm, Contents, Holds, new-Holds}
use theos.Kernel.Reclaim.Taken.{Taking, took, refused, reclaim_page_lem}
use theos.Kernel.Reclaim.Steps.{queue-Holds}
use theos.Kernel.Reclaim.Progress.{StepAfter, run-InQueue}

length-turned : (x : ℕ) (xs : List ℕ) → length (xs ++ x ∷ []) ≡ length (x ∷ xs)
length-turned x xs = omega (arith, length-append xs (x ∷ []))

module _ {M : Type 0} (vm : Vm M) (codec : Lz4Block) where
  -- A page is found in memory, and `reclaim_page` is called on it.
  record Found (s : ReclaimPager) (m : M) (r : Exec (Result ReclaimError Bool × (ReclaimPager × M)))
      : Type 0 where
    pub page : ℕ
    pub queue : List ℕ
    pub here : is_resident (get s.entries page) ≡ true
    pub waits : IsIn page queue
    pub same_length : length queue ≡ length s.resident_queue
    pub calls : r ≡ (
        reclaim_page vm codec (record s { resident_queue = queue }) m page >>= λ x.
        done (found_one vm codec x))

  rotate-Found :
      (n : ℕ) (s : ReclaimPager) (m : M) (queue : List ℕ) (p : ℕ)
      → s.resident_queue ≡ queue
      → IsIn p (take n queue)
      → is_resident (get s.entries p) ≡ true
      → Found s m (rotate vm codec n s m)
  unfolding rotate IsIn
  rotate-Found zero s m queue p e at here = absurd at
  rotate-Found (suc n) s m [] p e at here = absurd at
  rotate-Found (suc n) s m (page ∷ rest) p e at here =
      elim (Bool-cases (is_resident (get s.entries page))) [
        | inl front ↦ record {
          page = page;
          queue = rest ++ page ∷ [];
          here = front;
          waits = IsIn-last page page rest refl;
          same_length = rw e (length-turned page rest);
          calls = rw (e, front, rotate) refl;
        }
        | inr other ↦
            let s1 = record s { resident_queue = rest ++ page ∷ [] } in
            let w =
              rotate-Found n s1 m (rest ++ page ∷ []) p refl
                (IsIn-take_longer p n rest (page ∷ []) (later other at)) here in
            record {
              page = w.page;
              queue = w.queue;
              here = w.here;
              waits = w.waits;
              same_length = w.same_length ∙ rw e (length-turned page rest);
              calls = rw (e, other, rotate) w.calls;
            }
      ]
    where
      later :
          is_resident (get s.entries page) ≡ false
          → (p ≡ page) ⊎ IsIn p (take n rest)
          → IsIn p (take n rest)
      later other (inl same) =
          absurd (true_not_false _ here (ap (λ x. is_resident (get s.entries x)) same ∙ other))
      later other (inr at) = at

module _ {M : Type 0} (vm : Vm M) (codec : Lz4Block) where
  -- How `reclaim_one` ends: a page that was in memory is compressed and the queue is shorter, or the
  -- allocator refuses to unmap one. No page loses its bytes.
  pub data TakesOne (f : Contents) (s : ReclaimPager) (m : M)
      (r : Exec (Result ReclaimError Bool × (ReclaimPager × M))) : Type 0 where
    took_one :
        (page : ℕ) (entry : ReclaimEntry) (s' : ReclaimPager) (m' : M)
        → is_resident (get s.entries page) ≡ true
        → r ≡ done (ok true, (s', m'))
        → get s'.entries page ≡ some (record entry { state = compressed })
        → length s'.resident_queue < length s.resident_queue
        → Holds vm codec s' m' f
        → TakesOne f s m r
    refused_one :
        (page : ℕ) (e : VmError) (s' : ReclaimPager) (m' : M)
        → (vm.unmap_page m page).0 ≡ err e
        → r ≡ done (err (vm_error e), (s', m'))
        → Holds vm codec s' m' f
        → TakesOne f s m r

module _ {M : Type 0} (vm : Vm M) (good : IsVm vm) (codec : Lz4Block) (l : IsLossless codec)
    (s : ReclaimPager) (m : M) (f : Contents) (h : Holds vm codec s m f) where
  Taking-TakesOne :
      (page : ℕ) (queue : List ℕ) (entry : ReclaimEntry)
      (t : Exec (Result ReclaimError (Unit {0}) × (ReclaimPager × M)))
      (r : Exec (Result ReclaimError Bool × (ReclaimPager × M)))
      → is_resident (get s.entries page) ≡ true
      → IsIn page queue
      → length queue ≡ length s.resident_queue
      → r ≡ (t >>= λ x. done (found_one vm codec x))
      → Taking vm codec f (record s { resident_queue = queue }) m page entry t
      → TakesOne vm codec f s m r
  Taking-TakesOne page queue entry t r here waits same calls (took s' m' e h' at q) =
      took_one page entry s' m' here (calls ∙ ap (λ x. x >>= λ y. done (found_one vm codec y)) e) at
        (omega (arith, length-remove_first page queue waits, ap length q, same)) h'
  Taking-TakesOne page queue entry t r here waits same calls (refused x s' m' denied e h') =
      refused_one page x s' m' denied (calls ∙ ap (λ x. x >>= λ y. done (found_one vm codec y)) e)
        h'

  Found-TakesOne :
      Aligned s.entries
      → (r : Exec (Result ReclaimError Bool × (ReclaimPager × M))) → Found vm codec s m r
      → TakesOne vm codec f s m r
  Found-TakesOne aligned r w =
      let (entry, frame, found, state) =
        resident_entry vm good codec l (get s.entries w.page) w.here in
      let at = aligned w.page entry found in
      Taking-TakesOne w.page w.queue entry _ r w.here w.waits w.same_length w.calls (
        subst
          (λ x.
            Taking vm codec f (record s { resident_queue = w.queue }) m x entry
              (reclaim_page vm codec (record s { resident_queue = w.queue }) m w.page))
          at
          (reclaim_page_lem vm good codec l (record s { resident_queue = w.queue }) m f
            (queue-Holds vm good codec l s m f w.queue h) w.page frame entry
            (ap (get s.entries) at ∙ found) state))

  pub reclaim_one-TakesOne :
      (p : ℕ)
      → Placed s.entries s.resident_queue
      → is_resident (get s.entries p) ≡ true
      → TakesOne vm codec f s m (reclaim_one vm codec s m)
  reclaim_one-TakesOne p placed here = Found-TakesOne placed.aligned _ (
      rotate-Found vm codec (length s.resident_queue) s m s.resident_queue p refl
        (IsIn-take_all p s.resident_queue (placed.queued p here)) here)

-- What a run from a new pager leaves.
pub run-Placed :
    {M : Type 0} (vm : Vm M) (codec : Lz4Block) (m : M) (cs : List Call) (s' : ReclaimPager)
    (m' : M)
    → IsVm vm
    → IsLossless codec
    → run vm codec new m cs ≡ done (some (s', m'))
    → (f : Contents) × Holds vm codec s' m' f × Placed s'.entries s'.resident_queue
unfolding StepAfter
run-Placed {M} vm codec m cs s' m' good l e =
    let placed = subst (StepAfter vm codec) e (run-InQueue vm codec new m cs new-Placed) in
    elim (run-Keeps vm codec new m (λ p. none) cs good l (new-Holds vm codec m)) [
      | inl stuck ↦ absurd (not_both s' m' (sym stuck.stops ∙ e))
      | inr (s, m1, f, ends, h, kept) ↦ (
        f,
        subst (λ x. Holds vm codec x.0 x.1 f)
            (some_injective _ _ (done_injective _ _ (sym ends ∙ e))) h,
        placed,
      )
    ]
  where
    not_both :
        (s : ReclaimPager) (m : M)
        → ◌≡◌ {A = Exec (Option (ReclaimPager × M))} (done none) (done (some (s, m)))
        → ⊥
    not_both s m e = cc

-- From a new pager, whatever calls have come: as long as a page is in memory, `reclaim_one` comes back with
-- a page compressed that was in memory, unless the allocator refuses to unmap it, and no page loses its
-- bytes.
pub reclaim_one_lem :
    {M : Type 0} (vm : Vm M) (codec : Lz4Block) (m : M) (cs : List Call) (s' : ReclaimPager)
    (m' : M) (p : ℕ)
    → IsVm vm
    → IsLossless codec
    → run vm codec new m cs ≡ done (some (s', m'))
    → is_resident (get s'.entries p) ≡ true
    → (f : Contents) × Holds vm codec s' m' f
      × TakesOne vm codec f s' m' (reclaim_one vm codec s' m')
reclaim_one_lem vm codec m cs s' m' p good l e here =
    let (f, h, placed) = run-Placed vm codec m cs s' m' good l e in
    (f, h, reclaim_one-TakesOne vm good codec l s' m' f h p placed here)
