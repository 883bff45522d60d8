-- ===== src/Kernel/Reclaim/Steps.antt =====
-- The calls of the pager of kernel/reclaim.rs on any address: none panics, and none changes what a page holds.
use theos.Base.{
  none, ◌⊎◌, ℕ, zero, suc, ◌≡◌, refl, ap, inl, inr, List, [], ◌∷◌, ◌++◌, Option-cases, Bool, true,
  false, Result, ok, err, Exec, done, ◌>>=◌,
}
use theos.Base.Maps.{get}
use theos.Zram.Device.{Lz4Block, IsLossless}
use theos.Kernel.Frames.{containing_address}
use theos.Kernel.Reclaim.{
  ReclaimPager, ReclaimEntry, ReclaimError, vm_error, Stop, fails, deadlock, EntryState, resident,
  compressed, Vm, is_resident, is_resident_state, reclaim_page, reclaim_entry, rotate, found_one,
  already_reclaimed, untracked_page, handle_page_fault, restore_entry,
}
use theos.Kernel.Reclaim.Valid.{IsVm, Contents, Holds}
use theos.Kernel.Reclaim.Taken.{Taking, took, refused, reclaim_page_lem}
use theos.Kernel.Reclaim.Restored as Restored
use theos.Kernel.Reclaim.Restored.{Restoring, back, stuck, handle_page_fault_lem}

pub state_cases : (st : EntryState) → ((frame : ℕ) × (st ≡ resident frame)) ⊎ (st ≡ compressed)
state_cases (resident frame) = inl (frame, refl)
state_cases compressed = inr refl

module _ {M : Type 0} (vm : Vm M) (codec : Lz4Block) where
  -- A run that comes back, and leaves every page its bytes.
  pub record Steps {A : Type 0} (f : Contents) (run : Exec (A × (ReclaimPager × M))) : Type 0 where
    pub reply : A
    pub pager : ReclaimPager
    pub memory : M
    pub ends : run ≡ done (reply, (pager, memory))
    pub holds : Holds vm codec pager memory f

  -- A fault in the memory `m`, which leaves every page its bytes: it waits for ever only when no frame is free.
  pub record Waits (f : Contents) (m : M)
      (run : Exec (Result (Stop ReclaimError) Bool × (ReclaimPager × M))) : Type 0 where
    pub reply : Result (Stop ReclaimError) Bool
    pub pager : ReclaimPager
    pub memory : M
    pub ends : run ≡ done (reply, (pager, memory))
    pub holds : Holds vm codec pager memory f
    pub starved : reply ≡ err deadlock → (vm.try_allocate_frame m).0 ≡ ok none

module _ {M : Type 0} (vm : Vm M) (good : IsVm vm) (codec : Lz4Block) (l : IsLossless codec) where
  -- The order of the queue says nothing of the pages.
  pub queue-Holds :
      (s : ReclaimPager) (m : M) (f : Contents) (q : List ℕ)
      → Holds vm codec s m f
      → Holds vm codec (record s { resident_queue = q }) m f
  queue-Holds s m f q h = record { book = h.book; page = h.page; known = h.known }

  Taking-Steps :
      (f : Contents) (s : ReclaimPager) (m : M) (p : ℕ) (entry : ReclaimEntry)
      (r : Exec (Result ReclaimError (Unit {0}) × (ReclaimPager × M)))
      → Taking vm codec f s m p entry r
      → Steps vm codec f r
  Taking-Steps f s m p entry r (took s' m' e h at q) = record {
    reply = ok tt;
    pager = s';
    memory = m';
    ends = e;
    holds = h;
  }
  Taking-Steps f s m p entry r (refused x s' m' no_frame e h) = record {
    reply = _;
    pager = s';
    memory = m';
    ends = e;
    holds = h;
  }

  Restoring-Waits :
      (f : Contents) (s : ReclaimPager) (m : M) (p : ℕ) (entry : ReclaimEntry)
      (r : Exec (Result (Stop ReclaimError) Bool × (ReclaimPager × M)))
      → Restoring vm codec f s m p entry r
      → Waits vm codec f m r
  Restoring-Waits f s m p entry r (back frame s' m' e h at shown) = record {
    reply = ok true;
    pager = s';
    memory = m';
    ends = e;
    holds = h;
    starved = λ d. cc;
  }
  Restoring-Waits f s m p entry r (Restored.refused x s' m' no_frame e h at) = record {
    reply = err (fails (vm_error x));
    pager = s';
    memory = m';
    ends = e;
    holds = h;
    starved = λ d. cc;
  }
  Restoring-Waits f s m p entry r (stuck s' m' no_frame e h at) = record {
    reply = err deadlock;
    pager = s';
    memory = m';
    ends = e;
    holds = h;
    starved = λ d. no_frame;
  }

  -- A fault that has nothing to do.
  quiet-Waits :
      (s : ReclaimPager) (m : M) (f : Contents)
      (run : Exec (Result (Stop ReclaimError) Bool × (ReclaimPager × M)))
      → Holds vm codec s m f
      → run ≡ done (ok false, (s, m))
      → Waits vm codec f m run
  quiet-Waits s m f run h e = record {
    reply = ok false;
    pager = s;
    memory = m;
    ends = e;
    holds = h;
    starved = λ d. cc;
  }

  -- A call that comes back at once.
  unchanged-Steps :
      {A : Type 0} (s : ReclaimPager) (m : M) (f : Contents) (run : Exec (A × (ReclaimPager × M)))
      (reply : A)
      → Holds vm codec s m f
      → run ≡ done (reply, (s, m))
      → Steps vm codec f run
  unchanged-Steps s m f run reply h e = record {
    reply = reply;
    pager = s;
    memory = m;
    ends = e;
    holds = h;
  }

  -- `reclaim_page` on any address.
  pub reclaim_page-Steps :
      (s : ReclaimPager) (m : M) (f : Contents) (addr : ℕ)
      → Holds vm codec s m f
      → Steps vm codec f (reclaim_page vm codec s m addr)
  unfolding reclaim_page reclaim_entry
  reclaim_page-Steps s m f addr h =
      let page = containing_address addr in
      elim (Option-cases (get s.entries page)) [
        | inl absent ↦
            unchanged-Steps s m f _ (err untracked_page) h (rw (absent, reclaim_page) refl)
        | inr (entry, found) ↦ elim (state_cases entry.state) [
          | inl (frame, state) ↦
              Taking-Steps f s m page entry _
                (reclaim_page_lem vm good codec l s m f h addr frame entry found state)
          | inr state ↦
              unchanged-Steps s m f _ (err already_reclaimed) h
                (rw (found, reclaim_page) (ap (reclaim_entry vm codec s m page entry) state))
        ]
      ]

  pub handle_page_fault-Waits :
      (s : ReclaimPager) (m : M) (f : Contents) (addr : ℕ)
      → Holds vm codec s m f
      → Waits vm codec f m (handle_page_fault vm codec s m addr)
  unfolding handle_page_fault
  handle_page_fault-Waits s m f addr h =
      let page = containing_address addr in
      elim (Option-cases (get s.entries page)) [
        | inl absent ↦ quiet-Waits s m f _ h (rw (absent, handle_page_fault) refl)
        | inr (entry, found) ↦ elim (state_cases entry.state) [
          | inl (frame, state) ↦ quiet-Waits s m f _ h (
              rw (found, handle_page_fault)
                (ap
                  (λ st. elim (is_resident_state st) [
                    | true ↦ done (ok false, (s, m))
                    | false ↦ restore_entry vm codec s m page entry
                  ])
                  state))
          | inr state ↦
              Restoring-Waits f s m page entry _
                (handle_page_fault_lem vm codec s m f addr entry good h found state)
        ]
      ]

  found_one_lem :
      (r : Result ReclaimError (Unit {0})) (sm : ReclaimPager × M)
      → found_one vm codec (r, sm) ≡ ((found_one vm codec (r, sm)).0, sm)
  found_one_lem (ok _) sm = refl
  found_one_lem (err e) sm = refl

  found_one-Steps :
      (f : Contents) (r : Exec (Result ReclaimError (Unit {0}) × (ReclaimPager × M)))
      → Steps vm codec f r
      → Steps vm codec f (r >>= λ x. done (found_one vm codec x))
  found_one-Steps f r w = record {
    reply = (found_one vm codec (w.reply, (w.pager, w.memory))).0;
    pager = w.pager;
    memory = w.memory;
    ends = rw w.ends (ap done (found_one_lem w.reply (w.pager, w.memory)));
    holds = w.holds;
  }

  pub rotate-Steps :
      (n : ℕ) (s : ReclaimPager) (m : M) (f : Contents)
      → Holds vm codec s m f
      → Steps vm codec f (rotate vm codec n s m)
  unfolding rotate
  rotate-Steps zero s m f h = record { reply = _; pager = s; memory = m; ends = refl; holds = h }
  rotate-Steps (suc n) s m f h =
      elim s.resident_queue
        as (λ queue. Steps vm codec f (elim queue [
          | [] ↦ done (ok false, (s, m))
          | page ∷ rest ↦ elim (is_resident (get s.entries page)) [
            | true ↦
                reclaim_page vm codec (record s { resident_queue = rest ++ page ∷ [] }) m page
                >>= λ r. done (found_one vm codec r)
            | false ↦ rotate vm codec n (record s { resident_queue = rest ++ page ∷ [] }) m
          ]
        ])) [
          | [] ↦ record { reply = _; pager = s; memory = m; ends = refl; holds = h }
          | page ∷ rest ↦
              let h1 = queue-Holds s m f (rest ++ page ∷ []) h in
              either (is_resident (get s.entries page)) _ _
                (found_one-Steps f _ (reclaim_page-Steps _ m f page h1)) (rotate-Steps n _ m f h1)
        ]
    where
      either :
          (b : Bool) (x y : Exec (Result ReclaimError Bool × (ReclaimPager × M)))
          → Steps vm codec f x
          → Steps vm codec f y
          → Steps vm codec f (elim b [ true ↦ x | false ↦ y ])
      either true x y p q = p
      either false x y p q = q
