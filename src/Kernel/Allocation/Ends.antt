-- ===== src/Kernel/Allocation/Ends.antt =====
-- The loop of `allocate_frame` of kernel/allocator.rs ends: each turn takes a page out of memory.
use theos.Base.{
  ℕ, zero, suc, ◌<◌, ◌≡◌, inl, inr, refl, sym, ap, subst, ◌∙◌, arith, List, [], ◌∷◌, ◌++◌, length,
  Bool, true, false, Bool-cases, none, some, Exec, done, ◌>>=◌, Result, ok, err, result_cases,
  Option-cases,
}
use theos.Base.Maps.{get}
use theos.Zram.Device.{Lz4Block, IsLossless}
use theos.Kernel.Frames.{VmError, frame_allocation_failed}
use theos.Kernel.Reclaim.{
  new, ReclaimPager, ReclaimError, Vm, is_resident, reclaim_page, found_one, rotate, reclaim_one,
}
use theos.Kernel.Reclaim.Valid.{IsVm, Contents, Holds, Shows-kept}
use theos.Kernel.Reclaim.Calls.{Call, run}
use theos.Kernel.Reclaim.Steps.{queue-Holds}
use theos.Kernel.Reclaim.Queue.{IsIn, IsIn-rotated_back, Placed, search}
use theos.Kernel.Reclaim.After.{After}
use theos.Kernel.Reclaim.Progress.{rotate-InQueue}
use theos.Kernel.Reclaim.Found.{run-Placed, TakesOne, took_one, refused_one, reclaim_one-TakesOne}
use theos.Kernel.Allocation.{Allocation, reclaim_error_to_vm, allocate_frame}

module _ {M : Type 0} (vm : Vm M) (codec : Lz4Block) where
  -- Memory that shows the same pages.
  memory-Holds :
      (s : ReclaimPager) (m m' : M) (f : Contents)
      → ((q : ℕ) → vm.read_page m' q ≡ vm.read_page m q)
      → Holds vm codec s m f
      → Holds vm codec s m' f
  memory-Holds s m m' f same h = record {
    book = h.book;
    page = λ p bytes shown.
        let w = h.page p bytes shown in
        record {
          entry = w.entry;
          found = w.found;
          full = w.full;
          shows = Shows-kept vm codec s.backend m m' p w.entry w.entry.state bytes (same p) w.shows;
        };
    known = h.known;
  }

  rotate_empty :
      (n : ℕ) (s : ReclaimPager) (m : M)
      → s.resident_queue ≡ []
      → rotate vm codec (suc n) s m ≡ done (ok false, (s, m))
  unfolding rotate
  rotate_empty n s m e =
      ap
        (λ queue. elim queue [
          | [] ↦ done (ok false, (s, m))
          | page ∷ rest ↦
              let s1 = record s { resident_queue = rest ++ page ∷ [] } in
              elim (is_resident (get s.entries page)) [
                | true ↦ reclaim_page vm codec s1 m page >>= λ r. done (found_one vm codec r)
                | false ↦ rotate vm codec n s1 m
              ]
        ])
        e

module _ {M : Type 0} (vm : Vm M) (good : IsVm vm) (codec : Lz4Block) (l : IsLossless codec) where
  -- With no page in memory, the loop of `reclaim_one` turns the queue and finds none.
  rotate_none :
      (n : ℕ) (s : ReclaimPager) (m : M) (f : Contents) (queue : List ℕ)
      → Holds vm codec s m f
      → s.resident_queue ≡ queue
      → ((p : ℕ) → IsIn p queue → is_resident (get s.entries p) ≡ false)
      → (s' : ReclaimPager) × (rotate vm codec n s m ≡ done (ok false, (s', m)))
        × (s'.entries ≡ s.entries)
        × Holds vm codec s' m f
  unfolding rotate IsIn
  rotate_none zero s m f queue h e gone = (s, refl, refl, h)
  rotate_none (suc n) s m f [] h e gone = (s, rotate_empty vm codec n s m e, refl, h)
  rotate_none (suc n) s m f (x ∷ queue) h e gone =
      let s1 = record s { resident_queue = queue ++ x ∷ [] } in
      let (s', ends, same, h') =
        rotate_none n s1 m f (queue ++ x ∷ [])
          (queue-Holds vm good codec l s m f (queue ++ x ∷ []) h) refl
          λ p waits. gone p (IsIn-rotated_back p x queue waits) in
      (s', rw (e, gone x (inl refl), rotate) ends, same, h')

-- How `allocate_frame` ends: with a frame, with the error of the allocator, with nothing left in memory to
-- take, or with a page that the allocator refuses to unmap. No page loses its bytes.
module _ {M : Type 0} (vm : Vm M) (codec : Lz4Block) where
  pub data Allocates (f : Contents) (r : Allocation M) : Type 0 where
    given :
        (frame : ℕ) (s' : ReclaimPager) (m : M)
        → (vm.try_allocate_frame m).0 ≡ ok (some frame)
        → r ≡ done (some (ok frame), (s', (vm.try_allocate_frame m).1))
        → Holds vm codec s' (vm.try_allocate_frame m).1 f
        → Allocates f r
    not_ready :
        (e : VmError) (s' : ReclaimPager) (m : M)
        → (vm.try_allocate_frame m).0 ≡ err e
        → r ≡ done (some (err e), (s', (vm.try_allocate_frame m).1))
        → Holds vm codec s' (vm.try_allocate_frame m).1 f
        → Allocates f r
    nothing_left :
        (s' : ReclaimPager) (m' : M)
        → ((p : ℕ) → is_resident (get s'.entries p) ≡ false)
        → r ≡ done (some (err frame_allocation_failed), (s', m'))
        → Holds vm codec s' m' f
        → Allocates f r
    not_unmapped :
        (page : ℕ) (m : M) (e : VmError) (s' : ReclaimPager) (m' : M)
        → (vm.unmap_page m page).0 ≡ err e
        → r ≡ done (some (err e), (s', m'))
        → Holds vm codec s' m' f
        → Allocates f r

  -- What the loop does with the reply of `reclaim_one`.
  unfoldable turn : ℕ → Exec (Result ReclaimError Bool × (ReclaimPager × M)) → Allocation M
  turn n reclaimed = reclaimed >>= λ r. elim r.0 [
    | err e ↦ done (some (err (reclaim_error_to_vm e)), r.1)
    | ok found ↦ elim found [
      | true ↦ allocate_frame vm codec n r.1.0 r.1.1
      | false ↦ done (some (err frame_allocation_failed), r.1)
    ]
  ]

  allocate_frame-turn :
      (n : ℕ) (s : ReclaimPager) (m : M)
      → (vm.try_allocate_frame m).0 ≡ ok none
      → allocate_frame vm codec (suc n) s m
        ≡ turn n (reclaim_one vm codec s (vm.try_allocate_frame m).1)
  unfolding allocate_frame turn
  allocate_frame-turn n s m e = rw (e, allocate_frame) refl

-- The states from which the loop ends, with pages as they were.
module _ {M : Type 0} (vm : Vm M) (good : IsVm vm) (codec : Lz4Block) (l : IsLossless codec)
    (f : Contents) where
  -- The loop behind this turn.
  abbrev Later : ℕ → Type 0
  Later n =
      (s : ReclaimPager) (m : M)
      → length s.resident_queue < n
      → Placed s.entries s.resident_queue
      → Holds vm codec s m f
      → Allocates vm codec f (allocate_frame vm codec n s m)

  TakesOne-Allocates :
      (n : ℕ) (s : ReclaimPager) (m : M) (r : Exec (Result ReclaimError Bool × (ReclaimPager × M)))
      → length s.resident_queue < suc n
      → After r
      → Later n
      → TakesOne vm codec f s m r
      → Allocates vm codec f (turn vm codec n r)
  unfolding turn After
  TakesOne-Allocates n s m r fuel placed later (took_one page entry s' m' here e at less h) =
      subst (λ x. Allocates vm codec f (turn vm codec n x)) (sym e)
        (later s' m' (omega (arith, fuel, less)) (subst After e placed) h)
  TakesOne-Allocates n s m r fuel placed later (refused_one page x s' m' denied e h) =
      not_unmapped page m x s' m' denied (rw e refl) h

  turn-Allocates :
      (n : ℕ) (s : ReclaimPager) (m : M)
      → length s.resident_queue < suc n
      → Placed s.entries s.resident_queue
      → Holds vm codec s m f
      → Later n
      → Allocates vm codec f (turn vm codec n (reclaim_one vm codec s m))
  unfolding turn
  turn-Allocates n s m fuel placed h later = elim (search s.entries s.resident_queue) [
    | inl (p, here) ↦
        TakesOne-Allocates n s m _ fuel
          (rotate-InQueue vm codec (length s.resident_queue) s m placed) later
          (reclaim_one-TakesOne vm good codec l s m f h p placed here)
    | inr gone ↦
        let (s', e, entries, h') =
          rotate_none vm good codec l (length s.resident_queue) s m f s.resident_queue h refl
            gone in
        nothing_left s' m (λ p. none_here s s' entries placed gone p) (rw e refl) h'
  ]
    where
      none_here :
          (s s' : ReclaimPager)
          → s'.entries ≡ s.entries
          → Placed s.entries s.resident_queue
          → ((p : ℕ) → IsIn p s.resident_queue → is_resident (get s.entries p) ≡ false)
          → (p : ℕ) → is_resident (get s'.entries p) ≡ false
      none_here s s' entries placed gone p = elim (Bool-cases (is_resident (get s'.entries p))) [
        | inl here ↦
            subst (λ es. is_resident (get es p) ≡ false) (sym entries)
              (gone p (placed.queued p (subst (λ es. is_resident (get es p) ≡ true) entries here)))
        | inr away ↦ away
      ]

  loop_ends : (n : ℕ) → Later n
  unfolding allocate_frame
  loop_ends zero s m fuel placed h = absurd (omega (arith, fuel))
  loop_ends (suc n) s m fuel placed h =
      let h1 = memory-Holds vm codec s m (vm.try_allocate_frame m).1 f (good.try_other m) h in
      elim (result_cases (vm.try_allocate_frame m).0) [
        | inl (o, e) ↦ elim (Option-cases o) [
          | inl empty ↦
              subst (Allocates vm codec f)
                (sym (allocate_frame-turn vm codec n s m (e ∙ ap ok empty)))
                (turn-Allocates n s (vm.try_allocate_frame m).1 fuel placed h1 (loop_ends n))
          | inr (frame, there) ↦
              given frame s m (e ∙ ap ok there) (rw (e, there, allocate_frame) refl) h1
        ]
        | inr (x, e) ↦ not_ready x s m e (rw (e, allocate_frame) refl) h1
      ]

-- From a new pager, after whatever calls that have come back: the loop, with the pager's lock free, ends within
-- one turn more than pages wait in the queue. It gives a frame, or the error
-- of the allocation, or a page cannot be unmapped, or it fails because no page is left in memory. No page
-- loses its bytes.
pub allocate_frame_ends :
    {M : Type 0} (vm : Vm M) (codec : Lz4Block) (m : M) (cs : List Call) (s' : ReclaimPager)
    (m' : M) (n : ℕ)
    → IsVm vm
    → IsLossless codec
    → run vm codec new m cs ≡ done (some (s', m'))
    → length s'.resident_queue < n
    → (f : Contents) × Holds vm codec s' m' f
      × Allocates vm codec f (allocate_frame vm codec n s' m')
allocate_frame_ends vm codec m cs s' m' n good l e fuel =
    let (f, h, placed) = run-Placed vm codec m cs s' m' good l e in
    (f, h, loop_ends vm good codec l f n s' m' fuel placed h)
