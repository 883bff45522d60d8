-- ===== src/Kernel/Reclaim/Runs.antt =====
-- The pager of kernel/reclaim.rs under sequences of calls: its pages keep their bytes.
use theos.Base.{
  ◌⊎◌, ap, Result, ok, err, ℕ, ◌≡◌, refl, sym, subst, ◌∙◌, inl, inr, List, [], ◌∷◌, length, Option,
  some, none, Bool, true, Bool-cases, ◌&&◌, Exec, done, ◌>>=◌, ◌==◌, ==_iff,
}
use theos.Base.Maps.{get}
use theos.Zram.Types.{page_size}
use theos.Zram.Device.{Lz4Block, IsLossless}
use theos.Kernel.Reclaim.{
  ReclaimError, Stop, fails, deadlock, ReclaimPager, ReclaimEntry, EntryState, resident, compressed,
  Vm, is_resident, is_resident_state, allocate_region,
}
use theos.Kernel.Reclaim.Changed.{Moved-Holds_new}
use theos.Kernel.Reclaim.Valid.{
  IsVm, Contents, with_page, with_page_self, with_page_other, Shows, Holds,
}
use theos.Kernel.Reclaim.Steps.{
  Steps, state_cases, reclaim_page-Steps, Waits, handle_page_fault-Waits, rotate-Steps,
}
use theos.Kernel.Reclaim.Grown.{allocate_region-Grows}
use theos.Kernel.Reclaim.Starved.{allocate_region-starved}
use theos.Kernel.Reclaim.Calls.{
  Call, allocate, reclaim, fault, reclaim_next, fill_page, and-true, fill_resident, state_of,
  unless_deadlock, step, run, Untouched, AllUntouched, Starved, Stuck,
}

module _ {M : Type 0} (vm : Vm M) (good : IsVm vm) (codec : Lz4Block) (l : IsLossless codec) where
  pub resident_entry :
      (o : Option ReclaimEntry)
      → is_resident o ≡ true
      → (e : ReclaimEntry) × (frame : ℕ) × (o ≡ some e) × (e.state ≡ resident frame)
  resident_entry none here = cc
  resident_entry (some e) here = elim (state_cases e.state) [
    | inl (frame, state) ↦ (e, frame, refl, state)
    | inr state ↦ absurd (not_both e.state state here)
  ]
    where
      not_both : (st : EntryState) → st ≡ compressed → is_resident_state st ≡ true → ⊥
      not_both st gone here = cc

  -- A program's store changes its page, if that is in memory, and no other.
  fill_page-Holds :
      (s : ReclaimPager) (m : M) (f : Contents) (p : ℕ) (bytes : List ℕ)
      → Holds vm codec s m f
      → is_resident (get s.entries p) ≡ true
      → length bytes ≡ page_size
      → Holds vm codec s (vm.write_page m p bytes) (with_page f p bytes)
  unfolding Shows
  fill_page-Holds s m f p bytes h here full =
      let (entry, frame, found, state) = resident_entry (get s.entries p) here in
      Moved-Holds_new vm codec s s m (vm.write_page m p bytes) f p entry entry bytes h found
        (record {
          valid = h.book.valid;
          max = h.book.max;
          here = found;
          there = λ q apart. refl;
          same_index = refl;
          shows =
              subst (λ st. Shows vm codec s.backend (vm.write_page m p bytes) p entry st bytes)
                (sym state) (good.write_here m p bytes full);
          reads = λ q apart. good.write_other m p q bytes apart;
          keeps = λ i bs apart c. c;
          same_region = refl;
          same_backend = refl;
        })
        full

  -- A call ends with the pages as they were, but for a program's own store, or waits for ever.
  data Keeps (f : Contents) (s : ReclaimPager) (m : M) (c : Call)
      (r : Exec (Option (ReclaimPager × M))) : Type 0 where
    keeps :
        (pager : ReclaimPager) (memory : M) (contents : Contents)
        → r ≡ done (some (pager, memory))
        → Holds vm codec pager memory contents
        → ((p : ℕ) (bytes : List ℕ) → Untouched p c → f p ≡ some bytes → contents p ≡ some bytes)
        → Keeps f s m c r
    starves : Starved vm s m c → r ≡ done none → Keeps f s m c r

  Steps-Keeps :
      {A : Type 0} (f : Contents) (s : ReclaimPager) (m : M) (c : Call)
      (r : Exec (A × (ReclaimPager × M)))
      → Steps vm codec f r
      → Keeps f s m c (state_of vm codec r)
  Steps-Keeps f s m c r w = keeps w.pager w.memory f (rw w.ends refl) w.holds (λ p bytes free e. e)

  reply_cases :
      {A : Type 0} (r : Result (Stop ReclaimError) A) (s : ReclaimPager) (m : M)
      → (unless_deadlock vm codec (r, (s, m)) ≡ some (s, m))
        ⊎ ((r ≡ err deadlock) × (unless_deadlock vm codec (r, (s, m)) ≡ none))
  reply_cases (ok a) s m = inl refl
  reply_cases (err (fails e)) s m = inl refl
  reply_cases (err deadlock) s m = inr (refl, refl)

  fault-Keeps :
      (f : Contents) (s : ReclaimPager) (m : M) (addr : ℕ)
      (r : Exec (Result (Stop ReclaimError) Bool × (ReclaimPager × M)))
      → Waits vm codec f m r
      → Keeps f s m (fault addr) (r >>= λ x. done (unless_deadlock vm codec x))
  fault-Keeps f s m addr r w = elim (reply_cases w.reply w.pager w.memory) [
    | inl back ↦ keeps w.pager w.memory f (rw w.ends (ap done back)) w.holds (λ p bytes free e. e)
    | inr (d, waits) ↦ starves (w.starved d) (rw w.ends (ap done waits))
  ]

  allocate-Keeps :
      (f : Contents) (s : ReclaimPager) (m : M) (n : ℕ)
      → Holds vm codec s m f
      → Keeps f s m (allocate n) (done (unless_deadlock vm codec (allocate_region vm s m n)))
  allocate-Keeps f s m n h =
      let g = allocate_region-Grows vm codec s m f n good h in
      let r = allocate_region vm s m n in
      elim (reply_cases r.0 r.1.0 r.1.1) [
        | inl back ↦
            keeps r.1.0 r.1.1 g.contents (ap done back) g.holds
              (λ p bytes free e. g.extends p bytes e)
        | inr (d, waits) ↦ starves (allocate_region-starved vm s m n good d) (ap done waits)
      ]

  fill_page-Keeps :
      (s : ReclaimPager) (m : M) (f : Contents) (p : ℕ) (bytes : List ℕ)
      → Holds vm codec s m f
      → Keeps f s m (fill_page p bytes) (done (some (s, fill_resident vm codec s m p bytes)))
  unfolding fill_resident
  fill_page-Keeps s m f p bytes h =
      elim (Bool-cases (is_resident (get s.entries p) && length bytes == page_size)) [
        | inl fits ↦
            let both = and-true _ _ fits in
            keeps s (vm.write_page m p bytes) (with_page f p bytes) (rw (fits, fill_resident) refl)
              (fill_page-Holds s m f p bytes h both.0 ((==_iff (length bytes) page_size).0 both.1))
              (λ q bs free e. with_page_other f p q bytes free ∙ e)
        | inr other ↦ keeps s m f (rw (other, fill_resident) refl) h (λ q bs free e. e)
      ]

  step-Keeps :
      (s : ReclaimPager) (m : M) (f : Contents) (c : Call)
      → Holds vm codec s m f
      → Keeps f s m c (step vm codec s m c)
  unfolding step
  step-Keeps s m f (allocate n) h = allocate-Keeps f s m n h
  step-Keeps s m f (reclaim addr) h =
      Steps-Keeps f s m (reclaim addr) _ (reclaim_page-Steps vm good codec l s m f addr h)
  step-Keeps s m f (fault addr) h =
      fault-Keeps f s m addr _ (handle_page_fault-Waits vm good codec l s m f addr h)
  step-Keeps s m f reclaim_next h =
      Steps-Keeps f s m reclaim_next _ (rotate-Steps vm good codec l _ s m f h)
  step-Keeps s m f (fill_page p bytes) h = fill_page-Keeps s m f p bytes h

  Stuck-here :
      (s : ReclaimPager) (m : M) (c : Call) (cs : List Call)
      → Starved vm s m c
      → step vm codec s m c ≡ done none
      → Stuck vm codec s m (c ∷ cs)
  unfolding run
  Stuck-here s m c cs starved e = record {
    before = [];
    last = c;
    rest = cs;
    split = refl;
    pager = s;
    memory = m;
    reached = refl;
    starved = starved;
    stops = rw e refl;
  }

  Stuck-later :
      (s s1 : ReclaimPager) (m m1 : M) (c : Call) (cs : List Call)
      → step vm codec s m c ≡ done (some (s1, m1))
      → Stuck vm codec s1 m1 cs
      → Stuck vm codec s m (c ∷ cs)
  unfolding run
  Stuck-later s s1 m m1 c cs e w = record {
    before = c ∷ w.before;
    last = w.last;
    rest = w.rest;
    split = ap (◌∷◌ c) w.split;
    pager = w.pager;
    memory = w.memory;
    reached = rw e w.reached;
    starved = w.starved;
    stops = rw e w.stops;
  }

-- From any pager that holds some pages, no sequence of calls panics. It comes back, and a page that no program has
-- stored to meanwhile holds the bytes that it held; or it comes to a fault, or to an allocation of a region, at a
-- moment when no frame is free, and that call waits for ever for the pager's lock, which it holds.
pub run-Keeps :
    {M : Type 0} (vm : Vm M) (codec : Lz4Block) (s : ReclaimPager) (m : M) (f : Contents)
    (cs : List Call)
    → IsVm vm
    → IsLossless codec
    → Holds vm codec s m f
    → Stuck vm codec s m cs
      ⊎ ((s' : ReclaimPager) × (m' : M) × (f' : Contents) × (run vm codec s m cs
            ≡ done (some (s', m')))
          × Holds vm codec s' m' f'
          × ((p : ℕ) (bytes : List ℕ) → AllUntouched p cs → f p ≡ some bytes → f' p ≡ some bytes))
unfolding run
run-Keeps vm codec s m f [] good l h = inr (s, m, f, refl, h, λ p bytes free e. e)
run-Keeps vm codec s m f (c ∷ cs) good l h = elim (step-Keeps vm good codec l s m f c h) [
  | starves starved e ↦ inl (Stuck-here vm good codec l s m c cs starved e)
  | keeps s1 m1 f1 e h1 kept1 ↦ elim (run-Keeps vm codec s1 m1 f1 cs good l h1) [
    | inl stuck ↦ inl (Stuck-later vm good codec l s s1 m m1 c cs e stuck)
    | inr (s', m', f', e', h', kept) ↦ inr (
      s',
      m',
      f',
      rw (e, e') refl,
      h',
      λ p bytes free at. kept p bytes free.1 (kept1 p bytes free.0 at),
    )
  ]
]

-- A program stores to a page that is in memory, and whatever calls come then, with no other store to that page:
-- they come back without a panic and the page holds what was stored, in memory or compressed, or the run is stuck
-- in a fault or an allocation of a region at a moment when no frame is free.
pub stored_kept :
    {M : Type 0} (vm : Vm M) (codec : Lz4Block) (s : ReclaimPager) (m : M) (f : Contents)
    (cs : List Call) (p : ℕ) (bytes : List ℕ)
    → IsVm vm
    → IsLossless codec
    → Holds vm codec s m f
    → is_resident (get s.entries p) ≡ true
    → length bytes ≡ page_size
    → AllUntouched p cs
    → Stuck vm codec s m (fill_page p bytes ∷ cs)
      ⊎ ((s' : ReclaimPager) × (m' : M) × (f' : Contents) × (run vm codec s m
              (fill_page p bytes ∷ cs)
            ≡ done (some (s', m')))
          × Holds vm codec s' m' f'
          × (f' p ≡ some bytes))
unfolding run step fill_resident
stored_kept vm codec s m f cs p bytes good l h here full free =
    let m1 = vm.write_page m p bytes in
    let stored : step vm codec s m (fill_page p bytes) ≡ done (some (s, m1)) =
      rw (here, (==_iff (length bytes) page_size).1 full) refl in
    elim (run-Keeps vm codec s m1 (with_page f p bytes) cs good l
      (fill_page-Holds vm good codec l s m f p bytes h here full)) [
        | inl stuck ↦ inl (Stuck-later vm good codec l s s m m1 (fill_page p bytes) cs stored stuck)
        | inr (s', m', f', e, h', kept) ↦ inr (
          s',
          m',
          f',
          rw (here, (==_iff (length bytes) page_size).1 full) e,
          h',
          kept p bytes free (with_page_self f p p bytes refl),
        )
      ]
