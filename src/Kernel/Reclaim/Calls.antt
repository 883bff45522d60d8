-- ===== src/Kernel/Reclaim/Calls.antt =====
-- Sequences of calls on the pager of kernel/reclaim.rs, with the programs that store to their pages.
use theos.Base.{
  ◌<◌, ◌+◌, ◌*◌, ◌++◌, Result, ok, err, if◌then◌else◌, ℕ, ◌≡◌, ◌≢◌, refl, List, [], ◌∷◌, length,
  Option, some, none, Bool, true, false, ◌&&◌, Exec, done, ◌>>=◌, ◌==◌,
}
use theos.Base.Maps.{get}
use theos.Zram.Types.{page_size}
use theos.Zram.Device.{Lz4Block}
use theos.Kernel.Reclaim.{
  ReclaimError, Stop, fails, deadlock, reclaim_start, ReclaimPager, Vm, is_resident,
  allocate_region, reclaim_page, reclaim_one, handle_page_fault,
}
use theos.Kernel.Reclaim.Valid.{}
use theos.Kernel.Reclaim.Steps.{}
use theos.Kernel.Reclaim.Starved.{StarvedBehind}

-- A call of the kernel, or a program that fills a page.
pub data Call : Type 0 where
  allocate reclaim fault : ℕ → Call
  reclaim_next : Call
  fill_page : ℕ → List ℕ → Call

pub and-true : (a b : Bool) → (a && b) ≡ true → (a ≡ true) × (b ≡ true)
and-true true b h = (refl, h)
and-true false b h = cc

module _ {M : Type 0} (vm : Vm M) (codec : Lz4Block) where
  -- A program stores to a page that is in memory; a page that is not is a fault, which is a call of its own.
  unfoldable pub fill_resident : ReclaimPager → M → ℕ → List ℕ → M
  fill_resident s m p bytes =
      if is_resident (get s.entries p) && length bytes == page_size
      then vm.write_page m p bytes
      else m

  abbrev pub state_of :
      {A : Type 0} → Exec (A × (ReclaimPager × M)) → Exec (Option (ReclaimPager × M))
  state_of run = run >>= λ r. done (some r.1)

  -- Nothing is behind a call that waits for ever.
  abbrev pub unless_deadlock :
      {A : Type 0} → Result (Stop ReclaimError) A × (ReclaimPager × M) → Option (ReclaimPager × M)
  unless_deadlock (ok a, sm) = some sm
  unless_deadlock (err (fails e), sm) = some sm
  unless_deadlock (err deadlock, sm) = none

  unfoldable pub step : ReclaimPager → M → Call → Exec (Option (ReclaimPager × M))
  step s m (allocate n) = done (unless_deadlock (allocate_region vm s m n))
  step s m (reclaim addr) = state_of (reclaim_page vm codec s m addr)
  step s m (fault addr) = handle_page_fault vm codec s m addr >>= λ r. done (unless_deadlock r)
  step s m reclaim_next = state_of (reclaim_one vm codec s m)
  step s m (fill_page p bytes) = done (some (s, fill_resident s m p bytes))

  -- `none` is a run that has come to a call that waits for ever.
  unfoldable pub run : ReclaimPager → M → List Call → Exec (Option (ReclaimPager × M))
  run s m [] = done (some (s, m))
  run s m (c ∷ cs) = step s m c >>= λ o. elim o [ none ↦ done none | some r ↦ run r.0 r.1 cs ]

-- The pages that a call does not store to.
abbrev pub Untouched : ℕ → Call → Type 0
Untouched q (fill_page p bytes) = p ≢ q
Untouched q (allocate n) = Unit {0}
Untouched q (reclaim addr) = Unit {0}
Untouched q (fault addr) = Unit {0}
Untouched q reclaim_next = Unit {0}

abbrev pub AllUntouched : ℕ → List Call → Type 0
AllUntouched q [] = Unit {0}
AllUntouched q (c ∷ cs) = Untouched q c × AllUntouched q cs

-- Where a call waits for ever: a fault while no frame is free, or an allocation behind the first pages of
-- its region.
module _ {M : Type 0} (vm : Vm M) where
  abbrev pub Starved : ReclaimPager → M → Call → Type 0
  Starved s m (fault addr) = (vm.try_allocate_frame m).0 ≡ ok none
  Starved s m (allocate n) =
      (k : ℕ) × (k < n) × StarvedBehind vm k 0 (reclaim_start + s.next_region_page * page_size) s m
  Starved s m (reclaim addr) = ⊥
  Starved s m reclaim_next = ⊥
  Starved s m (fill_page p bytes) = ⊥

  -- A run that has come to such a call, and stays there.
  pub record Stuck (codec : Lz4Block) (s : ReclaimPager) (m : M) (cs : List Call) : Type 0 where
    pub before : List Call
    pub last : Call
    pub rest : List Call
    pub split : cs ≡ before ++ last ∷ rest
    pub pager : ReclaimPager
    pub memory : M
    pub reached : run vm codec s m before ≡ done (some (pager, memory))
    pub starved : Starved pager memory last
    pub stops : run vm codec s m cs ≡ done none
