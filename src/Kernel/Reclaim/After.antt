-- ===== src/Kernel/Reclaim/After.antt =====
-- The runs of the pager of kernel/reclaim.rs that leave every page in memory in the queue.
use theos.Base.{Result, ok, err, Exec, done, panic, ◌>>=◌, try, attempt}
use theos.Kernel.Reclaim.{ReclaimPager}
use theos.Kernel.Reclaim.Queue.{Placed}

-- Every resident page of the pager is in its queue, and its pages have the addresses of pages.
abbrev pub InQueue : ReclaimPager → Type 0
InQueue s = Placed s.entries s.resident_queue

-- A run that comes back keeps the property.
unfoldable pub After : {A M : Type 0} → Exec (A × (ReclaimPager × M)) → Type 0
After (done (a, (s, m))) = InQueue s
After panic = Unit {0}

pub After-try :
    {E A B M : Type 0} (r : Result E A) (s : ReclaimPager) (m : M)
    (k : A → Exec (Result E B × (ReclaimPager × M)))
    → InQueue s
    → ((a : A) → After (k a))
    → After (try r (s, m) k)
unfolding After
After-try (ok a) s m k h hk = hk a
After-try (err e) s m k h hk = h

pub After-attempt :
    {E A B M : Type 0} (r : Result E A) (s : ReclaimPager) (m : M)
    (k : A → Result E B × (ReclaimPager × M))
    → InQueue s
    → ((a : A) → InQueue (k a).1.0)
    → InQueue (attempt r (s, m) k).1.0
After-attempt (ok a) s m k h hk = hk a
After-attempt (err e) s m k h hk = h

pub After-bind :
    {A B M : Type 0} (x : Exec A) (k : A → Exec (B × (ReclaimPager × M)))
    → ((a : A) → After (k a))
    → After (x >>= k)
unfolding After
After-bind (done a) k hk = hk a
After-bind panic k hk = tt
