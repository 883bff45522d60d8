-- ===== src/Kernel/Vfs/Kept.antt =====
-- The state after a call on kernel/vfs.rs: right counts of the pipes, and one number of a pipe used at most.
use theos.Base.{
  ℕ, ◌+◌, ◌≤◌, ◌<◌, ◌≡◌, refl, ap, arith, Bool, true, false, none, some, List, Exec, done, panic,
  ◌>>=◌,
}
use theos.Base.Int.{ℤ}
use theos.Base.Text.{Bytes}
use theos.Kernel.Vfs.Ends.{end_at}
use theos.Kernel.Vfs.Pipes.{release_special}
use theos.Kernel.Vfs.{Vfs, OpenFile, SpecialFd}
use theos.Kernel.Vfs.Files.{special_named, place, close}
use theos.Kernel.Vfs.Pipes.{create_pipe, read_pipe, write_pipe}
use theos.Kernel.Vfs.Wired.{IsWired}
use theos.Kernel.Vfs.Calls.{}

-- Right counts, and at most one number of a pipe used.
pub data Kept (v : Vfs) (u : Vfs) : Type 0 where
  kept : IsWired u → u.next_pipe_id ≤ v.next_pipe_id + 1 → Kept v u

-- The same of a call that may panic.
abbrev pub KeptBy {ℓ} : {A : Type ℓ} → Vfs → Exec (A × Vfs) → Type 0
KeptBy v panic = Unit
KeptBy v (done x) = Kept v x.1

abbrev pub KeptAfter : Vfs → Exec Vfs → Type 0
KeptAfter v panic = Unit
KeptAfter v (done u) = Kept v u

pub without_result :
    {A : Type 0} (v : Vfs) (r : Exec (A × Vfs)) → KeptBy v r → KeptAfter v (r >>= λ x. done x.1)
without_result v panic k = tt
without_result v (done x) k = k

pub done_inj : {v u : Vfs} → done v ≡ done u → v ≡ u
done_inj {v} e = ap content e
  where
    content : Exec Vfs → Vfs
    content (done u) = u
    content panic = v

pub next-create_pipe :
    (v : Vfs)
    → v.next_pipe_id + 1 < 4294967296
    → (create_pipe v).1.next_pipe_id ≤ v.next_pipe_id + 1
unfolding create_pipe
next-create_pipe v h = ground arith

pub next-read_pipe : (v : Vfs) (id n : ℕ) → (read_pipe v id n).1.next_pipe_id ≤ v.next_pipe_id + 1
unfolding read_pipe
next-read_pipe v id n = ground arith

pub next-write_pipe :
    (v : Vfs) (id : ℕ) (bytes : List ℕ)
    → (write_pipe v id bytes).1.next_pipe_id ≤ v.next_pipe_id + 1
unfolding write_pipe
next-write_pipe v id bytes = ground arith

pub next-place : (v : Vfs) (f : OpenFile) → (place v f).1.next_pipe_id ≤ v.next_pipe_id + 1
next-place v f = ground arith

pub next-close : (v : Vfs) (fd : ℤ) → (close v fd).1.next_pipe_id ≤ v.next_pipe_id + 1
unfolding close release_special
next-close v fd = ground arith

pub special_named-plain :
    (path : Bytes) (special : SpecialFd)
    → special_named path ≡ some special
    → (side : Bool) (id : ℕ) → end_at side id (some special) ≡ 0
special_named-plain path special e side id = ground arith

pub none-plain : (side : Bool) (id : ℕ) → end_at side id none ≡ 0
none-plain true id = refl
none-plain false id = refl
