-- ===== src/Kernel/Vfs/Mounted/Ready.antt =====
-- `read` and `write` of kernel/vfs.rs on an end of a pipe come back by the time that polling it shows an event.
use theos.Base.{
  some_injective, arith, ℕ, ◌≤◌, ◌<◌, ◌≡◌, ◌≢◌, refl, sym, ap, subst, ◌∙◌, List, [], ◌∷◌, Bool,
  true, false, Bool-cases, inl, inr, Option, none, some, Exec, done, panic, Result, ok, err,
}
use theos.Base.Maps.{get}
use theos.Base.Int.{ℤ}
use theos.Kernel.Vfs.{
  Vfs, VfsError, would_block, FileSystem, OpenFile, Pipe, file, pipe_read, pipe_write,
}
use theos.Kernel.Vfs.Files as Files
use theos.Kernel.Vfs.Files.{Console}
use theos.Kernel.Vfs.Stat.{poll_mask}
use theos.Kernel.Vfs.Polling.{outcome, Blocks, pipe_of_end, poll_mask-would_block}
use theos.Kernel.Vfs.Mounted as Mounted
use theos.Kernel.Vfs.Mounted.{put_back, with_vfs, is_would_block}
use theos.Kernel.Vfs.Mounted.Waiting.{waits, answer, after_waits, retry-ends}
use theos.Kernel.Vfs.Mounted.Leaves.{read-waits, write-waits}

reply_of : {A : Type 0} → Exec (Result VfsError A × Option Vfs) → Option (Result VfsError A)
reply_of panic = none
reply_of (done (r, s)) = some r

outcome-put_back :
    {A : Type 0} (r : Exec (Result VfsError A × Vfs)) → outcome r ≡ reply_of (put_back r)
unfolding reply_of
outcome-put_back panic = refl
outcome-put_back (done (r, v)) = refl

-- A read that waits, on the reading end of a pipe, waits without an event.
read-quiet :
    (fs : FileSystem) (con : Console) (fd : ℤ) (len : ℕ) (u : Vfs) (of : OpenFile) (id : ℕ)
    (p : Pipe) (has_input : Bool)
    → file u fd ≡ ok of
    → of.special ≡ some (pipe_read id)
    → get u.pipes id ≡ some p
    → len ≢ 0
    → waits (with_vfs (λ v. Files.read fs con v fd len) (some u)) ≡ true
    → poll_mask u has_input fd ≡ ok 0
unfolding reply_of
read-quiet fs con fd len u of id p has_input opened special e h wait =
    let blocked : outcome (Files.read fs con u fd len) ≡ some (err would_block) =
      outcome-put_back (Files.read fs con u fd len)
      ∙ ap reply_of (read-waits fs con fd len (some u) wait) in
    (poll_mask-would_block fs con u has_input fd of id len (0 ∷ []) p opened
        (ap pipe_of_end special) e h cc).1
      (subst (λ o. Blocks fs con u fd o len (0 ∷ [])) (sym special) blocked)

write-quiet :
    (fs : FileSystem) (con : Console) (fd : ℤ) (bytes : List ℕ) (u : Vfs) (of : OpenFile) (id : ℕ)
    (p : Pipe) (has_input : Bool)
    → file u fd ≡ ok of
    → of.special ≡ some (pipe_write id)
    → get u.pipes id ≡ some p
    → bytes ≢ []
    → waits (with_vfs (λ v. done (Files.write v fd bytes)) (some u)) ≡ true
    → poll_mask u has_input fd ≡ ok 0
unfolding reply_of
write-quiet fs con fd bytes u of id p has_input opened special e h wait =
    let blocked : (Files.write u fd bytes).0 ≡ err would_block = some_injective _ _ (
      outcome-put_back (done (Files.write u fd bytes))
      ∙ ap reply_of (write-waits fd bytes (some u) wait)) in
    (poll_mask-would_block fs con u has_input fd of id 1 bytes p opened (ap pipe_of_end special) e
        (omega arith) h).1
      (subst (λ o. Blocks fs con u fd o 1 bytes) (sym special) blocked)

-- An event, and so no wait.
not_quiet :
    {A : Type 0} (call : Vfs → Exec (Result VfsError A × Vfs)) (s : Option Vfs) (u : Vfs)
    (Quiet : Type 0)
    → s ≡ some u
    → (waits (with_vfs call (some u)) ≡ true → Quiet)
    → (Quiet → ⊥)
    → waits (with_vfs call s) ≡ false
not_quiet call s u Quiet there quiet event = elim (Bool-cases (waits (with_vfs call s))) [
  | inr free ↦ free
  | inl wait ↦ absurd (event (quiet (subst (λ x. waits (with_vfs call x) ≡ true) there wait)))
]

-- From any state of the file system, and whatever other programs do to it in each wait: when after some waits
-- polling the reading end of a pipe shows an event, a `read` into a buffer that is not empty comes back by
-- then, with the reply of the file system as it is at that moment, and that is not `would_block`.
pub read-ends :
    (fs : FileSystem) (con : Console) (yields : ℕ → Option Vfs → Option Vfs) (s : Option Vfs)
    (fd : ℤ) (len k tries : ℕ) (u : Vfs) (of : OpenFile) (id : ℕ) (p : Pipe) (has_input : Bool)
    → k < tries
    → after_waits yields 0 k s ≡ some u
    → file u fd ≡ ok of
    → of.special ≡ some (pipe_read id)
    → get u.pipes id ≡ some p
    → len ≢ 0
    → poll_mask u has_input fd ≢ ok 0
    → (j : ℕ) × (j ≤ k)
      × (waits (with_vfs (λ v. Files.read fs con v fd len) (after_waits yields 0 j s)) ≡ false)
      × (Mounted.read yields tries fs con s fd len
          ≡ answer (with_vfs (λ v. Files.read fs con v fd len) (after_waits yields 0 j s)))
read-ends fs con yields s fd len k tries u of id p has_input fuel there opened special e h event =
    retry-ends (with_vfs (λ v. Files.read fs con v fd len)) yields (read-waits fs con fd len) k
      tries 0 s fuel
      (not_quiet (λ v. Files.read fs con v fd len) _ u _ there
        (read-quiet fs con fd len u of id p has_input opened special e h) event)

-- The same of a `write` of some bytes to the writing end.
pub write-ends :
    (fs : FileSystem) (con : Console) (yields : ℕ → Option Vfs → Option Vfs) (s : Option Vfs)
    (fd : ℤ) (bytes : List ℕ) (k tries : ℕ) (u : Vfs) (of : OpenFile) (id : ℕ) (p : Pipe)
    (has_input : Bool)
    → k < tries
    → after_waits yields 0 k s ≡ some u
    → file u fd ≡ ok of
    → of.special ≡ some (pipe_write id)
    → get u.pipes id ≡ some p
    → bytes ≢ []
    → poll_mask u has_input fd ≢ ok 0
    → (j : ℕ) × (j ≤ k)
      × (waits (with_vfs (λ v. done (Files.write v fd bytes)) (after_waits yields 0 j s)) ≡ false)
      × (Mounted.write yields tries s fd bytes
          ≡ answer (with_vfs (λ v. done (Files.write v fd bytes)) (after_waits yields 0 j s)))
write-ends fs con yields s fd bytes k tries u of id p has_input fuel there opened special e h
      event =
    retry-ends (with_vfs (λ v. done (Files.write v fd bytes))) yields (write-waits fd bytes) k tries
      0 s fuel
      (not_quiet (λ v. done (Files.write v fd bytes)) _ u _ there
        (write-quiet fs con fd bytes u of id p has_input opened special e h) event)
