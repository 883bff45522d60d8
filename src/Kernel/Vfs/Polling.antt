-- ===== src/Kernel/Vfs/Polling.antt =====
-- `poll_mask` of kernel/vfs.rs against `read` and `write` on the ends of a pipe.
use theos.Base.{
  ℕ, ◌≡◌, ◌≢◌, ◌↔◌, refl, arith, Bool, List, [], Option, none, some, Exec, done, panic, Result, ok,
  err,
}
use theos.Base.Maps.{get}
use theos.Base.Int.{ℤ}
use theos.Kernel.Vfs.{
  Vfs, VfsError, would_block, FileSystem, Pipe, file, OpenFile, SpecialFd, pipe_read, pipe_write,
}
use theos.Kernel.Vfs.Pipes.{read_pipe, write_pipe}
use theos.Kernel.Vfs.Files.{Console, read, write}
use theos.Kernel.Vfs.Stat.{poll_mask, read_end_mask, write_end_mask}

abbrev pipe_of : List ℕ → ℕ → ℕ → Pipe
pipe_of buf readers writers = record { buf = buf; readers = readers; writers = writers }

read_pipe-blocks :
    (v : Vfs) (id n : ℕ) (buf : List ℕ) (r w : ℕ)
    → get v.pipes id ≡ some (pipe_of buf r w)
    → n ≢ 0
    → (read_end_mask (pipe_of buf r w) ≡ 0) ↔ ((read_pipe v id n).0 ≡ err would_block)
unfolding read_pipe
read_pipe-blocks v id n buf r w e h = ground arith

write_pipe-blocks :
    (v : Vfs) (id : ℕ) (bytes buf : List ℕ) (r w : ℕ)
    → get v.pipes id ≡ some (pipe_of buf r w)
    → bytes ≢ []
    → (write_end_mask (pipe_of buf r w) ≡ 0) ↔ ((write_pipe v id bytes).0 ≡ err would_block)
unfolding write_pipe
write_pipe-blocks v id bytes buf r w e h = ground arith

abbrev pub outcome {ℓ} : {A : Type ℓ} → Exec (Result VfsError A × Vfs) → Option (Result VfsError A)
outcome (done x) = some x.0
outcome panic = none

-- The pipe that a descriptor is an end of.
abbrev pub pipe_of_end : Option SpecialFd → Option ℕ
pipe_of_end (some (pipe_read id)) = some id
pipe_of_end (some (pipe_write id)) = some id
pipe_of_end special = none

-- The call that the end is for would block: to write `bytes`, or to read `n` bytes.
abbrev pub Blocks : FileSystem → Console → Vfs → ℤ → Option SpecialFd → ℕ → List ℕ → Type 0
Blocks fs con v fd (some (pipe_write id)) n bytes = (write v fd bytes).0 ≡ err would_block
Blocks fs con v fd special n bytes = outcome (read fs con v fd n) ≡ some (err would_block)

on_end :
    (fs : FileSystem) (con : Console) (v : Vfs) (has_input : Bool) (fd : ℤ) (of : OpenFile)
    (special : Option SpecialFd)
    → of.special ≡ special
    → (id n : ℕ) (bytes : List ℕ) (p : Pipe) → file v fd ≡ ok of
    → pipe_of_end special ≡ some id
    → get v.pipes id ≡ some p
    → n ≢ 0
    → bytes ≢ []
    → (poll_mask v has_input fd ≡ ok 0) ↔ Blocks fs con v fd special n bytes
unfolding read write poll_mask
on_end fs con v has_input fd of (some (pipe_read j)) s id n bytes p opened same e h h' =
    let e' : get v.pipes j ≡ some p = cc in
    rw (opened, s, e') (ground (arith, read_pipe-blocks v j n p.buf p.readers p.writers e' h))
on_end fs con v has_input fd of (some (pipe_write j)) s id n bytes p opened same e h h' =
    let e' : get v.pipes j ≡ some p = cc in
    rw (opened, s, e') (ground (arith, write_pipe-blocks v j bytes p.buf p.readers p.writers e' h'))
on_end fs con v has_input fd of _ s id n bytes p opened same e h h' = cc

-- Polling an end of a pipe gives no event, neither readiness nor hang-up, exactly when the call that
-- the end is for would block: a read into a buffer that is not empty on the reading end, and a write
-- of some bytes on the writing end.
pub poll_mask-would_block :
    (fs : FileSystem) (con : Console) (v : Vfs) (has_input : Bool) (fd : ℤ) (of : OpenFile)
    (id n : ℕ) (bytes : List ℕ) (p : Pipe)
    → file v fd ≡ ok of
    → pipe_of_end of.special ≡ some id
    → get v.pipes id ≡ some p
    → n ≢ 0
    → bytes ≢ []
    → (poll_mask v has_input fd ≡ ok 0) ↔ Blocks fs con v fd of.special n bytes
poll_mask-would_block fs con v has_input fd of id n bytes p opened same e h h' =
    on_end fs con v has_input fd of of.special refl id n bytes p opened same e h h'
