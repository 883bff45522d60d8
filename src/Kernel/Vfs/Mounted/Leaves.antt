-- ===== src/Kernel/Vfs/Mounted/Leaves.antt =====
-- A `read` or `write` of kernel/vfs.rs that gives an error leaves the file system as it was.
use theos.Base.{
  ℕ, ◌≡◌, refl, true, List, Option, none, some, Exec, done, panic, Result, ok, err, try, attempt,
  arith,
}
use theos.Base.Int.{ℤ}
use theos.Kernel.Vfs.{
  Vfs, VfsError, not_mounted, not_found, not_directory, invalid_path, io_error, invalid_fd,
  would_block, broken_pipe, FileSystem, OpenFile, SpecialFd, stdin, stdout, stderr, tty,
  null_device, pipe_read, pipe_write, file,
}
use theos.Kernel.Vfs.Pipes.{read_pipe, write_pipe}
use theos.Kernel.Vfs.Files as Files
use theos.Kernel.Vfs.Files.{Console, read_special, write_special, advance, fill_from}
use theos.Kernel.Vfs.Mounted.{put_back, with_vfs, is_would_block}
use theos.Kernel.Vfs.Mounted.Waiting.{waits}

abbrev LeavesResult : {A S : Type 0} → S → Result VfsError A × S → Type 0
LeavesResult s (ok a, u) = Unit {0}
LeavesResult s (err e, u) = u ≡ s

-- With an error the state is as it was.
abbrev Leaves : {A S : Type 0} → S → Exec (Result VfsError A × S) → Type 0
Leaves s panic = Unit {0}
Leaves s (done r) = LeavesResult s r

is_would_block_lem : (e : VfsError) → is_would_block e ≡ true → e ≡ would_block
is_would_block_lem would_block h = refl
is_would_block_lem not_mounted h = cc
is_would_block_lem not_found h = cc
is_would_block_lem not_directory h = cc
is_would_block_lem invalid_path h = cc
is_would_block_lem io_error h = cc
is_would_block_lem invalid_fd h = cc
is_would_block_lem broken_pipe h = cc

advance-Leaves :
    (v : Vfs) (fd : ℤ) (of : OpenFile) (r : Exec (Result VfsError (List ℕ)))
    → Leaves v (advance v fd of r)
advance-Leaves v fd of panic = tt
advance-Leaves v fd of (done (ok bytes)) = tt
advance-Leaves v fd of (done (err e)) = refl

read_pipe-Leaves : (v : Vfs) (id n : ℕ) → LeavesResult v (read_pipe v id n)
unfolding read_pipe
read_pipe-Leaves v id n = ground arith

write_pipe-Leaves : (v : Vfs) (id : ℕ) (bytes : List ℕ) → LeavesResult v (write_pipe v id bytes)
unfolding write_pipe
write_pipe-Leaves v id bytes = ground arith

module _ (fs : FileSystem) (con : Console) (v : Vfs) (fd : ℤ) where
  read_special-Leaves :
      (of : OpenFile) (special : Option SpecialFd) (n : ℕ)
      → Leaves v (read_special fs con v fd of special n)
  read_special-Leaves of (some null_device) n = tt
  read_special-Leaves of (some stdin) n = tt
  read_special-Leaves of (some tty) n = tt
  read_special-Leaves of (some (pipe_read id)) n = read_pipe-Leaves v id n
  read_special-Leaves of (some (pipe_write id)) n = refl
  read_special-Leaves of (some stdout) n = advance-Leaves v fd of (fill_from fs of.ino of.offset n)
  read_special-Leaves of (some stderr) n = advance-Leaves v fd of (fill_from fs of.ino of.offset n)
  read_special-Leaves of none n = advance-Leaves v fd of (fill_from fs of.ino of.offset n)

  read-Leaves : (n : ℕ) → Leaves v (Files.read fs con v fd n)
  unfolding Files.read
  read-Leaves n = on_file (file v fd)
    where
      on_file :
          (r : Result VfsError OpenFile)
          → Leaves v (try r v (λ of. read_special fs con v fd of of.special n))
      on_file (err x) = refl
      on_file (ok of) = read_special-Leaves of of.special n

write_special-Leaves :
    (v : Vfs) (special : Option SpecialFd) (bytes : List ℕ)
    → LeavesResult v (write_special v special bytes)
write_special-Leaves v (some (pipe_write id)) bytes = write_pipe-Leaves v id bytes
write_special-Leaves v (some stdin) bytes = refl
write_special-Leaves v (some stdout) bytes = tt
write_special-Leaves v (some stderr) bytes = tt
write_special-Leaves v (some tty) bytes = tt
write_special-Leaves v (some null_device) bytes = tt
write_special-Leaves v (some (pipe_read id)) bytes = refl
write_special-Leaves v none bytes = refl

write-Leaves : (v : Vfs) (fd : ℤ) (bytes : List ℕ) → LeavesResult v (Files.write v fd bytes)
unfolding Files.write
write-Leaves v fd bytes = on_file (file v fd)
  where
    on_file :
        (r : Result VfsError OpenFile)
        → LeavesResult v (attempt r v (λ of. write_special v of.special bytes))
    on_file (err x) = refl
    on_file (ok of) = write_special-Leaves v of.special bytes

put_back-waits :
    {A : Type 0} (v : Vfs) (r : Exec (Result VfsError A × Vfs))
    → Leaves v r
    → waits (put_back r) ≡ true
    → put_back r ≡ done (err would_block, some v)
put_back-waits v panic l h = cc
put_back-waits v (done (ok a, u)) l h = cc
put_back-waits v (done (err e, u)) l h =
    let same : u ≡ v = l in
    let wait : is_would_block e ≡ true = h in rw (same, is_would_block_lem e wait) refl

-- What would block leaves the file system as it was.
with_vfs-waits :
    {A : Type 0} (call : Vfs → Exec (Result VfsError A × Vfs))
    → ((v : Vfs) → Leaves v (call v))
    → (s : Option Vfs) → waits (with_vfs call s) ≡ true
    → with_vfs call s ≡ done (err would_block, s)
with_vfs-waits call leaves none h = cc
with_vfs-waits call leaves (some v) h = put_back-waits v (call v) (leaves v) h

pub read-waits :
    (fs : FileSystem) (con : Console) (fd : ℤ) (len : ℕ) (s : Option Vfs)
    → waits (with_vfs (λ v. Files.read fs con v fd len) s) ≡ true
    → with_vfs (λ v. Files.read fs con v fd len) s ≡ done (err would_block, s)
read-waits fs con fd len s h =
    with_vfs-waits (λ v. Files.read fs con v fd len) (λ v. read-Leaves fs con v fd len) s h

pub write-waits :
    (fd : ℤ) (bytes : List ℕ) (s : Option Vfs)
    → waits (with_vfs (λ v. done (Files.write v fd bytes)) s) ≡ true
    → with_vfs (λ v. done (Files.write v fd bytes)) s ≡ done (err would_block, s)
write-waits fd bytes s h =
    with_vfs-waits (λ v. done (Files.write v fd bytes)) (λ v. write-Leaves v fd bytes) s h
