-- ===== src/Kernel/Vfs/Mounted.antt =====
-- The calls of kernel/vfs.rs on the static `VFS`, behind its lock. A `read` or a `write` that would block gives the
-- lock back, lets other programs run and tries again; `yields` is what those do to the file system in each
-- wait. Its fuel is the number of tries.
pub mod Waiting
pub mod Leaves
pub mod Ready
use theos.Base.{
  ℕ, zero, suc, ◌+◌, List, Bool, true, false, Option, none, some, Exec, done, panic, ◌>>=◌, Result,
  ok, err,
}
use theos.Base.Int.{ℤ}
use theos.Kernel.Vfs.{
  Vfs, VfsError, not_mounted, not_found, not_directory, invalid_path, io_error, invalid_fd,
  would_block, broken_pipe, FileSystem,
}
use theos.Kernel.Vfs.Files as Files
use theos.Kernel.Vfs.Files.{Console}

-- The file system goes back into the static.
abbrev pub put_back :
    {A : Type 0} → Exec (Result VfsError A × Vfs) → Exec (Result VfsError A × Option Vfs)
put_back panic = panic
put_back (done (r, v)) = done (r, some v)

-- A call on the file system that is mounted.
abbrev pub with_vfs :
    {A : Type 0}
    → (Vfs → Exec (Result VfsError A × Vfs))
    → Option Vfs
    → Exec (Result VfsError A × Option Vfs)
with_vfs call none = done (err not_mounted, none)
with_vfs call (some v) = put_back (call v)

abbrev pub is_would_block : VfsError → Bool
is_would_block would_block = true
is_would_block not_mounted = false
is_would_block not_found = false
is_would_block not_directory = false
is_would_block invalid_path = false
is_would_block io_error = false
is_would_block invalid_fd = false
is_would_block broken_pipe = false

module _ {A : Type 0} (call : Option Vfs → Exec (Result VfsError A × Option Vfs))
    (yields : ℕ → Option Vfs → Option Vfs) where
  -- The loop of `read` and of `write`, behind `turn` waits. With no tries left it has no reply.
  unfoldable pub retry : ℕ → ℕ → Option Vfs → Exec (Option (Result VfsError A) × Option Vfs)
  retry zero turn s = done (none, s)
  retry (suc n) turn s = call s >>= λ r. elim r.0 [
    | ok a ↦ done (some (ok a), r.1)
    | err e ↦ elim (is_would_block e) [
      | true ↦ retry n (turn + 1) (yields turn r.1)
      | false ↦ done (some (err e), r.1)
    ]
  ]

module _ (yields : ℕ → Option Vfs → Option Vfs) (tries : ℕ) where
  abbrev pub read :
      FileSystem
      → Console
      → Option Vfs
      → ℤ
      → ℕ
      → Exec (Option (Result VfsError (List ℕ)) × Option Vfs)
  read fs con s fd len = retry (with_vfs (λ v. Files.read fs con v fd len)) yields tries 0 s

  abbrev pub write : Option Vfs → ℤ → List ℕ → Exec (Option (Result VfsError ℕ) × Option Vfs)
  write s fd bytes = retry (with_vfs (λ v. done (Files.write v fd bytes))) yields tries 0 s
