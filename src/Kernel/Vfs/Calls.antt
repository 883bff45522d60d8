-- ===== src/Kernel/Vfs/Calls.antt =====
-- Sequences of calls on kernel/vfs.rs, all but the copies of descriptors: the counts of the pipes stay right.
use theos.Base.{ℕ, List, [], ◌∷◌, Exec, done, ◌>>=◌}
use theos.Base.Int.{ℤ}
use theos.Base.Text.{Bytes}
use theos.Kernel.Vfs.{FileSystem, Vfs}
use theos.Kernel.Vfs.Files.{Console, open_path, read, write, lseek, close}
use theos.Kernel.Vfs.Stat.{set_fd_flags, set_status_flags, set_dir_offset}
use theos.Kernel.Vfs.Pipes.{create_pipe}
use theos.Kernel.Vfs.Dup.{clone_handle}

pub data Call : Type 0 where
  open_call : Bytes → ℤ → Call
  read_call : Console → ℤ → ℕ → Call
  write_call : ℤ → List ℕ → Call
  lseek_call : ℤ → ℤ → ℕ → Call
  close_call : ℤ → Call
  pipe_call : Call
  clone_call : ℤ → Call
  fd_flags_call status_flags_call : ℤ → ℤ → Call
  dir_offset_call : ℤ → ℕ → Call

module _ (fs : FileSystem) where
  -- The state after a call, whatever its result.
  unfoldable pub after : Vfs → Call → Exec Vfs
  after v (open_call path flags) = done (open_path fs v path flags).1
  after v (read_call con fd n) = read fs con v fd n >>= λ x. done x.1
  after v (write_call fd bytes) = done (write v fd bytes).1
  after v (lseek_call fd offset whence) = done (lseek fs v fd offset whence).1
  after v (close_call fd) = done (close v fd).1
  after v pipe_call = done (create_pipe v).1
  after v (clone_call fd) = done (clone_handle v fd).1
  after v (fd_flags_call fd flags) = done (set_fd_flags v fd flags).1
  after v (status_flags_call fd flags) = done (set_status_flags v fd flags).1
  after v (dir_offset_call fd off) = done (set_dir_offset v fd off).1

  unfoldable pub run : Vfs → List Call → Exec Vfs
  run v [] = done v
  run v (c ∷ calls) = after v c >>= λ u. run u calls
