-- ===== src/Kernel/Tests/Pipes.antt =====
-- The theorems on the pipes of kernel/vfs.rs at concrete inputs.
use theos.Base.{
  ℕ, ◌+◌, ◌≡◌, ◌↔◌, ◌<◌, refl, arith, false, List, [], ◌∷◌, ◌++◌, none, some, Exec, done, panic, ok,
  err,
}
use theos.Base.Maps.{get, insert}
use theos.Base.Int.{pos}
use theos.Crabfs.Error.{read_device, out_of_range}
use theos.Kernel.Vfs.{Vfs, FileSystem, mount, find_none, file, pipe_read}
use theos.Kernel.Vfs.Pipes.{create_pipe, pipe_end}
use theos.Kernel.Vfs.Files.{Console}
use theos.Kernel.Vfs.Stat.{poll_mask}
use theos.Kernel.Vfs.PipeQueue.{run, receive, send, PipeCall, Holds, holds, pipe_fifo}
use theos.Kernel.Vfs.Polling.{Blocks, poll_mask-would_block}
use theos.Kernel.Vfs.Wired.{IsWired, mount-IsWired}
use theos.Kernel.Vfs.Calls as Calls
use theos.Kernel.Vfs.Calls.{Call, pipe_call, write_call, close_call}
use theos.Kernel.Vfs.KeptCounts.{run-IsWired}
use theos.Kernel.Vfs.Copies.{idle}

abbrev pub no_files : FileSystem
no_files = record {
  rootino = 128;
  find_dir_entry = λ ino name. ok none;
  read_inode = λ ino. err (read_device out_of_range);
  read_file_data = λ ino offset len. ok [];
  from_utf8_lossy = λ bytes. bytes;
}

abbrev pub console : Console
console = record { first_byte = 104; ready = 105 ∷ 13 ∷ [] }

-- The table with one pipe, the descriptors 3 and 4.
abbrev pub piped : Vfs
piped = (create_pipe mount).1

piped-Holds : Holds piped 1 []
unfolding create_pipe mount get insert find_none
piped-Holds = holds 1 1 refl (omega arith)

abbrev calls : List PipeCall
calls = send (7 ∷ 8 ∷ []) ∷ receive 1 ∷ []

pipe_fifo_example :
    let ((got, sent), u) = run piped 1 calls in
    (rest : List ℕ) × (Holds u 1 rest) × (got ++ rest ≡ [] ++ sent)
pipe_fifo_example = pipe_fifo piped 1 calls [] piped-Holds

piped_reader : file piped (pos 3) ≡ ok (pipe_end (pipe_read 1) (pos 0))
unfolding create_pipe mount find_none
piped_reader = refl

piped_pipe : get piped.pipes 1 ≡ some (idle 0 1)
unfolding create_pipe mount get insert find_none
piped_pipe = refl

poll_mask-would_block_example :
    (poll_mask piped false (pos 3) ≡ ok 0)
    ↔ Blocks no_files console piped (pos 3) (some (pipe_read 1)) 4 (9 ∷ [])
poll_mask-would_block_example =
    poll_mask-would_block no_files console piped false (pos 3) (pipe_end (pipe_read 1) (pos 0)) 1 4
      (9 ∷ []) (idle 0 1) piped_reader refl piped_pipe (omega arith) (λ e. cc)

abbrev state : Exec Vfs → Vfs
state (done v) = v
state panic = mount

abbrev table_calls : List Call
table_calls = pipe_call ∷ write_call (pos 4) (5 ∷ []) ∷ close_call (pos 4) ∷ []

run_done :
    Calls.run no_files mount table_calls ≡ done (state (Calls.run no_files mount table_calls))
unfolding Calls.run Calls.after
run_done = refl

few : mount.next_pipe_id + 3 < 4294967296
unfolding mount
few = omega arith

run-IsWired_example : IsWired (state (Calls.run no_files mount table_calls))
run-IsWired_example = run-IsWired no_files table_calls mount _ mount-IsWired few run_done
