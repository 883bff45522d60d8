-- ===== src/Kernel/Tests/Waiting.antt =====
-- A read of an empty pipe, to which another program writes in the second wait.
use theos.Base.{ℕ, zero, suc, ◌≤◌, ◌≡◌, ◌≢◌, refl, arith, false, [], ◌∷◌, Option, none, some, ok}
use theos.Base.Maps.{get, insert}
use theos.Base.Int.{pos}
use theos.Kernel.Vfs.{Vfs, mount, find_none, file, pipe_read, Pipe}
use theos.Kernel.Vfs.Pipes.{create_pipe, pipe_end, write_pipe, push_bytes, read_pipe, pop_bytes}
use theos.Kernel.Vfs.Files as Files
use theos.Kernel.Vfs.Stat.{poll_mask}
use theos.Kernel.Vfs.Mounted as Mounted
use theos.Kernel.Vfs.Mounted.{with_vfs, retry}
use theos.Kernel.Vfs.Mounted.Waiting.{waits, answer, after_waits}
use theos.Kernel.Vfs.Mounted.Ready.{read-ends}
use theos.Kernel.Tests.Pipes.{no_files, console, piped}

abbrev written : Vfs → Vfs
written v = (Files.write v (pos 4) (9 ∷ [])).1

abbrev others : ℕ → Option Vfs → Option Vfs
others zero s = s
others (suc n) none = none
others (suc n) (some v) = some (written v)

abbrev filled_pipe : Pipe
filled_pipe = record { buf = 9 ∷ []; readers = 1; writers = 1 }

two_waits : after_waits others 0 2 (some piped) ≡ some (written piped)
unfolding after_waits
two_waits = refl

reader : file (written piped) (pos 3) ≡ ok (pipe_end (pipe_read 1) (pos 0))
unfolding create_pipe mount find_none Files.write write_pipe push_bytes get insert
reader = refl

filled : get (written piped).pipes 1 ≡ some filled_pipe
unfolding create_pipe mount find_none Files.write write_pipe push_bytes get insert
filled = refl

event : poll_mask (written piped) false (pos 3) ≢ ok 0
unfolding create_pipe mount find_none Files.write write_pipe push_bytes get insert poll_mask
event e = cc

-- The read comes back in its third try, with the byte.
third :
    Mounted.read others 3 no_files console (some piped) (pos 3) 4
    ≡ answer (with_vfs (λ v. Files.read no_files console v (pos 3) 4) (some (written piped)))
unfolding create_pipe mount find_none Files.write Files.read write_pipe push_bytes get insert retry
    read_pipe pop_bytes
third = refl

read-ends_example :
    (j : ℕ) × (j ≤ 2)
    × (waits (
          with_vfs
            (λ v. Files.read no_files console v (pos 3) 4)
            (after_waits others 0 j (some piped)))
        ≡ false)
    × (Mounted.read others 3 no_files console (some piped) (pos 3) 4
        ≡ answer (
            with_vfs
              (λ v. Files.read no_files console v (pos 3) 4)
              (after_waits others 0 j (some piped))))
read-ends_example =
    read-ends no_files console others (some piped) (pos 3) 4 2 3 (written piped)
      (pipe_end (pipe_read 1) (pos 0)) 1 filled_pipe false (omega arith) two_waits reader refl
      filled (omega arith) event
