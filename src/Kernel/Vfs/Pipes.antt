-- ===== src/Kernel/Vfs/Pipes.antt =====
-- The pipes of kernel/vfs.rs: `create_pipe`, `read_pipe`, `write_pipe` and `release_special`. The
-- buffer that a read fills is its length, and what the read puts into it is its result.
use theos.Base.{
  ℕ, zero, suc, ◌+◌, ◌-◌, ◌%◌, min, max, List, [], ◌∷◌, ◌++◌, length, take, Option, none, some,
  Bool, ◌&&◌,
}
use theos.Base.{Result, ok, err, attempt, ok_or, ◌==◌, leb, if◌then◌else◌}
use theos.Base.Maps.{get, insert, remove}
use theos.Base.Int.{ℤ, pos}
use theos.Base.Text.{codes, is_empty}
use theos.Kernel.Vfs.{
  Vfs, VfsError, invalid_fd, would_block, broken_pipe, Pipe, SpecialFd, pipe_read, pipe_write,
  OpenFile, standard, put_entry, alloc_fd_slot, alloc_fd_slot_from, pipe_capacity,
}

abbrev pub put_pipe : Vfs → ℕ → Pipe → Vfs
put_pipe v id p = record v { pipes = insert v.pipes id p }

-- The loop of `pop_front`: as many bytes as fit and are there, and what stays.
unfoldable pub pop_bytes : ℕ → List ℕ → List ℕ × List ℕ
pop_bytes zero buf = ([], buf)
pop_bytes (suc n) [] = ([], [])
pop_bytes (suc n) (b ∷ buf) = let (out, rest) = pop_bytes n buf in (b ∷ out, rest)

-- The loop of `push_back`.
unfoldable pub push_bytes : List ℕ → List ℕ → List ℕ
push_bytes buf [] = buf
push_bytes buf (b ∷ bs) = push_bytes (buf ++ b ∷ []) bs

unfoldable pub read_pipe : Vfs → ℕ → ℕ → Result VfsError (List ℕ) × Vfs
read_pipe v pipe_id len =
    if len == 0
    then (ok [], v)
    else (attempt (ok_or (get v.pipes pipe_id) invalid_fd) v λ pipe.
        if is_empty pipe.buf
        then (if pipe.writers == 0 then ok [] else err would_block, v)
        else (let (out, rest) = pop_bytes len pipe.buf in
            (ok out, put_pipe v pipe_id (record pipe { buf = rest }))))

unfoldable pub write_pipe : Vfs → ℕ → List ℕ → Result VfsError ℕ × Vfs
write_pipe v pipe_id bytes =
    if is_empty bytes
    then (ok 0, v)
    else (attempt (ok_or (get v.pipes pipe_id) invalid_fd) v λ pipe.
        if pipe.readers == 0
        then (err broken_pipe, v)
        else (if leb pipe_capacity (length pipe.buf)
            then (err would_block, v)
            else (let max_write = min (length bytes) (pipe_capacity - length pipe.buf) in
                (
                  ok max_write,
                  put_pipe v pipe_id
                      (record pipe { buf = push_bytes pipe.buf (take max_write bytes) }),
                ))))

abbrev pub is_abandoned : Pipe → Bool
is_abandoned pipe = pipe.readers == 0 && pipe.writers == 0

-- A pipe with one end less, which goes when the last end is gone.
abbrev pub put_or_remove : Vfs → ℕ → Pipe → Vfs
put_or_remove v id pipe =
    if is_abandoned pipe then record v { pipes = remove v.pipes id } else put_pipe v id pipe

unfoldable pub release_special : Vfs → Option SpecialFd → Vfs
release_special v (some (pipe_read id)) = elim (get v.pipes id) [
  | none ↦ v
  | some pipe ↦ put_or_remove v id (record pipe { readers = pipe.readers - 1 })
]
release_special v (some (pipe_write id)) = elim (get v.pipes id) [
  | none ↦ v
  | some pipe ↦ put_or_remove v id (record pipe { writers = pipe.writers - 1 })
]
release_special v special = v

abbrev pub pipe_end : SpecialFd → ℤ → OpenFile
pipe_end special flags = record (standard (codes "[pipe]") special) { status_flags = flags }

-- `wrapping_add(1).max(1)` on u32.
abbrev pub next_id : ℕ → ℕ
next_id id = max ((id + 1) % 4294967296) 1

abbrev pub new_pipe : Pipe
new_pipe = record { buf = []; readers = 1; writers = 1 }

-- A new pipe, with its ends in two slots.
abbrev pub wire : Vfs → ℕ → ℕ → Vfs
wire v rslot wslot =
    let id = v.next_pipe_id in
    let made : Vfs = record v { next_pipe_id = next_id id; pipes = insert v.pipes id new_pipe } in
    let with_reader = put_entry made rslot (some (pipe_end (pipe_read id) (pos 0))) in
    put_entry with_reader wslot (some (pipe_end (pipe_write id) (pos 1)))

unfoldable pub create_pipe : Vfs → Result VfsError (ℤ × ℤ) × Vfs
create_pipe v = attempt (alloc_fd_slot v) v λ rslot.
    attempt (alloc_fd_slot_from v (rslot + 1)) v
      λ wslot. (ok (pos rslot, pos wslot), wire v rslot wslot)
