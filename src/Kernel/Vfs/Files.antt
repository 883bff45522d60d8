-- ===== src/Kernel/Vfs/Files.antt =====
-- The descriptors of kernel/vfs.rs: `open`, `read`, `write`, `pread`, `lseek` and `close`. A buffer that a read
-- fills is its length, and what the read puts into it is its result. The console is the interface
-- `Console`, `kernel/serial.rs`. `open` is a word of the language, and is `open_path` here.
use theos.Base.{
  ℕ, zero, suc, ◌+◌, ◌-◌, ◌%◌, min, List, [], ◌∷◌, length, Option, none, some, Bool, true, false,
}
use theos.Base.{Exec, done, panic, Result, ok, err, attempt, try, ◌==◌, ltb, leb, if◌then◌else◌}
use theos.Base.Int.{ℤ, pos, negsuc}
use theos.Base.Text.{Bytes, codes}
use theos.Crabfs.OnDisk.Inode.{as_i64}
use theos.Kernel.Vfs.{
  Vfs, VfsError, not_found, invalid_path, invalid_fd, FileSystem, OpenFile, standard, SpecialFd,
  stdin, stdout, stderr, tty, null_device, pipe_read, pipe_write, file, put_file, put_entry, entry,
  slot_of, alloc_fd_slot,
}
use theos.Kernel.Vfs.Paths.{str_eq_lit, normalize_path}
use theos.Kernel.Vfs.Lookup.{or_io, lookup_path_inner, max_depth}
use theos.Kernel.Vfs.Pipes.{read_pipe, write_pipe, release_special}

-- The texts that `open` takes for devices.
abbrev pub special_named : Bytes → Option SpecialFd
special_named path =
    if str_eq_lit path (codes "/dev/stdin")
    then some stdin
    else (if str_eq_lit path (codes "/dev/stdout")
        then some stdout
        else (if str_eq_lit path (codes "/dev/tty")
            then some tty
            else (if str_eq_lit path (codes "/dev/null")
                then some null_device
                else (if str_eq_lit path (codes "/dev/stderr") then some stderr else none))))

abbrev pub regular : ℕ → Bytes → ℤ → OpenFile
regular ino path flags = record {
  ino = ino;
  offset = 0;
  fd_flags = pos 0;
  status_flags = flags;
  path = path;
  special = none;
  refs = 1;
}

-- The slot is taken, and the file put there.
abbrev pub place : Vfs → OpenFile → Result VfsError ℤ × Vfs
place v f = attempt (alloc_fd_slot v) v λ slot. (ok (pos slot), put_entry v slot (some f))

-- What the console has: the byte that a blocking read comes back with, and those that are there
-- behind it.
pub record Console : Type 0 where
  pub first_byte : ℕ
  pub ready : List ℕ

abbrev pub newline : ℕ
newline = 10

abbrev pub from_console : ℕ → ℕ
from_console b = if b == 13 then newline else b

-- A line, up to its end, to `len` bytes, or to where the console has no more.
unfoldable pub read_line : ℕ → List ℕ → List ℕ
read_line zero bytes = []
read_line (suc n) [] = []
read_line (suc n) (b ∷ bytes) =
    let rest = read_line n bytes in
    let byte = from_console b in if byte == newline then byte ∷ [] else byte ∷ rest

-- i64, saturating.
abbrev pub i64_half : ℕ
i64_half = 9223372036854775808

abbrev pub plus : ℤ → ℤ → ℤ
plus (pos a) (pos b) = pos (a + b)
plus (pos a) (negsuc b) = if leb (b + 1) a then pos (a - (b + 1)) else negsuc (b - a)
plus (negsuc a) (pos b) = if leb (a + 1) b then pos (b - (a + 1)) else negsuc (a - b)
plus (negsuc a) (negsuc b) = negsuc (a + b + 1)

abbrev pub clamp : ℤ → ℤ
clamp (pos a) = pos (min a (i64_half - 1))
clamp (negsuc a) = negsuc (min a (i64_half - 1))

abbrev pub saturating_add : ℤ → ℤ → ℤ
saturating_add a b = clamp (plus a b)

-- u64, saturating.
abbrev pub saturating_add_u64 : ℕ → ℕ → ℕ
saturating_add_u64 a b = min (a + b) 18446744073709551615

-- The offset moves by what was read.
abbrev pub advance :
    Vfs → ℤ → OpenFile → Exec (Result VfsError (List ℕ)) → Exec (Result VfsError (List ℕ) × Vfs)
advance v fd of panic = panic
advance v fd of (done (err e)) = done (err e, v)
advance v fd of (done (ok bytes)) =
    done
      (ok bytes, put_file v fd (record of { offset = saturating_add_u64 of.offset (length bytes) }))

module _ (fs : FileSystem) where
  -- A device, or the file that the path leads to.
  abbrev pub open_special : Vfs → Bytes → ℤ → Option SpecialFd → Result VfsError ℤ × Vfs
  open_special v path flags (some special) =
      place v (record (standard path special) { status_flags = flags })
  open_special v path flags none =
      attempt (lookup_path_inner fs true max_depth (normalize_path path)) v
        λ ino. place v (regular ino (normalize_path path) flags)

  unfoldable pub open_path : Vfs → Bytes → ℤ → Result VfsError ℤ × Vfs
  open_path v path flags =
      if str_eq_lit path (codes "/usr/etc/ld-musl-x86_64.path")
      then (err not_found, v)
      else open_special v path flags (special_named path)

  -- `out[..n].copy_from_slice(&data)` panics when the file system gives more than was asked for.
  abbrev pub fill_from : ℕ → ℕ → ℕ → Exec (Result VfsError (List ℕ))
  fill_from ino offset len = elim (or_io (fs.read_file_data ino offset (len % 4294967296))) [
    | err e ↦ done (err e)
    | ok bytes ↦ if leb (length bytes) len then done (ok bytes) else panic
  ]

  abbrev pub read_regular : Vfs → ℤ → OpenFile → ℕ → Exec (Result VfsError (List ℕ) × Vfs)
  read_regular v fd of len = advance v fd of (fill_from of.ino of.offset len)

  abbrev pub read_special :
      Console → Vfs → ℤ → OpenFile → Option SpecialFd → ℕ → Exec (Result VfsError (List ℕ) × Vfs)
  read_special con v fd of (some null_device) len = done (ok [], v)
  read_special con v fd of (some stdin) len =
      done (ok (read_line len (con.first_byte ∷ con.ready)), v)
  read_special con v fd of (some tty) len =
      done (ok (read_line len (con.first_byte ∷ con.ready)), v)
  read_special con v fd of (some (pipe_read id)) len = done (read_pipe v id len)
  read_special con v fd of (some (pipe_write id)) len = done (err invalid_fd, v)
  read_special con v fd of (some stdout) len = read_regular v fd of len
  read_special con v fd of (some stderr) len = read_regular v fd of len
  read_special con v fd of none len = read_regular v fd of len

  unfoldable pub read : Console → Vfs → ℤ → ℕ → Exec (Result VfsError (List ℕ) × Vfs)
  read con v fd len = try (file v fd) v λ of. read_special con v fd of of.special len

  abbrev pub preads_nothing : Option SpecialFd → Bool
  preads_nothing (some stdin) = true
  preads_nothing (some tty) = true
  preads_nothing (some null_device) = true
  preads_nothing special = false

  unfoldable pub pread : Vfs → ℤ → ℕ → ℕ → Exec (Result VfsError (List ℕ))
  pread v fd offset len = elim (file v fd) [
    | err e ↦ done (err e)
    | ok of ↦ if preads_nothing of.special then done (ok []) else fill_from of.ino offset len
  ]

  -- Where `whence` counts from: the start, the offset, or the file's end.
  abbrev pub seek_target : OpenFile → ℤ → ℕ → Result VfsError ℤ
  seek_target of offset whence =
      if whence == 0
      then ok offset
      else (if whence == 1
          then ok (saturating_add (as_i64 of.offset) offset)
          else (if whence == 2
              then elim (or_io (fs.read_inode of.ino)) [
                | err e ↦ err e
                | ok inode ↦ ok (saturating_add inode.size offset)
              ]
              else err invalid_path))

  abbrev pub seek_to : Vfs → ℤ → OpenFile → ℤ → Result VfsError ℕ × Vfs
  seek_to v fd of (negsuc n) = (err invalid_path, v)
  seek_to v fd of (pos n) = (ok n, put_file v fd (record of { offset = n }))

  unfoldable pub lseek : Vfs → ℤ → ℤ → ℕ → Result VfsError ℕ × Vfs
  lseek v fd offset whence =
      attempt (file v fd) v λ of. attempt (seek_target of offset whence) v (seek_to v fd of)

-- What is printed goes to the console, and is left out.
abbrev pub write_special : Vfs → Option SpecialFd → List ℕ → Result VfsError ℕ × Vfs
write_special v (some stdin) bytes = (err invalid_fd, v)
write_special v (some stdout) bytes = (ok (length bytes), v)
write_special v (some stderr) bytes = (ok (length bytes), v)
write_special v (some tty) bytes = (ok (length bytes), v)
write_special v (some null_device) bytes = (ok (length bytes), v)
write_special v (some (pipe_write id)) bytes = write_pipe v id bytes
write_special v (some (pipe_read id)) bytes = (err invalid_fd, v)
write_special v none bytes = (err invalid_fd, v)

unfoldable pub write : Vfs → ℤ → List ℕ → Result VfsError ℕ × Vfs
write v fd bytes = attempt (file v fd) v λ of. write_special v of.special bytes

abbrev pub close_entry : Vfs → ℕ → Option OpenFile → Result VfsError (Unit {0}) × Vfs
close_entry v slot none = (err invalid_fd, v)
close_entry v slot (some f) =
    if ltb 1 f.refs
    then (ok tt, put_entry v slot (some (record f { refs = f.refs - 1 })))
    else (ok tt, release_special (put_entry v slot none) f.special)

unfoldable pub close : Vfs → ℤ → Result VfsError (Unit {0}) × Vfs
close v fd = attempt (slot_of fd) v λ slot. close_entry v slot (entry v.files slot)
