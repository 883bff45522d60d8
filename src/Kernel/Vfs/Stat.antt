-- ===== src/Kernel/Vfs/Stat.antt =====
-- What kernel/vfs.rs tells of a descriptor or a path: `fstat`, `stat_path`, `poll_mask`, and the flags and the offset
-- of a descriptor.
use theos.Base.{ℕ, ◌+◌, Option, none, some, Bool, true, false, length}
use theos.Base.{Result, ok, attempt, ok_then, ok_or, ◌==◌, ltb, if◌then◌else◌}
use theos.Base.Maps.{get}
use theos.Base.Int.{ℤ, pos, negsuc}
use theos.Base.Text.{Bytes, is_empty}
use theos.Crabfs.OnDisk.Inode.{i64_as_u64}
use theos.Kernel.Vfs.{
  Vfs, VfsError, invalid_fd, FileSystem, Pipe, SpecialFd, stdin, stdout, stderr, tty, null_device,
  pipe_read, pipe_write, file, put_file, pipe_capacity,
}
use theos.Kernel.Vfs.Paths.{normalize_path}
use theos.Kernel.Vfs.Lookup.{or_io, lookup_path_inner, max_depth}

pub record FileStat : Type 0 where
  pub ino : ℕ
  pub mode : ℕ
  pub size : ℕ

abbrev pub pollin : ℕ
pollin = 1

abbrev pub pollout : ℕ
pollout = 4

abbrev pub pollerr : ℕ
pollerr = 8

abbrev pub pollhup : ℕ
pollhup = 16

-- `inode.size.max(0) as u64`
abbrev pub size_or_zero : ℤ → ℕ
size_or_zero (pos n) = n
size_or_zero (negsuc n) = 0

module _ (fs : FileSystem) where
  abbrev pub stat_regular : ℕ → Result VfsError FileStat
  stat_regular ino =
      ok_then (or_io (fs.read_inode ino))
        λ inode. ok (record { ino = ino; mode = inode.mode; size = i64_as_u64 inode.size })

  abbrev pub stat_special : ℕ → Option SpecialFd → Result VfsError FileStat
  stat_special ino (some (pipe_read id)) = ok (record { ino = 0; mode = 0x1180; size = 0 })
  stat_special ino (some (pipe_write id)) = ok (record { ino = 0; mode = 0x1180; size = 0 })
  stat_special ino (some special) = ok (record { ino = 0; mode = 0x21b6; size = 0 })
  stat_special ino none = stat_regular ino

  unfoldable pub fstat : Vfs → ℤ → Result VfsError FileStat
  fstat v fd = ok_then (file v fd) λ of. stat_special of.ino of.special

  unfoldable pub stat_path : Bytes → Bool → Result VfsError FileStat
  stat_path path follow =
      ok_then (lookup_path_inner fs follow max_depth (normalize_path path)) λ ino.
        ok_then (or_io (fs.read_inode ino))
          λ inode. ok (record { ino = ino; mode = inode.mode; size = size_or_zero inode.size })

abbrev pub path_of_fd : Vfs → ℤ → Result VfsError Bytes
path_of_fd v fd = ok_then (file v fd) λ of. ok of.path

abbrev pub is_tty : Option SpecialFd → Bool
is_tty (some stdin) = true
is_tty (some stdout) = true
is_tty (some stderr) = true
is_tty (some tty) = true
is_tty special = false

abbrev pub is_special_tty : Vfs → ℤ → Result VfsError Bool
is_special_tty v fd = ok_then (file v fd) λ of. ok (is_tty of.special)

abbrev pub is_null : Option SpecialFd → Bool
is_null (some null_device) = true
is_null special = false

abbrev pub is_special_null : Vfs → ℤ → Result VfsError Bool
is_special_null v fd = ok_then (file v fd) λ of. ok (is_null of.special)

abbrev pub read_end_mask : Pipe → ℕ
read_end_mask pipe =
    (if is_empty pipe.buf then 0 else pollin) + (if pipe.writers == 0 then pollhup else 0)

abbrev pub write_end_mask : Pipe → ℕ
write_end_mask pipe =
    if pipe.readers == 0
    then pollerr
    else (if ltb (length pipe.buf) pipe_capacity then pollout else 0)

-- The masks are sums of different bits. `has_input` is the console's answer.
abbrev pub mask_of : Vfs → Bool → Option SpecialFd → Result VfsError ℕ
mask_of v has_input (some stdin) = ok ((if has_input then pollin else 0) + pollout)
mask_of v has_input (some tty) = ok ((if has_input then pollin else 0) + pollout)
mask_of v has_input (some stdout) = ok pollout
mask_of v has_input (some stderr) = ok pollout
mask_of v has_input (some null_device) = ok pollout
mask_of v has_input (some (pipe_read id)) =
    ok_then (ok_or (get v.pipes id) invalid_fd) λ pipe. ok (read_end_mask pipe)
mask_of v has_input (some (pipe_write id)) =
    ok_then (ok_or (get v.pipes id) invalid_fd) λ pipe. ok (write_end_mask pipe)
mask_of v has_input none = ok (pollin + pollout)

unfoldable pub poll_mask : Vfs → Bool → ℤ → Result VfsError ℕ
poll_mask v has_input fd = ok_then (file v fd) λ of. mask_of v has_input of.special

abbrev pub get_fd_flags : Vfs → ℤ → Result VfsError ℤ
get_fd_flags v fd = ok_then (file v fd) λ of. ok of.fd_flags

abbrev pub set_fd_flags : Vfs → ℤ → ℤ → Result VfsError (Unit {0}) × Vfs
set_fd_flags v fd flags =
    attempt (file v fd) v λ of. (ok tt, put_file v fd (record of { fd_flags = flags }))

abbrev pub get_status_flags : Vfs → ℤ → Result VfsError ℤ
get_status_flags v fd = ok_then (file v fd) λ of. ok of.status_flags

abbrev pub set_status_flags : Vfs → ℤ → ℤ → Result VfsError (Unit {0}) × Vfs
set_status_flags v fd flags =
    attempt (file v fd) v λ of. (ok tt, put_file v fd (record of { status_flags = flags }))

abbrev pub get_dir_offset : Vfs → ℤ → Result VfsError ℕ
get_dir_offset v fd = ok_then (file v fd) λ of. ok of.offset

abbrev pub set_dir_offset : Vfs → ℤ → ℕ → Result VfsError (Unit {0}) × Vfs
set_dir_offset v fd off =
    attempt (file v fd) v λ of. (ok tt, put_file v fd (record of { offset = off }))
