-- ===== src/Kernel/Vfs.antt =====
-- `kernel/vfs.rs`: the descriptor table and its entries. The device and the superblock are the
-- interface `FileSystem`; the path caches are left out, since no code fills them.
pub mod Paths
pub mod Lookup
pub mod Pipes
pub mod Files
pub mod Stat
pub mod Dup
pub mod PipeQueue
pub mod Polling
pub mod Ends
pub mod Wired
pub mod Closing
pub mod Creating
pub mod Kept
pub mod KeptCounts
pub mod Calls
pub mod Components
pub mod Walks
pub mod Resolve
pub mod Links
pub mod Copies
pub mod Mounted
pub mod BlockIo
use theos.Base.{
  ℕ, zero, suc, Option, none, some, List, [], ◌∷◌, get_elem?, set, drop, replicate, Result, ok, err,
  ok_or,
}
use theos.Base.Maps.{Map}
use theos.Base.Int.{ℤ, pos, negsuc}
use theos.Base.Text.{Bytes, codes}
use theos.Crabfs.Error.{ReadError}
use theos.Crabfs.OnDisk.Inode.{Inode}

abbrev pub file_max_slots : ℕ
file_max_slots = 64

abbrev pub pipe_capacity : ℕ
pipe_capacity = 65536

pub data VfsError : Type 0 where
  not_mounted not_found not_directory invalid_path io_error invalid_fd would_block : VfsError
  broken_pipe : VfsError

pub data SpecialFd : Type 0 where
  stdin stdout stderr tty null_device : SpecialFd
  pipe_read pipe_write : ℕ → SpecialFd

-- `offset` and `ino` are u64.
pub record OpenFile : Type 0 where
  pub ino : ℕ
  pub offset : ℕ
  pub fd_flags : ℤ
  pub status_flags : ℤ
  pub path : Bytes
  pub special : Option SpecialFd
  pub refs : ℕ

pub record Pipe : Type 0 where
  pub buf : List ℕ
  pub readers : ℕ
  pub writers : ℕ

abbrev pub Files : Type 0
Files = List (Option OpenFile)

pub record Vfs : Type 0 where
  pub files : Files
  pub pipes : Map Pipe
  pub next_pipe_id : ℕ

-- What the file system gives: `lib/crabfs/reader.rs` over the root device and its superblock. A call
-- reads the device and leaves it as it is.
pub record FileSystem : Type 0 where
  pub rootino : ℕ
  pub find_dir_entry : ℕ → Bytes → Result ReadError (Option (ℕ × ℕ))
  pub read_inode : ℕ → Result ReadError Inode
  pub read_file_data : ℕ → ℕ → ℕ → Result ReadError (List ℕ)
  pub from_utf8_lossy : List ℕ → Bytes

abbrev pub standard : Bytes → SpecialFd → OpenFile
standard path special = record {
  ino = 0;
  offset = 0;
  fd_flags = pos 0;
  status_flags = pos 0;
  path = path;
  special = some special;
  refs = 1;
}

-- The table that a mounted file system starts with.
unfoldable pub mount : Vfs
mount = record {
  files =
      set
        (set (set (replicate file_max_slots none) 0 (some (standard (codes "/dev/stdin") stdin))) 1
          (some (standard (codes "/dev/stdout") stdout)))
        2 (some (standard (codes "/dev/stderr") stderr));
  pipes = [];
  next_pipe_id = 1;
}

-- `usize::try_from(fd)`
abbrev pub slot_of : ℤ → Result VfsError ℕ
slot_of (pos n) = ok n
slot_of (negsuc n) = err invalid_fd

-- What a slot holds: nothing, also out of range.
abbrev pub entry : Files → ℕ → Option OpenFile
entry [] i = none
entry (f ∷ fs) zero = f
entry (f ∷ fs) (suc i) = entry fs i

abbrev pub file : Vfs → ℤ → Result VfsError OpenFile
file v (pos n) = ok_or (entry v.files n) invalid_fd
file v (negsuc n) = err invalid_fd

abbrev pub put_entry : Vfs → ℕ → Option OpenFile → Vfs
put_entry v slot f = record v { files = set v.files slot f }

-- `file_mut(fd)` and an assignment through it.
abbrev pub put_file : Vfs → ℤ → OpenFile → Vfs
put_file v (pos n) f = put_entry v n (some f)
put_file v (negsuc n) f = v

-- The first empty slot of a table whose first slot has the number `idx`.
unfoldable pub find_none : Files → ℕ → Option ℕ
find_none [] idx = none
find_none (none ∷ fs) idx = some idx
find_none (some f ∷ fs) idx = find_none fs (suc idx)

abbrev pub alloc_fd_slot_from : Vfs → ℕ → Result VfsError ℕ
alloc_fd_slot_from v start = ok_or (find_none (drop start v.files) start) invalid_fd

abbrev pub alloc_fd_slot : Vfs → Result VfsError ℕ
alloc_fd_slot v = ok_or (find_none v.files 0) invalid_fd
