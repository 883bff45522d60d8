-- ===== src/Kernel/Vfs/Dup.antt =====
-- The copies of descriptors in kernel/vfs.rs: `dup_fd`, `dup2_fd` and `clone_handle`.
use theos.Base.{ℕ, ◌+◌, min, Bool, Option, none, some, length, ltb, if◌then◌else◌}
use theos.Base.{Result, ok, err, attempt}
use theos.Base.Int.{ℤ, pos, negsuc}
use theos.Kernel.Vfs.{
  Vfs, VfsError, invalid_fd, OpenFile, file, put_entry, entry, slot_of, alloc_fd_slot_from,
}

-- `min_fd.max(0)`
abbrev pub at_least_zero : ℤ → ℕ
at_least_zero (pos n) = n
at_least_zero (negsuc n) = 0

abbrev pub copied : OpenFile → Bool → OpenFile
copied src cloexec = record src { fd_flags = if cloexec then pos 1 else pos 0 }

unfoldable pub dup_fd : Vfs → ℤ → ℤ → Bool → Result VfsError ℤ × Vfs
dup_fd v fd min_fd cloexec = attempt (file v fd) v λ src.
    attempt (alloc_fd_slot_from v (at_least_zero min_fd)) v
      λ slot. (ok (pos slot), put_entry v slot (some (copied src cloexec)))

unfoldable pub dup2_fd : Vfs → ℤ → ℤ → Bool → Result VfsError ℤ × Vfs
dup2_fd v oldfd newfd cloexec = attempt (file v oldfd) v λ src. attempt (slot_of newfd) v λ slot.
    if ltb slot (length v.files)
    then (ok newfd, put_entry v slot (some (copied src cloexec)))
    else (err invalid_fd, v)

-- usize, saturating.
abbrev pub one_more : ℕ → ℕ
one_more refs = min (refs + 1) 18446744073709551615

abbrev pub clone_entry : Vfs → ℤ → ℕ → Option OpenFile → Result VfsError ℤ × Vfs
clone_entry v fd slot none = (err invalid_fd, v)
clone_entry v fd slot (some f) =
    (ok fd, put_entry v slot (some (record f { refs = one_more f.refs })))

unfoldable pub clone_handle : Vfs → ℤ → Result VfsError ℤ × Vfs
clone_handle v fd = attempt (slot_of fd) v λ slot. clone_entry v fd slot (entry v.files slot)
