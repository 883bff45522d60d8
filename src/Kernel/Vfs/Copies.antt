-- ===== src/Kernel/Vfs/Copies.antt =====
-- Copies of descriptors in kernel/vfs.rs, `dup_fd`, against the counts that a pipe keeps.
use theos.Base.{
  ℕ, zero, suc, ◌<◌, ◌≡◌, refl, arith, Bool, Option, some, List, [], ◌∷◌, set, length, Result, ok,
  ok_or, attempt,
}
use theos.Base.Int.{ℤ, pos}
use theos.Kernel.Vfs.{Vfs, VfsError, invalid_fd, OpenFile, Pipe, entry, put_entry}
use theos.Kernel.Vfs.Dup.{copied}
use theos.Kernel.Vfs.Ends.{Free}

pub entry-set_self :
    (fs : List (Option OpenFile)) (i : ℕ) (f : Option OpenFile)
    → i < length fs
    → entry (set fs i f) i ≡ f
entry-set_self [] i f h = absurd (omega arith)
entry-set_self (g ∷ fs) zero f h = refl
entry-set_self (g ∷ fs) (suc i) f h = entry-set_self fs i f (omega arith)

-- What a copy does: the file goes to the first empty slot from `min_fd` on.
pub data Copied (v : Vfs) (of : OpenFile) (cloexec : Bool) (start k : ℕ) (u : Vfs) : Type 0 where
  copied_to :
      Free v.files start k
      → u ≡ put_entry v k (some (copied of cloexec))
      → Copied v of cloexec start k u

abbrev dup_to : Vfs → Bool → Result VfsError OpenFile → Option ℕ → Result VfsError ℤ × Vfs
dup_to v cloexec r o = attempt r v λ src.
    attempt (ok_or o invalid_fd) v
      λ slot. (ok (pos slot), put_entry v slot (some (copied src cloexec)))

-- An empty pipe with readers.
abbrev pub idle : ℕ → ℕ → Pipe
idle readers writers = record { buf = []; readers = suc readers; writers = writers }
