-- ===== src/Kernel/Vfs/Resolve.antt =====
-- `lookup_path_inner` of kernel/vfs.rs against the components of the path, and on a link to itself.
use theos.Base.{
  ℕ, zero, suc, ◌≤◌, ◌≡◌, refl, sym, ap, ◌∙◌, arith, Bool, false, Bool-cases, inl, inr, List, [],
  ◌∷◌, length, ◌==◌, if◌then◌else◌, Result, ok, err, ok_then,
}
use theos.Base.Text.{Bytes, slash, trim_slashes, starts_with_slash}
use theos.Crabfs.Error.{ReadError}
use theos.Crabfs.OnDisk.Inode.{Inode}
use theos.Kernel.Vfs.{FileSystem, VfsError, invalid_path}
use theos.Kernel.Vfs.Paths.{split_first_component}
use theos.Kernel.Vfs.Lookup.{
  or_io, entry_ino, is_symlink, visit, visit_inode, walk, extend, lookup_path_inner,
}
use theos.Kernel.Vfs.Components.{
  components, IsTrimmed, trim_slashes-IsTrimmed, length-trim_slashes, components-trim_slashes,
  Split, split, split_first_component-Split,
}
use theos.Kernel.Vfs.Walks.{go_on, turn, walk-turn, walk-nil}

-- From directory to directory, by name. Each inode on the way is read.
unfoldable pub resolve : FileSystem → ℕ → List Bytes → Result VfsError ℕ
resolve fs cur [] = ok cur
resolve fs cur (part ∷ parts) =
    ok_then (entry_ino fs cur part)
      λ ino. ok_then (or_io (fs.read_inode ino)) λ inode. resolve fs ino parts

resolve-nil : (fs : FileSystem) (cur : ℕ) → resolve fs cur (components []) ≡ ok cur
unfolding resolve components
resolve-nil fs cur = refl

module _ (fs : FileSystem)
    (no_links : (ino : ℕ) (inode : Inode) → fs.read_inode ino ≡ ok inode → is_symlink inode ≡ false)
    (again : Bytes → Result VfsError ℕ) (ff : Bool) where
  -- A component that is there and is no link, by what is behind it.
  passed :
      (ino : ℕ) (inode : Inode)
      → fs.read_inode ino ≡ ok inode
      → (prefix rest : Bytes) (rest_of : ℕ → Result VfsError ℕ)
      → ((ino : ℕ) → rest_of ino ≡ resolve fs ino (components rest))
      → go_on fs again ff (visit_inode fs ff prefix rest ino inode) rest_of
        ≡ resolve fs ino (components rest)
  unfolding resolve components
  passed ino inode e prefix [] rest_of h = rw (no_links ino inode e) refl
  passed ino inode e prefix (b ∷ bs) rest_of h = rw (no_links ino inode e) (h ino)

  visited :
      (cur : ℕ) (prefix part rest : Bytes) (rest_of : ℕ → Result VfsError ℕ)
      → ((ino : ℕ) → rest_of ino ≡ resolve fs ino (components rest))
      → go_on fs again ff (visit fs ff cur prefix part rest) rest_of
        ≡ resolve fs cur (part ∷ components rest)
  unfolding visit resolve
  visited cur prefix part rest rest_of h = on_entry (entry_ino fs cur part)
    where
      on_inode :
          (ino : ℕ) (r : Result ReadError Inode)
          → fs.read_inode ino ≡ r
          → go_on fs again ff (ok_then (or_io r) (visit_inode fs ff prefix rest ino)) rest_of
            ≡ ok_then (or_io r) (λ inode. resolve fs ino (components rest))
      on_inode ino (err e) same = refl
      on_inode ino (ok inode) same = passed ino inode same prefix rest rest_of h

      on_entry :
          (r : Result VfsError ℕ)
          → go_on fs again ff
              (ok_then r
                λ ino. ok_then (or_io (fs.read_inode ino)) (visit_inode fs ff prefix rest ino))
              rest_of
            ≡ ok_then r (λ ino.
              ok_then (or_io (fs.read_inode ino)) λ inode. resolve fs ino (components rest))
      on_entry (err e) = refl
      on_entry (ok ino) = on_inode ino (fs.read_inode ino) refl

  turned :
      (n b cur : ℕ) (bs prefix : Bytes)
      → ((ino : ℕ) (prefix rest : Bytes)
          → IsTrimmed rest
          → length rest ≤ length bs
          → walk fs again ff n ino prefix rest ≡ resolve fs ino (components rest))
      → (x : Bytes × Bytes) → Split b bs x
      → turn fs again ff cur prefix x (walk fs again ff n) ≡ resolve fs cur (components (b ∷ bs))
  turned n b cur bs prefix h x (split w rest trimmed shorter words) =
      visited cur prefix (b ∷ w) rest (λ ino. walk fs again ff n ino (extend prefix (b ∷ w)) rest)
        (λ ino. h ino (extend prefix (b ∷ w)) rest trimmed shorter)
      ∙ ap (resolve fs cur) (sym words)

  walk-resolve :
      (n cur : ℕ) (prefix remaining : Bytes)
      → IsTrimmed remaining
      → length remaining ≤ n
      → walk fs again ff n cur prefix remaining ≡ resolve fs cur (components remaining)
  walk-resolve n cur prefix [] t h = walk-nil fs again ff n cur prefix ∙ sym (resolve-nil fs cur)
  walk-resolve zero cur prefix (b ∷ bs) t h = absurd (omega arith)
  walk-resolve (suc n) cur prefix (b ∷ bs) t h =
      walk-turn fs again ff n cur prefix b bs
      ∙ turned n b cur bs prefix
          (λ ino prefix' rest t' shorter. walk-resolve n ino prefix' rest t' (omega arith))
          (split_first_component (b ∷ bs)) (split_first_component-Split b bs t)

-- On a file system without symbolic links, the lookup of an absolute path is the walk from directory to
-- directory along the words between its slashes, errors included, however many slashes stand between
-- them, in front and at the end. A path that is not absolute is refused.
pub lookup_path_inner-resolve :
    (fs : FileSystem)
    → ((ino : ℕ) (inode : Inode) → fs.read_inode ino ≡ ok inode → is_symlink inode ≡ false)
    → (follow_final : Bool) (depth : ℕ) (path : Bytes)
    → lookup_path_inner fs follow_final (suc depth) path ≡ (
        if starts_with_slash path
        then resolve fs fs.rootino (components path)
        else err invalid_path)
unfolding lookup_path_inner
lookup_path_inner-resolve fs no_links ff depth [] = refl
lookup_path_inner-resolve fs no_links ff depth (b ∷ bs) = elim (Bool-cases (b == slash)) [
  | inl absolute ↦ rw absolute (
      walk-resolve fs no_links (lookup_path_inner fs ff depth) ff (length (b ∷ bs)) fs.rootino
        (slash ∷ []) (trim_slashes (b ∷ bs)) (trim_slashes-IsTrimmed (b ∷ bs))
        (length-trim_slashes (b ∷ bs))
      ∙ ap (resolve fs fs.rootino) (components-trim_slashes (b ∷ bs)))
  | inr relative ↦ rw relative refl
]
