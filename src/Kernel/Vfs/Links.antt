-- ===== src/Kernel/Vfs/Links.antt =====
-- `lookup_path_inner` of kernel/vfs.rs on a symbolic link to itself.
use theos.Base.{
  ℕ, zero, suc, ◌≡◌, ◌≢◌, refl, arith, true, false, some, [], ◌∷◌, length, ◌==◌, ok, err,
}
use theos.Base.Text.{Bytes, slash, trim_slashes}
use theos.Crabfs.OnDisk.Inode.{Inode}
use theos.Kernel.Vfs.{FileSystem, invalid_path}
use theos.Kernel.Vfs.Paths.{cut, split_first_component}
use theos.Kernel.Vfs.Lookup.{is_symlink, read_symlink_inode, follow, visit, lookup_path_inner}
use theos.Kernel.Vfs.Walks.{walk-turn}

-- A name of one component.
abbrev pub NoSlash : Bytes → Type 0
NoSlash [] = Unit
NoSlash (b ∷ bs) = (b ≢ slash) × NoSlash bs

word : (b : ℕ) → b ≢ slash → (b == slash) ≡ false
word b h = ground arith

cut_name : (name : Bytes) → NoSlash name → cut name ≡ (name, [])
unfolding cut
cut_name [] h = refl
cut_name (b ∷ bs) h = rw (word b h.0, cut_name bs h.1) refl

trim_name : (b : ℕ) (bs : Bytes) → b ≢ slash → trim_slashes (b ∷ bs) ≡ b ∷ bs
unfolding trim_slashes
trim_name b bs h = rw (word b h) refl

split_name : (b : ℕ) (bs : Bytes) → NoSlash (b ∷ bs) → split_first_component (b ∷ bs) ≡ (b ∷ bs, [])
unfolding split_first_component trim_slashes
split_name b bs h = rw (trim_name b bs h.0, cut_name (b ∷ bs) h) refl

module _ (fs : FileSystem) (b : ℕ) (bs : Bytes) (ino ftype : ℕ) (inode : Inode) where
  abbrev link_path : Bytes
  link_path = slash ∷ b ∷ bs

  visit_link :
      fs.find_dir_entry fs.rootino (b ∷ bs) ≡ ok (some (ino, ftype))
      → fs.read_inode ino ≡ ok inode
      → is_symlink inode ≡ true
      → read_symlink_inode fs ino ≡ ok link_path
      → visit fs true fs.rootino (slash ∷ []) (b ∷ bs) [] ≡ ok (follow link_path)
  unfolding visit
  visit_link found read link target = rw (found, read, link, target) refl

-- A symbolic link in the root directory that names itself: the lookup of it comes back, with the error
-- for an invalid path, at whatever depth it starts.
pub lookup_path_inner-self_link :
    (fs : FileSystem) (b : ℕ) (bs : Bytes) (ino ftype : ℕ) (inode : Inode)
    → NoSlash (b ∷ bs)
    → fs.find_dir_entry fs.rootino (b ∷ bs) ≡ ok (some (ino, ftype))
    → fs.read_inode ino ≡ ok inode
    → is_symlink inode ≡ true
    → read_symlink_inode fs ino ≡ ok (slash ∷ b ∷ bs)
    → (depth : ℕ) → lookup_path_inner fs true depth (slash ∷ b ∷ bs) ≡ err invalid_path
unfolding lookup_path_inner trim_slashes
lookup_path_inner-self_link fs b bs ino ftype inode name found read link target zero = refl
lookup_path_inner-self_link fs b bs ino ftype inode name found read link target (suc depth) =
    let trimmed : trim_slashes (b ∷ bs) ≡ b ∷ bs = trim_name b bs name.0 in
    rw
      (
        trimmed,
        walk-turn fs (lookup_path_inner fs true depth) true (length (b ∷ bs)) fs.rootino
            (slash ∷ []) b bs,
        split_name b bs name,
        visit_link fs b bs ino ftype inode found read link target,
      )
      (lookup_path_inner-self_link fs b bs ino ftype inode name found read link target depth)
