-- ===== src/Kernel/Vfs/Lookup.antt =====
-- `lookup_path_inner` of kernel/vfs.rs, with the reads that it does. The depth of links counts up to
-- 16 in the source, and is fuel here, 17 at depth 0. The loop over the components runs on the
-- number of bytes that remain.
use theos.Base.{
  ℕ, zero, suc, ◌%◌, List, [], ◌∷◌, ◌++◌, length, none, some, Bool, true, false, not, ◌&&◌, ◌||◌,
}
use theos.Base.{◌==◌, Result, ok, err, ok_then, map_err, if◌then◌else◌}
use theos.Base.Bits.{bit_and}
use theos.Base.Int.{ℤ, pos, negsuc}
use theos.Base.Text.{Bytes, slash, is_empty, starts_with_slash, ends_with_slash, trim_slashes}
use theos.Crabfs.Error.{ReadError}
use theos.Crabfs.OnDisk.Inode.{Inode}
use theos.Kernel.Vfs.{VfsError, not_found, invalid_path, io_error, FileSystem}
use theos.Kernel.Vfs.Paths.{str_eq_lit, normalize_path, split_first_component}

-- `.map_err(|_| VfsError::Io)`
abbrev pub or_io {ℓ} : {A : Type ℓ} → Result ReadError A → Result VfsError A
or_io r = map_err (λ _. io_error) r

-- `if inode.size < 0 { 0 } else { inode.size as u32 }`
abbrev pub size_as_u32 : ℤ → ℕ
size_as_u32 (pos n) = n % 4294967296
size_as_u32 (negsuc n) = 0

abbrev pub is_symlink : Inode → Bool
is_symlink inode = bit_and inode.mode 0xf000 == 0xa000

abbrev pub with_slash : Bytes → Bytes
with_slash path = if ends_with_slash path then path else path ++ slash ∷ []

-- What a component leads to: the end of the path, a link to follow, or the next directory.
pub data Visit : Type 0 where
  arrive : ℕ → Visit
  follow : Bytes → Visit
  descend : ℕ → Visit

abbrev pub max_depth : ℕ
max_depth = 17

-- Where a link with the text `target` leads, with what remains of the path behind it.
abbrev pub resolved : Bytes → Bytes → Bytes → Bytes
resolved target prefix rest =
    let base = if starts_with_slash target then target else with_slash prefix ++ target in
    if is_empty rest then base else with_slash base ++ rest

-- `prefix`, with the next component at its end.
abbrev pub extend : Bytes → Bytes → Bytes
extend prefix part =
    if str_eq_lit prefix (slash ∷ []) then prefix ++ part else prefix ++ slash ∷ part

module _ (fs : FileSystem) where
  unfoldable pub read_symlink_inode : ℕ → Result VfsError Bytes
  read_symlink_inode ino = ok_then (or_io (fs.read_inode ino)) λ inode.
      ok_then (or_io (fs.read_file_data ino 0 (size_as_u32 inode.size)))
        λ data_bytes. ok (fs.from_utf8_lossy data_bytes)

  abbrev pub entry_ino : ℕ → Bytes → Result VfsError ℕ
  entry_ino cur part =
      ok_then (or_io (fs.find_dir_entry cur part))
        λ found. elim found [ none ↦ err not_found | some (ino, _) ↦ ok ino ]

  abbrev pub visit_inode : Bool → Bytes → Bytes → ℕ → Inode → Result VfsError Visit
  visit_inode follow_final prefix rest next_ino inode =
      if is_symlink inode && (follow_final || not (is_empty rest))
      then ok_then (read_symlink_inode next_ino)
          (λ target. ok (follow (resolved target prefix rest)))
      else (if is_empty rest then ok (arrive next_ino) else ok (descend next_ino))

  unfoldable pub visit : Bool → ℕ → Bytes → Bytes → Bytes → Result VfsError Visit
  visit follow_final cur prefix part rest = ok_then (entry_ino cur part) λ next_ino.
      ok_then (or_io (fs.read_inode next_ino)) (visit_inode follow_final prefix rest next_ino)

  -- The loop over the components: `again` looks a link's path up.
  unfoldable pub walk :
      (Bytes → Result VfsError ℕ) → Bool → ℕ → ℕ → Bytes → Bytes → Result VfsError ℕ
  walk again follow_final zero cur prefix remaining = ok cur
  walk again follow_final (suc n) cur prefix [] = ok cur
  walk again follow_final (suc n) cur prefix (b ∷ bs) =
      let (part, rest) = split_first_component (b ∷ bs) in
      elim (visit follow_final cur prefix part rest) [
        | err e ↦ err e
        | ok (arrive ino) ↦ ok ino
        | ok (follow path) ↦ again path
        | ok (descend ino) ↦ walk again follow_final n ino (extend prefix part) rest
      ]

  unfoldable pub lookup_path_inner : Bool → ℕ → Bytes → Result VfsError ℕ
  lookup_path_inner follow_final zero path = err invalid_path
  lookup_path_inner follow_final (suc depth) path =
      let again = lookup_path_inner follow_final depth in
      if is_empty path || not (starts_with_slash path)
      then err invalid_path
      else walk again follow_final (length path) fs.rootino (slash ∷ []) (trim_slashes path)

  abbrev pub lookup_path : Bytes → Result VfsError ℕ
  lookup_path path = lookup_path_inner true max_depth (normalize_path path)

  abbrev pub lookup_path_nofollow : Bytes → Result VfsError ℕ
  lookup_path_nofollow path = lookup_path_inner false max_depth (normalize_path path)

  abbrev pub readlink : Bytes → Result VfsError Bytes
  readlink path = ok_then (lookup_path_nofollow path) read_symlink_inode

  abbrev pub read_all : Bytes → Result VfsError (List ℕ)
  read_all path = ok_then (lookup_path path) λ ino.
      ok_then (or_io (fs.read_inode ino))
        λ inode. or_io (fs.read_file_data ino 0 (size_as_u32 inode.size))

  abbrev pub exists_path : Bytes → Bool
  exists_path path = elim (lookup_path path) [ ok _ ↦ true | err _ ↦ false ]
