-- ===== src/Kernel/Tests/Paths.antt =====
-- The theorems on the paths of kernel/vfs.rs at concrete inputs.
use theos.Base.{ℕ, ◌+◌, ◌≡◌, refl, arith, true, false, [], some, ok, err, if◌then◌else◌, subst}
use theos.Base.Text.{codes, starts_with_slash, trim_slashes}
use theos.Base.Int.{pos}
use theos.Crabfs.OnDisk.Inode.{Inode, extents}
use theos.Kernel.Vfs.{FileSystem, invalid_path}
use theos.Kernel.Vfs.Paths.{normalize_path, str_eq_lit, str_starts_with_lit}
use theos.Kernel.Vfs.Lookup.{is_symlink, lookup_path_inner, read_symlink_inode, walk}
use theos.Kernel.Vfs.Components.{components}
use theos.Kernel.Vfs.Walks.{walk-fuel}
use theos.Kernel.Vfs.Resolve.{resolve, lookup_path_inner-resolve}
use theos.Kernel.Vfs.Links.{lookup_path_inner-self_link}

abbrev inode : ℕ → Inode
inode mode = record {
  magic = 0x494e;
  mode = mode;
  version = 3;
  format = extents;
  onlink = 0;
  uid = 0;
  gid = 0;
  nlink = 1;
  projid = 0;
  flushiter = 0;
  atime = (pos 0, 0);
  mtime = (pos 0, 0);
  ctime = (pos 0, 0);
  size = pos 2;
  nblocks = 0;
  extsize = 0;
  nextents = 0;
  anextents = 0;
  forkoff = 0;
  aformat = extents;
  dmevmask = 0;
  dmstate = 0;
  flags = 0;
  generation = 0;
  next_unlinked = 0;
  crc = 0;
  change_count = 0;
  lsn = 0;
  flags2 = 0;
  cowextsize = 0;
  crtime = (pos 0, 0);
  ino = 0;
  uuid = [];
}

-- Every name is there, with the next number; each inode has the mode, and the bytes of "/a".
abbrev files : ℕ → FileSystem
files mode = record {
  rootino = 128;
  find_dir_entry = λ ino name. ok (some (ino + 1, 0));
  read_inode = λ ino. ok (inode mode);
  read_file_data = λ ino offset len. ok (codes "/a");
  from_utf8_lossy = λ bytes. bytes;
}

abbrev directory_mode : ℕ
directory_mode = 0x41ed

abbrev link_mode : ℕ
link_mode = 0xa1ff

no_links :
    (ino : ℕ) (i : Inode) → (files directory_mode).read_inode ino ≡ ok i → is_symlink i ≡ false
no_links ino i e =
    let same : inode directory_mode ≡ i = cc in subst (λ i. is_symlink i ≡ false) same refl

lookup_path_inner-resolve_example :
    lookup_path_inner (files directory_mode) true 17 (codes "//a/b/") ≡ (
      if starts_with_slash (codes "//a/b/")
      then resolve (files directory_mode) 128 (components (codes "//a/b/"))
      else err invalid_path)
lookup_path_inner-resolve_example =
    lookup_path_inner-resolve (files directory_mode) no_links true 16 (codes "//a/b/")

trimmed : trim_slashes (codes "a/b") ≡ codes "a/b"
unfolding trim_slashes
trimmed = refl

walk-fuel_example :
    walk (files link_mode) (λ path. err invalid_path) false 3 128 (codes "/") (codes "a/b")
    ≡ walk (files link_mode) (λ path. err invalid_path) false 9 128 (codes "/") (codes "a/b")
walk-fuel_example =
    walk-fuel (files link_mode) (λ path. err invalid_path) false 3 9 128 (codes "/") (codes "a/b")
      trimmed (omega arith) (omega arith)

link_text : read_symlink_inode (files link_mode) 129 ≡ ok (codes "/a")
unfolding read_symlink_inode
link_text = refl

lookup_path_inner-self_link_example :
    lookup_path_inner (files link_mode) true 17 (codes "/a") ≡ err invalid_path
lookup_path_inner-self_link_example =
    lookup_path_inner-self_link (files link_mode) 97 [] 129 0 (inode link_mode) (omega arith, tt)
      refl refl refl link_text 17

normalize_lib : normalize_path (codes "lib/x") ≡ codes "/usr/lib/x"
unfolding normalize_path str_eq_lit str_starts_with_lit
normalize_lib = refl
