-- ===== src/Crabfs/ExtentDir/Pack.antt =====
-- What the packer writes for a directory whose names and numbers fit their fields.
use theos.Base.{ℕ, ◌<◌, ◌≡◌, refl, lt→ltb}
use theos.Base.{List, [], ◌∷◌, ◌++◌, length, ok}
use theos.Crabfs.Endian.{bound, to_be_bytes}
use theos.Crabfs.ExtentDir.{
  PackedEntry, inode_number, entry_bytes, extent_entries, extent_payload, crabfs_extent_dir_magic,
}

-- The widths of an entry's fields.
pub record Fits (rootino : ℕ) (entry : PackedEntry) : Type 0 where
  pub name_u16 : length entry.name < bound 2
  pub ino_u64 : inode_number rootino entry.inode_index < bound 8

abbrev pub AllFit : ℕ → List PackedEntry → Type 0
AllFit rootino [] = Unit {0}
AllFit rootino (entry ∷ entries) = Fits rootino entry × AllFit rootino entries

abbrev pub body : ℕ → List PackedEntry → List ℕ
body rootino [] = []
body rootino (entry ∷ entries) =
    entry_bytes rootino entry (length entry.name) ++ body rootino entries

pub extent_entries-body :
    (rootino : ℕ) (entries : List PackedEntry)
    → AllFit rootino entries
    → extent_entries rootino entries ≡ ok (body rootino entries)
unfolding extent_entries
extent_entries-body rootino [] f = refl
extent_entries-body rootino (entry ∷ entries) (f, fs) =
    rw (lt→ltb (length entry.name) 65536 f.name_u16, extent_entries-body rootino entries fs) refl

pub extent_payload-body :
    (rootino parent_index : ℕ) (entries : List PackedEntry)
    → AllFit rootino entries
    → length entries < bound 4
    → extent_payload rootino parent_index entries
      ≡ ok (
          crabfs_extent_dir_magic
          ++ (to_be_bytes 4 (length entries)
              ++ (to_be_bytes 8 (inode_number rootino parent_index) ++ body rootino entries)))
unfolding extent_payload
extent_payload-body rootino parent_index entries f c =
    rw (lt→ltb (length entries) 4294967296 c, extent_entries-body rootino entries f) refl
