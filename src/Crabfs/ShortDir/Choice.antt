-- ===== src/Crabfs/ShortDir/Choice.antt =====
-- Which form a directory gets, and which format its inode.
use theos.Base.{ℕ, ◌+◌, ◌*◌, ◌<◌, ◌≤◌, ◌≡◌, refl, arith, le→leb, lt→not-leb, lt→ltb}
use theos.Base.{List, [], ◌∷◌, ◌++◌, length, length-append, ok}
use theos.Crabfs.Endian.{Buffer, to_be_bytes}
use theos.Crabfs.ExtentDir.{PackedEntry, inode_number, extent_payload, crabfs_extent_dir_magic}
use theos.Crabfs.ExtentDir.Pack as ExtentPack
use theos.Crabfs.OnDisk.Inode.{inline}
use theos.Crabfs.ShortDir.{short_entry, short_payload, directory_payload, payload_format}
use theos.Crabfs.ShortDir.Read as ShortRead

-- The bytes of all names.
abbrev pub name_bytes : List PackedEntry → ℕ
name_bytes [] = 0
name_bytes (entry ∷ entries) = length entry.name + name_bytes entries

length-short_body :
    (rootino slot : ℕ) (entries : List PackedEntry)
    → length (ShortRead.body rootino slot entries) ≡ 12 * length entries + name_bytes entries
length-short_body rootino slot [] = refl
length-short_body rootino slot (entry ∷ entries) = omega (
  arith,
  length-append (short_entry rootino entry (length entry.name) (slot + 1))
      (ShortRead.body rootino (slot + 1) entries),
  length-append entry.name (entry.ftype ∷ to_be_bytes 8 (inode_number rootino entry.inode_index)),
  length-short_body rootino (slot + 1) entries,
)

length-extent_body :
    (rootino : ℕ) (entries : List PackedEntry)
    → length (ExtentPack.body rootino entries) ≡ 11 * length entries + name_bytes entries
length-extent_body rootino [] = refl
length-extent_body rootino (entry ∷ entries) = omega (
  arith,
  length-append entry.name (ExtentPack.body rootino entries),
  length-extent_body rootino entries,
)

AllFit-extent :
    (rootino : ℕ) (entries : List PackedEntry)
    → ShortRead.AllFit rootino entries
    → ExtentPack.AllFit rootino entries
AllFit-extent rootino [] f = tt
AllFit-extent rootino (entry ∷ entries) (f, fs) = (
  record { name_u16 = omega (arith, f.name_u8); ino_u64 = f.ino_u64 },
  AllFit-extent rootino entries fs,
)

-- A directory of up to 255 entries whose short form is longer than 336 bytes and whose other form is
-- not: it is packed in the other form, and its inode gets the format of the short one, in which the
-- reader expects the short form.
pub directory_payload_mislabelled :
    (rootino parent_index : ℕ) (entries : List PackedEntry)
    → ShortRead.AllFit rootino entries
    → length entries ≤ 255
    → 326 < 12 * length entries + name_bytes entries
    → 11 * length entries + name_bytes entries ≤ 316
    → (bytes : Buffer) × ((extent_payload rootino parent_index entries ≡ ok bytes)
        × ((directory_payload rootino parent_index entries ≡ ok bytes)
            × (payload_format bytes ≡ inline)))
unfolding directory_payload short_payload
directory_payload_mislabelled rootino parent_index entries f n long fits = (
  packed,
  (
    in_blocks,
    (
      rw
          (
            le→leb (length entries) 255 n,
            lt→ltb (length entries) 256 (omega arith),
            ShortRead.pack_entries-body rootino 0 entries f (omega arith),
            lt→not-leb (length short) 336 (omega (arith, length-short_body rootino 0 entries)),
          )
          in_blocks,
      rw (le→leb (length packed) 336 (omega (arith, length-extent_body rootino entries))) refl,
    ),
  ),
)
  where
    short : Buffer
    short =
        length entries
        ∷ 1
        ∷ (to_be_bytes 8 (inode_number rootino parent_index) ++ ShortRead.body rootino 0 entries)

    packed : Buffer
    packed =
        crabfs_extent_dir_magic
        ++ (to_be_bytes 4 (length entries)
            ++ (to_be_bytes 8 (inode_number rootino parent_index)
                ++ ExtentPack.body rootino entries))

    in_blocks : extent_payload rootino parent_index entries ≡ ok packed
    in_blocks =
        ExtentPack.extent_payload-body rootino parent_index entries
          (AllFit-extent rootino entries f) (omega arith)
