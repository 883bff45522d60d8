-- ===== src/Crabfs/ExtentDir.antt =====
-- A directory in its own blocks: `build_payload` of `lib/crabfs/pack.rs` writes it, and
-- `parse_extent_dir_entries` and `find_extent_dir_entry` of `lib/crabfs/reader.rs` read it. A name is
-- its bytes; `from_utf8_lossy` is the decoder that the reader puts names through.
pub mod Pack
pub mod Read
pub mod Total
use theos.Base.{ℕ, zero, suc, ◌+◌, List, [], ◌∷◌, ◌++◌, length, ltb, ◌==◌, Bool, true, false, ◌&&◌}
use theos.Base.{
  Option, none, some, Exec, done, panic, ◌>>=◌, ◌>>◌, Result, ok, err, and_then, ok_then,
}
use theos.Base.{index, slice, slice_from, if◌then◌else◌}
use theos.Crabfs.Error.{ParseError, buffer_too_small, WriteError, try_from_int}
use theos.Crabfs.Endian.{Buffer, be_u16, be_u32, be_u64, require_len, to_be_bytes}

-- `b"CDIR0001"`
abbrev pub crabfs_extent_dir_magic : List ℕ
crabfs_extent_dir_magic = 67 ∷ 68 ∷ 73 ∷ 82 ∷ 48 ∷ 48 ∷ 48 ∷ 49 ∷ []

pub record PackedEntry : Type 0 where
  pub name : List ℕ
  pub inode_index : ℕ
  pub ftype : ℕ

pub record DirEntry : Type 0 where
  pub ino : ℕ
  pub name : List ℕ
  pub ftype : ℕ

-- `u16::try_from` and its like, with one more than the largest number of the type.
abbrev pub try_from : ℕ → ℕ → Result WriteError ℕ
try_from limit n = if ltb n limit then ok n else err try_from_int

abbrev pub inode_number : ℕ → ℕ → ℕ
inode_number rootino i = rootino + i

-- The bytes of one entry.
abbrev pub entry_bytes : ℕ → PackedEntry → ℕ → List ℕ
entry_bytes rootino entry name_len =
    to_be_bytes 8 (inode_number rootino entry.inode_index)
    ++ (entry.ftype ∷ (to_be_bytes 2 name_len ++ entry.name))

unfoldable pub extent_entries : ℕ → List PackedEntry → Result WriteError (List ℕ)
extent_entries rootino [] = ok []
extent_entries rootino (entry ∷ entries) =
    let rest = extent_entries rootino entries in
    ok_then (try_from 65536 (length entry.name))
      λ name_len. ok_then rest λ behind. ok (entry_bytes rootino entry name_len ++ behind)

unfoldable pub extent_payload : ℕ → ℕ → List PackedEntry → Result WriteError (List ℕ)
extent_payload rootino parent_index entries =
    ok_then (try_from 4294967296 (length entries)) λ count.
      ok_then (extent_entries rootino entries) λ body. ok (
        crabfs_extent_dir_magic
        ++ (to_be_bytes 4 count ++ (to_be_bytes 8 (inode_number rootino parent_index) ++ body)))

unfoldable pub bytes_eq : List ℕ → List ℕ → Bool
bytes_eq [] [] = true
bytes_eq [] (b ∷ right) = false
bytes_eq (a ∷ left) [] = false
bytes_eq (a ∷ left) (b ∷ right) = a == b && bytes_eq left right

abbrev pub Decoder : Type 0
Decoder = List ℕ → List ℕ

-- The loop of `parse_extent_dir_entries`.
unfoldable pub parse_entries :
    Decoder → Buffer → ℕ → ℕ → List DirEntry → Exec (Result ParseError (List DirEntry))
parse_entries from_utf8_lossy bytes zero pos entries = done (ok entries)
parse_entries from_utf8_lossy bytes (suc n) pos entries =
    and_then (require_len bytes (pos + 11)) λ _. be_u64 bytes pos >>= λ ino.
    index bytes (pos + 8) >>= λ ftype. be_u16 bytes (pos + 9) >>= λ name_len.
    and_then (require_len bytes (pos + 11 + name_len)) λ _.
      slice bytes (pos + 11) name_len >>= λ name.
      parse_entries from_utf8_lossy bytes n (pos + 11 + name_len)
        (entries ++ (record { ino = ino; name = from_utf8_lossy name; ftype = ftype } ∷ []))

abbrev pub dot_entries : ℕ → ℕ → List DirEntry
dot_entries ino_num parent =
    record { ino = ino_num; name = 46 ∷ []; ftype = 2 }
    ∷ record { ino = parent; name = 46 ∷ 46 ∷ []; ftype = 2 }
    ∷ []

-- For how many entries the allocator has memory.
abbrev pub Memory : Type 0
Memory = ℕ → Bool

-- `Vec::with_capacity`: without memory the run ends.
abbrev pub with_capacity : Memory → ℕ → Exec (Unit {0})
with_capacity memory n = if memory n then done tt else panic

unfoldable pub parse_extent_dir_entries :
    Memory → Decoder → Buffer → ℕ → Exec (Result ParseError (List DirEntry))
parse_extent_dir_entries memory from_utf8_lossy bytes ino_num =
    if ltb (length bytes) 20
    then done (err (buffer_too_small 20 (length bytes)))
    else (be_u32 bytes 8 >>= λ count. be_u64 bytes 12 >>= λ parent.
        with_capacity memory (count + 2)
        >> parse_entries from_utf8_lossy bytes count 20 (dot_entries ino_num parent))

-- The loop of `find_extent_dir_entry`.
unfoldable pub find_entries : Buffer → ℕ → ℕ → List ℕ → Exec (Result ParseError (Option (ℕ × ℕ)))
find_entries bytes zero pos target = done (ok none)
find_entries bytes (suc n) pos target = and_then (require_len bytes (pos + 11)) λ _.
    be_u64 bytes pos >>= λ ino. index bytes (pos + 8) >>= λ ftype.
    be_u16 bytes (pos + 9) >>= λ name_len. and_then (require_len bytes (pos + 11 + name_len)) λ _.
      slice bytes (pos + 11) name_len >>= λ name. elim (bytes_eq name target) [
        | true ↦ done (ok (some (ino, ftype)))
        | false ↦ find_entries bytes n (pos + 11 + name_len) target
      ]

unfoldable pub find_extent_dir_entry :
    Buffer → ℕ → List ℕ → Exec (Result ParseError (Option (ℕ × ℕ)))
find_extent_dir_entry bytes ino_num target =
    if ltb (length bytes) 20
    then done (err (buffer_too_small 20 (length bytes)))
    else (be_u32 bytes 8 >>= λ count. be_u64 bytes 12 >>= λ parent.
        if bytes_eq target (46 ∷ [])
        then done (ok (some (ino_num, 2)))
        else (if bytes_eq target (46 ∷ 46 ∷ [])
            then done (ok (some (parent, 2)))
            else find_entries bytes count 20 target))
