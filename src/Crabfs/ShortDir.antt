-- ===== src/Crabfs/ShortDir.antt =====
-- A directory inside its inode: `lib/crabfs/on_disk/dir.rs` parses it, `list_dir_entries` and
-- `find_dir_entry` of `lib/crabfs/reader.rs` walk it, and `build_payload` of `lib/crabfs/pack.rs`
-- writes it and chooses between it and the form of ExtentDir.
pub mod Read
pub mod Choice
pub mod Find
use theos.Base.{ℕ, zero, suc, ◌+◌, List, [], ◌∷◌, ◌++◌, length, leb, ◌==◌, Bool, true, false}
use theos.Base.{Option, none, some, Exec, done, ◌>>=◌, ◌>>?◌, Result, ok, err, and_then, ok_then}
use theos.Base.{index, slice, slice_from, if◌then◌else◌}
use theos.Crabfs.Error.{ParseError, WriteError}
use theos.Crabfs.Endian.{Buffer, be_u16, be_u32, be_u64, require_len, to_be_bytes}
use theos.Crabfs.ExtentDir.{
  PackedEntry, DirEntry, Decoder, inode_number, try_from, extent_payload, dot_entries, bytes_eq,
}
use theos.Crabfs.OnDisk.Inode.{InodeFormat, inline, extents}

pub record DirSfHeader : Type 0 where
  pub count : ℕ
  pub i8count : ℕ
  pub parent : ℕ

pub record DirSfEntry : Type 0 where
  pub namelen : ℕ
  pub offset : ℕ
  pub name : List ℕ
  pub ftype : ℕ
  pub inumber : ℕ

-- An inode number at `off`, of 4 bytes or of 8, and its size.
abbrev pub sized_number : Buffer → ℕ → ℕ → Exec (Result ParseError (ℕ × ℕ))
sized_number bytes i8count off =
    if i8count == 0
    then (and_then (require_len bytes (off + 4)) λ _. be_u32 bytes off >>= λ n. done (ok (n, 4)))
    else (and_then (require_len bytes (off + 8)) λ _. be_u64 bytes off >>= λ n. done (ok (n, 8)))

unfoldable pub parse_header : Buffer → Exec (Result ParseError (DirSfHeader × ℕ))
parse_header bytes = and_then (require_len bytes 3) λ _. index bytes 0 >>= λ count.
    index bytes 1 >>= λ i8count. sized_number bytes i8count 2 >>? λ number.
    done (ok (record { count = count; i8count = i8count; parent = number.0 }, 2 + number.1))

-- The kind at `off`, if the entries have one, and where the entry goes on.
abbrev pub kind_at : Buffer → Bool → ℕ → Exec (Result ParseError (ℕ × ℕ))
kind_at bytes has_ftype off =
    if has_ftype
    then (and_then (require_len bytes (off + 1))
        λ _. index bytes off >>= λ f. done (ok (f, off + 1)))
    else done (ok (0, off))

unfoldable pub parse_entry : Decoder → Buffer → ℕ → Bool → Exec (Result ParseError (DirSfEntry × ℕ))
parse_entry from_utf8_lossy bytes i8count has_ftype = and_then (require_len bytes 3) λ _.
    index bytes 0 >>= λ namelen. be_u16 bytes 1 >>= λ offset.
    and_then (require_len bytes (3 + namelen)) λ _. slice bytes 3 namelen >>= λ name.
    kind_at bytes has_ftype (3 + namelen) >>? λ kind.
    sized_number bytes i8count kind.1 >>? λ number. done (
      ok (
        record {
          namelen = namelen;
          offset = offset;
          name = from_utf8_lossy name;
          ftype = kind.0;
          inumber = number.0;
        },
        kind.1 + number.1,
      ))

-- The loop of `list_dir_entries`.
unfoldable pub short_entries :
    Decoder → Buffer → ℕ → Bool → ℕ → ℕ → List DirEntry → Exec (Result ParseError (List DirEntry))
short_entries from_utf8_lossy bytes i8count has_ftype zero pos entries = done (ok entries)
short_entries from_utf8_lossy bytes i8count has_ftype (suc n) pos entries =
    slice_from bytes pos >>= λ rest.
    parse_entry from_utf8_lossy rest i8count has_ftype >>? λ parsed.
    short_entries from_utf8_lossy bytes i8count has_ftype n (pos + parsed.1) (
      entries
      ++ (record { ino = parsed.0.inumber; name = parsed.0.name; ftype = parsed.0.ftype } ∷ []))

-- `list_dir_entries` of an inode in the format `Local`: `bytes` is what stands behind its header.
unfoldable pub list_short : Decoder → Buffer → ℕ → Bool → Exec (Result ParseError (List DirEntry))
list_short from_utf8_lossy bytes ino_num has_ftype = parse_header bytes >>? λ header.
    short_entries from_utf8_lossy bytes header.0.i8count has_ftype header.0.count header.1
      (dot_entries ino_num header.0.parent)

-- The loop of `find_dir_entry`. It compares the bytes of the name as they stand.
unfoldable pub find_short_entries :
    Decoder → Buffer → ℕ → Bool → ℕ → ℕ → List ℕ → Exec (Result ParseError (Option (ℕ × ℕ)))
find_short_entries from_utf8_lossy bytes i8count has_ftype zero pos target = done (ok none)
find_short_entries from_utf8_lossy bytes i8count has_ftype (suc n) pos target =
    slice_from bytes pos >>= λ rest.
    parse_entry from_utf8_lossy rest i8count has_ftype >>? λ parsed.
    slice bytes (pos + 3) parsed.0.namelen >>= λ name. elim (bytes_eq name target) [
      | true ↦ done (ok (some (parsed.0.inumber, parsed.0.ftype)))
      | false ↦ find_short_entries from_utf8_lossy bytes i8count has_ftype n (pos + parsed.1) target
    ]

-- `find_dir_entry` of an inode in the format `Local`.
unfoldable pub find_short :
    Decoder → Buffer → ℕ → Bool → List ℕ → Exec (Result ParseError (Option (ℕ × ℕ)))
find_short from_utf8_lossy bytes dir_ino has_ftype target = parse_header bytes >>? λ header.
    if bytes_eq target (46 ∷ [])
    then done (ok (some (dir_ino, 2)))
    else (if bytes_eq target (46 ∷ 46 ∷ [])
        then done (ok (some (header.0.parent, 2)))
        else find_short_entries from_utf8_lossy bytes header.0.i8count has_ftype header.0.count
            header.1 target)

-- The bytes of one entry, the `slot + 1`th.
abbrev pub short_entry : ℕ → PackedEntry → ℕ → ℕ → List ℕ
short_entry rootino entry namelen offset =
    namelen
    ∷ (to_be_bytes 2 offset
        ++ (entry.name ++ (entry.ftype ∷ to_be_bytes 8 (inode_number rootino entry.inode_index))))

unfoldable pub pack_entries : ℕ → ℕ → List PackedEntry → Result WriteError (List ℕ)
pack_entries rootino slot [] = ok []
pack_entries rootino slot (entry ∷ entries) =
    let rest = pack_entries rootino (slot + 1) entries in
    ok_then (try_from 256 (length entry.name)) λ namelen.
      ok_then (try_from 65536 (slot + 1))
        λ offset. ok_then rest λ behind. ok (short_entry rootino entry namelen offset ++ behind)

unfoldable pub short_payload : ℕ → ℕ → List PackedEntry → Result WriteError (List ℕ)
short_payload rootino parent_index entries = ok_then (try_from 256 (length entries)) λ count.
    ok_then (pack_entries rootino 0 entries)
      λ body. ok (count ∷ 1 ∷ (to_be_bytes 8 (inode_number rootino parent_index) ++ body))

-- `LOCAL_FORK_BYTES`
abbrev pub local_fork_bytes : ℕ
local_fork_bytes = 336

-- `build_payload` of a directory.
unfoldable pub directory_payload : ℕ → ℕ → List PackedEntry → Result WriteError (List ℕ)
directory_payload rootino parent_index entries =
    if leb (length entries) 255
    then (ok_then (short_payload rootino parent_index entries) λ candidate.
        if leb (length candidate) local_fork_bytes
        then ok candidate
        else extent_payload rootino parent_index entries)
    else extent_payload rootino parent_index entries

-- The format that `pack_from_directory` gives the inode of a payload.
abbrev pub payload_format : List ℕ → InodeFormat
payload_format payload = if leb (length payload) local_fork_bytes then inline else extents
