-- ===== src/Crabfs/ExtentDir/Read.antt =====
-- What the packer writes for a directory, the reader lists and finds.
use theos.Base.{ℕ, ◌+◌, ◌<◌, ◌≤◌, ◌≡◌, refl, ap, sym, ◌∙◌, arith, subst}
use theos.Base.{
  List, [], ◌∷◌, ◌++◌, length, drop, length-append, length-drop, index, slice, Exec, done, ok,
  Result,
}
use theos.Base.{drop-drop, take-append, drop-append, append_assoc, append_nil, le→not-ltb}
use theos.Base.{Bool, true, false, Option, none, some}
use theos.Crabfs.Error.{ParseError}
use theos.Crabfs.Endian.{Buffer, bound, to_be_bytes, be_u16, be_u32, be_u64, require_len_lem}
use theos.Crabfs.Endian.Words.{be_u16-drop, be_u32-drop, be_u64-drop, index-drop, slice-drop}
use theos.Crabfs.ExtentDir.{
  PackedEntry, DirEntry, Decoder, inode_number, entry_bytes, extent_payload, parse_entries, Memory,
  parse_extent_dir_entries, find_entries, find_extent_dir_entry, bytes_eq, dot_entries,
  crabfs_extent_dir_magic,
}
use theos.Crabfs.ExtentDir.Pack.{Fits, AllFit, body, extent_payload-body}

-- An entry at `pos`.
module _ (rootino : ℕ) (entry : PackedEntry) (behind : List ℕ) (bytes : Buffer) (pos : ℕ)
    (f : Fits rootino entry)
    (e : drop pos bytes ≡ entry_bytes rootino entry (length entry.name) ++ behind) where
  room : pos + 11 + length entry.name ≤ length bytes
  room = omega (arith, length-drop pos bytes, ap length e, length-append entry.name behind)

  next : drop (pos + 11 + length entry.name) bytes ≡ behind
  next =
      drop-drop (pos + 11) (length entry.name) bytes
      ∙ ap (drop (length entry.name)) (drop-drop pos 11 bytes ∙ ap (drop 11) e)
      ∙ drop-append entry.name behind

  ino_at : be_u64 bytes pos ≡ done (inode_number rootino entry.inode_index)
  ino_at =
      subst (λ p. be_u64 bytes p ≡ done (inode_number rootino entry.inode_index)) plus_zero
        (be_u64-drop bytes pos _ e 0 _ f.ino_u64 (omega (arith, room)) refl)
    where
      plus_zero : pos + 0 ≡ pos
      plus_zero = omega arith

  ftype_at : index bytes (pos + 8) ≡ done entry.ftype
  ftype_at = index-drop bytes pos _ e 8 _ (omega (arith, room)) refl

  name_len_at : be_u16 bytes (pos + 9) ≡ done (length entry.name)
  name_len_at = be_u16-drop bytes pos _ e 9 _ f.name_u16 (omega (arith, room)) refl

  name_at : slice bytes (pos + 11) (length entry.name) ≡ done entry.name
  name_at =
      slice-drop bytes pos _ e 11 (length entry.name) entry.name room
        (take-append entry.name behind)

-- What the reader is to list.
abbrev pub listed : ℕ → List PackedEntry → List DirEntry
listed rootino [] = []
listed rootino (entry ∷ entries) =
    record { ino = inode_number rootino entry.inode_index; name = entry.name; ftype = entry.ftype }
    ∷ listed rootino entries

-- The names are texts: decoding leaves them alone.
abbrev pub AllDecode : Decoder → List PackedEntry → Type 0
AllDecode from_utf8_lossy [] = Unit {0}
AllDecode from_utf8_lossy (entry ∷ entries) =
    (from_utf8_lossy entry.name ≡ entry.name) × AllDecode from_utf8_lossy entries

parse_entries-body :
    (rootino : ℕ) (entries : List PackedEntry) (decode : Decoder) (bytes : Buffer) (pos : ℕ)
    (acc : List DirEntry)
    → AllFit rootino entries
    → AllDecode decode entries
    → drop pos bytes ≡ body rootino entries
    → parse_entries decode bytes (length entries) pos acc
      ≡ done (ok (acc ++ listed rootino entries))
unfolding parse_entries
parse_entries-body rootino [] decode bytes pos acc f d e =
    ap (λ x. done (ok x)) (sym (append_nil acc))
parse_entries-body rootino (entry ∷ entries) decode bytes pos acc (f, fs) (d, ds) e =
    rw
      (
        require_len_lem bytes (pos + 11) (omega (arith, room rootino entry _ bytes pos f e)),
        ino_at rootino entry _ bytes pos f e,
        ftype_at rootino entry _ bytes pos f e,
        name_len_at rootino entry _ bytes pos f e,
        require_len_lem bytes (pos + 11 + length entry.name) (room rootino entry _ bytes pos f e),
        name_at rootino entry _ bytes pos f e,
        d,
        parse_entries-body rootino entries decode bytes (pos + 11 + length entry.name)
            (acc
              ++ (record {
                ino = inode_number rootino entry.inode_index;
                name = entry.name;
                ftype = entry.ftype;
              }
                  ∷ []))
            fs ds (next rootino entry _ bytes pos f e),
      )
      (ap (λ x. done (ok x)) (append_assoc acc _ _))

-- The first entry of a name: its number and kind.
abbrev pub first_named : ℕ → List PackedEntry → List ℕ → Option (ℕ × ℕ)
first_named rootino [] target = none
first_named rootino (entry ∷ entries) target = elim (bytes_eq entry.name target) [
  | true ↦ some (inode_number rootino entry.inode_index, entry.ftype)
  | false ↦ first_named rootino entries target
]

pub both :
    (same : Bool) (found behind : Option (ℕ × ℕ)) (rest : Exec (Result ParseError (Option (ℕ × ℕ))))
    → rest ≡ done (ok behind)
    → elim same [ true ↦ done (ok found) | false ↦ rest ]
      ≡ done (ok (elim same [ true ↦ found | false ↦ behind ]))
both true found behind rest e = refl
both false found behind rest e = e

find_entries-body :
    (rootino : ℕ) (entries : List PackedEntry) (bytes : Buffer) (pos : ℕ) (target : List ℕ)
    → AllFit rootino entries
    → drop pos bytes ≡ body rootino entries
    → find_entries bytes (length entries) pos target
      ≡ done (ok (first_named rootino entries target))
unfolding find_entries
find_entries-body rootino [] bytes pos target f e = refl
find_entries-body rootino (entry ∷ entries) bytes pos target (f, fs) e =
    rw
      (
        require_len_lem bytes (pos + 11) (omega (arith, room rootino entry _ bytes pos f e)),
        ino_at rootino entry _ bytes pos f e,
        ftype_at rootino entry _ bytes pos f e,
        name_len_at rootino entry _ bytes pos f e,
        require_len_lem bytes (pos + 11 + length entry.name) (room rootino entry _ bytes pos f e),
        name_at rootino entry _ bytes pos f e,
      )
      (both (bytes_eq entry.name target) _ _ _ (
        find_entries-body rootino entries bytes (pos + 11 + length entry.name) target fs
          (next rootino entry _ bytes pos f e)))

-- A packed directory.
module _ (rootino parent_index : ℕ) (entries : List PackedEntry) (f : AllFit rootino entries)
    (c : length entries < bound 4) (p : inode_number rootino parent_index < bound 8) where
  abbrev packed : List ℕ
  packed =
      crabfs_extent_dir_magic
      ++ (to_be_bytes 4 (length entries)
          ++ (to_be_bytes 8 (inode_number rootino parent_index) ++ body rootino entries))

  long_enough : 20 ≤ length packed
  long_enough = omega arith

  count_at : be_u32 packed 8 ≡ done (length entries)
  count_at = be_u32-drop packed 0 packed refl 8 (length entries) c (omega arith) refl

  parent_at : be_u64 packed 12 ≡ done (inode_number rootino parent_index)
  parent_at = be_u64-drop packed 0 packed refl 12 _ p (omega arith) refl

  -- A directory whose names have less than 2 ^ 16 bytes and whose numbers fit 64 bits is packed, and
  -- the reader lists what was packed: the two dots, and then every entry with its number, its name and
  -- its kind, in their order, where the decoder leaves the names alone and there is memory for the entries.
  pub parse-extent_payload :
      (memory : Memory) (decode : Decoder) (ino_num : ℕ)
      → memory (length entries + 2) ≡ true
      → AllDecode decode entries
      → (bytes : Buffer) × ((extent_payload rootino parent_index entries ≡ ok bytes)
          × (parse_extent_dir_entries memory decode bytes ino_num
              ≡ done (
                  ok (
                    dot_entries ino_num (inode_number rootino parent_index)
                    ++ listed rootino entries))))
  unfolding parse_extent_dir_entries
  parse-extent_payload memory decode ino_num room d = (
    packed,
    (
      extent_payload-body rootino parent_index entries f c,
      rw (le→not-ltb (length packed) 20 long_enough, count_at, parent_at, room)
          (parse_entries-body rootino entries decode packed 20 _ f d refl),
    ),
  )

  -- In such a directory the reader finds the first entry of a name, or that there is none, for every
  -- name but the two dots.
  pub find-extent_payload :
      (ino_num : ℕ) (target : List ℕ)
      → bytes_eq target (46 ∷ []) ≡ false
      → bytes_eq target (46 ∷ 46 ∷ []) ≡ false
      → (bytes : Buffer) × ((extent_payload rootino parent_index entries ≡ ok bytes)
          × (find_extent_dir_entry bytes ino_num target
              ≡ done (ok (first_named rootino entries target))))
  unfolding find_extent_dir_entry
  find-extent_payload ino_num target one two = (
    packed,
    (
      extent_payload-body rootino parent_index entries f c,
      rw (le→not-ltb (length packed) 20 long_enough, count_at, parent_at, one, two)
          (find_entries-body rootino entries packed 20 target f refl),
    ),
  )
