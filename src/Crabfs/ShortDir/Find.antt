-- ===== src/Crabfs/ShortDir/Find.antt =====
-- In a directory inside its inode, the reader finds what was packed.
use theos.Base.{ℕ, ◌+◌, ◌<◌, ◌≤◌, ◌≡◌, refl, ap, ◌∙◌, arith, true, false}
use theos.Base.{
  List, [], ◌∷◌, ◌++◌, length, drop, length-drop, done, ok, le→leb, lt→ltb, append_assoc, drop-drop,
}
use theos.Base.{take-append}
use theos.Crabfs.Endian.{Buffer, bound, to_be_bytes, require_len_lem}
use theos.Crabfs.Endian.Words.{be_u64-drop, slice-drop}
use theos.Crabfs.ExtentDir.{PackedEntry, Decoder, inode_number, bytes_eq}
use theos.Crabfs.ExtentDir.Read.{first_named, both}
use theos.Crabfs.ShortDir.{parse_header, find_short_entries, find_short, short_entry, short_payload}
use theos.Crabfs.ShortDir.Read.{AllFit, body, pack_entries-body, room, next, start, parse_entry_lem}

find_short_entries-body :
    (rootino slot : ℕ) (entries : List PackedEntry) (decode : Decoder) (bytes : Buffer) (pos : ℕ)
    (target pad : List ℕ)
    → AllFit rootino entries
    → slot + length entries < 65536
    → drop pos bytes ≡ body rootino slot entries ++ pad
    → pos ≤ length bytes
    → find_short_entries decode bytes 1 true (length entries) pos target
      ≡ done (ok (first_named rootino entries target))
unfolding find_short_entries
find_short_entries-body rootino slot [] decode bytes pos target pad f h e r = refl
find_short_entries-body rootino slot (entry ∷ entries) decode bytes pos target pad (f, fs) h e r =
    let whole = e ∙ append_assoc (short_entry rootino entry (length entry.name) (slot + 1)) _ pad in
    let fits = room rootino (slot + 1) entry _ (drop pos bytes) f (omega arith) whole in
    rw
      (
        le→leb pos (length bytes) r,
        parse_entry_lem rootino (slot + 1) entry _ (drop pos bytes) f (omega arith) whole decode,
        slice-drop bytes pos _
            (start rootino (slot + 1) entry _ (drop pos bytes) f (omega arith) whole) 3
            (length entry.name) entry.name (omega (arith, fits, length-drop pos bytes))
            (take-append entry.name _),
      )
      (both (bytes_eq entry.name target) _ _ _ (
        find_short_entries-body rootino (slot + 1) entries decode bytes
          (pos + (3 + length entry.name + 1 + 8)) target pad fs (omega arith)
          (drop-drop pos (3 + length entry.name + 1 + 8) bytes
            ∙ ap (λ k. drop k (drop pos bytes)) (twelve (length entry.name))
            ∙ next rootino (slot + 1) entry _ (drop pos bytes) f (omega arith) whole)
          (omega (arith, fits, length-drop pos bytes))))
  where
    twelve : (n : ℕ) → 3 + n + 1 + 8 ≡ 12 + n
    twelve n = omega arith

-- In a directory packed into the short form, behind an inode's header and whatever follows it there,
-- the reader finds the first entry of a name, or that there is none, for every name but the two dots.
pub find-short_payload :
    (rootino parent_index : ℕ) (entries : List PackedEntry) (decode : Decoder) (dir_ino : ℕ)
    (target pad : List ℕ)
    → AllFit rootino entries
    → length entries < 256
    → inode_number rootino parent_index < bound 8
    → bytes_eq target (46 ∷ []) ≡ false
    → bytes_eq target (46 ∷ 46 ∷ []) ≡ false
    → (bytes : Buffer) × ((short_payload rootino parent_index entries ≡ ok bytes)
        × (find_short decode (bytes ++ pad) dir_ino true target
            ≡ done (ok (first_named rootino entries target))))
unfolding short_payload find_short parse_header
find-short_payload rootino parent_index entries decode dir_ino target pad f h p one two = (
  packed,
  (
    rw (lt→ltb (length entries) 256 h, pack_entries-body rootino 0 entries f (omega arith)) refl,
    rw
        (
          require_len_lem (packed ++ pad) 3 (omega arith),
          require_len_lem (packed ++ pad) 10 (omega arith),
          be_u64-drop (packed ++ pad) 0 _ refl 2 _ p (omega arith) refl,
          one,
          two,
        )
        (find_short_entries-body rootino 0 entries decode (packed ++ pad) 10 target pad f
          (omega arith) refl (omega arith)),
  ),
)
  where
    packed : Buffer
    packed =
        length entries
        ∷ 1
        ∷ (to_be_bytes 8 (inode_number rootino parent_index) ++ body rootino 0 entries)
