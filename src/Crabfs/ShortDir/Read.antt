-- ===== src/Crabfs/ShortDir/Read.antt =====
-- What the packer writes into an inode, the reader lists.
use theos.Base.{ℕ, ◌+◌, ◌<◌, ◌≤◌, ◌≡◌, refl, ap, sym, ◌∙◌, arith, subst}
use theos.Base.{List, [], ◌∷◌, ◌++◌, length, drop, length-append, length-drop, index}
use theos.Base.{done, ok, le→leb, lt→ltb, true}
use theos.Base.{drop-drop, take-append, drop-append, append_assoc, append_nil}
use theos.Crabfs.Endian.{Buffer, bound, to_be_bytes, require_len_lem}
use theos.Crabfs.Endian.Words.{be_u16-drop, be_u64-drop, index-drop, slice-drop}
use theos.Crabfs.ExtentDir.{PackedEntry, DirEntry, Decoder, inode_number, dot_entries}
use theos.Crabfs.ExtentDir.Read.{listed, AllDecode}
use theos.Crabfs.ShortDir.{
  parse_header, parse_entry, short_entries, list_short, short_entry, pack_entries, short_payload,
}

-- The widths of an entry's fields.
pub record Fits (rootino : ℕ) (entry : PackedEntry) : Type 0 where
  pub name_u8 : length entry.name < 256
  pub ino_u64 : inode_number rootino entry.inode_index < bound 8

abbrev pub AllFit : ℕ → List PackedEntry → Type 0
AllFit rootino [] = Unit {0}
AllFit rootino (entry ∷ entries) = Fits rootino entry × AllFit rootino entries

abbrev pub body : ℕ → ℕ → List PackedEntry → List ℕ
body rootino slot [] = []
body rootino slot (entry ∷ entries) =
    short_entry rootino entry (length entry.name) (slot + 1) ++ body rootino (slot + 1) entries

pub pack_entries-body :
    (rootino slot : ℕ) (entries : List PackedEntry)
    → AllFit rootino entries
    → slot + length entries < 65536
    → pack_entries rootino slot entries ≡ ok (body rootino slot entries)
unfolding pack_entries
pack_entries-body rootino slot [] f h = refl
pack_entries-body rootino slot (entry ∷ entries) (f, fs) h =
    rw
      (
        lt→ltb (length entry.name) 256 f.name_u8,
        lt→ltb (slot + 1) 65536 (omega arith),
        pack_entries-body rootino (slot + 1) entries fs (omega arith),
      )
      refl

-- An entry at the start of a buffer.
module _ (rootino slot : ℕ) (entry : PackedEntry) (behind : List ℕ) (bytes : Buffer)
    (f : Fits rootino entry) (s : slot < 65536)
    (e : bytes ≡ short_entry rootino entry (length entry.name) slot ++ behind) where
  abbrev number : ℕ
  number = inode_number rootino entry.inode_index

  pub start :
      drop 0 bytes
      ≡ length entry.name
        ∷ (to_be_bytes 2 slot ++ (entry.name ++ (entry.ftype ∷ (to_be_bytes 8 number ++ behind))))
  start =
      e
      ∙ ap (λ x. length entry.name ∷ (to_be_bytes 2 slot ++ x))
          (append_assoc entry.name (entry.ftype ∷ to_be_bytes 8 number) behind)

  pub room : 12 + length entry.name ≤ length bytes
  room = omega (
    arith,
    ap length start,
    length-append entry.name (entry.ftype ∷ (to_be_bytes 8 number ++ behind)),
  )

  tail : drop (3 + length entry.name) bytes ≡ entry.ftype ∷ (to_be_bytes 8 number ++ behind)
  tail =
      drop-drop 3 (length entry.name) bytes
      ∙ ap (λ x. drop (length entry.name) (drop 3 x)) start
      ∙ drop-append entry.name _

  pub next : drop (12 + length entry.name) bytes ≡ behind
  next =
      ap (λ k. drop k bytes) twelve ∙ drop-drop (3 + length entry.name) 9 bytes ∙ ap (drop 9) tail
    where
      twelve : 12 + length entry.name ≡ 3 + length entry.name + 9
      twelve = omega arith

  kind_lem : index bytes (3 + length entry.name) ≡ done entry.ftype
  kind_lem =
      subst (λ p. index bytes p ≡ done entry.ftype) plus_zero
        (index-drop bytes (3 + length entry.name) _ tail 0 _ (omega (arith, room)) refl)
    where
      plus_zero : 3 + length entry.name + 0 ≡ 3 + length entry.name
      plus_zero = omega arith

  pub parse_entry_lem :
      (decode : Decoder)
      → parse_entry decode bytes 1 true
        ≡ done (
            ok (
              record {
                namelen = length entry.name;
                offset = slot;
                name = decode entry.name;
                ftype = entry.ftype;
                inumber = number;
              },
              3 + length entry.name + 1 + 8,
            ))
  unfolding parse_entry
  parse_entry_lem decode =
      rw
        (
          require_len_lem bytes 3 (omega (arith, room)),
          index-drop bytes 0 _ start 0 _ (omega (arith, room)) refl,
          be_u16-drop bytes 0 _ start 1 slot (omega arith) (omega (arith, room)) refl,
          require_len_lem bytes (3 + length entry.name) (omega (arith, room)),
          slice-drop bytes 0 _ start 3 (length entry.name) entry.name (omega (arith, room))
              (take-append entry.name _),
          require_len_lem bytes (3 + length entry.name + 1) (omega (arith, room)),
          kind_lem,
          require_len_lem bytes (3 + length entry.name + 1 + 8) (omega (arith, room)),
          be_u64-drop bytes (3 + length entry.name) _ tail 1 number f.ino_u64 (omega (arith, room))
              refl,
        )
        refl

short_entries-body :
    (rootino slot : ℕ) (entries : List PackedEntry) (decode : Decoder) (bytes : Buffer) (pos : ℕ)
    (acc : List DirEntry) (pad : List ℕ)
    → AllFit rootino entries
    → AllDecode decode entries
    → slot + length entries < 65536
    → drop pos bytes ≡ body rootino slot entries ++ pad
    → pos ≤ length bytes
    → short_entries decode bytes 1 true (length entries) pos acc
      ≡ done (ok (acc ++ listed rootino entries))
unfolding short_entries
short_entries-body rootino slot [] decode bytes pos acc pad f d h e r =
    ap (λ x. done (ok x)) (sym (append_nil acc))
short_entries-body rootino slot (entry ∷ entries) decode bytes pos acc pad (f, fs) (d, ds) h e r =
    let whole = e ∙ append_assoc (short_entry rootino entry (length entry.name) (slot + 1)) _ pad in
    let fits = room rootino (slot + 1) entry _ (drop pos bytes) f (omega arith) whole in
    rw
      (
        le→leb pos (length bytes) r,
        parse_entry_lem rootino (slot + 1) entry _ (drop pos bytes) f (omega arith) whole decode,
        d,
        short_entries-body rootino (slot + 1) entries decode bytes
            (pos + (3 + length entry.name + 1 + 8))
            (acc
              ++ (record {
                ino = inode_number rootino entry.inode_index;
                name = entry.name;
                ftype = entry.ftype;
              }
                  ∷ []))
            pad fs ds (omega arith)
            (drop-drop pos (3 + length entry.name + 1 + 8) bytes
              ∙ ap (λ k. drop k (drop pos bytes)) (twelve (length entry.name))
              ∙ next rootino (slot + 1) entry _ (drop pos bytes) f (omega arith) whole)
            (omega (arith, fits, length-drop pos bytes)),
      )
      (ap (λ x. done (ok x)) (append_assoc acc _ _))
  where
    twelve : (n : ℕ) → 3 + n + 1 + 8 ≡ 12 + n
    twelve n = omega arith

-- For a directory of up to 255 entries, with names of less than 256 bytes and numbers of 64 bits, the short
-- form that the packer tries first is made; where those bytes stand behind an inode's header, whatever
-- follows them there, the reader lists the two dots and then every entry in order, where the decoder leaves the names
-- alone. Whether the packer takes the short form is not part of this.
pub list-short_payload :
    (rootino parent_index : ℕ) (entries : List PackedEntry) (decode : Decoder) (ino_num : ℕ)
    (pad : List ℕ)
    → AllFit rootino entries
    → AllDecode decode entries
    → length entries < 256
    → inode_number rootino parent_index < bound 8
    → (bytes : Buffer) × ((short_payload rootino parent_index entries ≡ ok bytes)
        × (list_short decode (bytes ++ pad) ino_num true
            ≡ done (
                ok (
                  dot_entries ino_num (inode_number rootino parent_index)
                  ++ listed rootino entries))))
unfolding short_payload list_short parse_header
list-short_payload rootino parent_index entries decode ino_num pad f d h p = (
  packed,
  (
    rw (lt→ltb (length entries) 256 h, pack_entries-body rootino 0 entries f (omega arith)) refl,
    rw
        (
          require_len_lem (packed ++ pad) 3 (omega arith),
          require_len_lem (packed ++ pad) 10 (omega arith),
          be_u64-drop (packed ++ pad) 0 _ refl 2 _ p (omega arith) refl,
        )
        (short_entries-body rootino 0 entries decode (packed ++ pad) 10 _ pad f d (omega arith) refl
          (omega arith)),
  ),
)
  where
    packed : Buffer
    packed =
        length entries
        ∷ 1
        ∷ (to_be_bytes 8 (inode_number rootino parent_index) ++ body rootino 0 entries)
