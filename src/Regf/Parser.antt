-- ===== src/Regf/Parser.antt =====
-- The parser of lib/regf/lib.rs. The source's recursion from key to key, and from list to list, has no
-- bound: here it has a depth, and to go deeper is a panic, the stack's end.
use theos.Base.{
  ℕ, zero, suc, ◌+◌, ◌*◌, ◌/◌, ◌%◌, min, List, [], ◌∷◌, ◌++◌, length, take, Bool, true, false, ◌||◌,
  not,
}
use theos.Base.{
  Exec, done, panic, ◌>>=◌, Result, ok, err, ◌>>?◌, slice, ltb, leb, ◌==◌, if◌then◌else◌,
}
use theos.Base.Bits.{bit_and}
use theos.Base.Text.{codes, is_empty}
use theos.Regf.{
  Error, invalid_hive, unexpected_eof, Text, Value, Hive, same_text, insert_value, ensure_key,
}
use theos.Regf.Cells.{read_bytes, read_u16, read_u32, cell_payload}
use theos.Regf.Names.{decode_ascii, decode_utf16le}

abbrev pub u32_max : ℕ
u32_max = 4294967295

pub record NkMeta : Type 0 where
  pub flags : ℕ
  pub subkey_count : ℕ
  pub subkey_list_offset : ℕ
  pub value_count : ℕ
  pub value_list_offset : ℕ

abbrev pub decode_name : Bool → List ℕ → Result Error Text
decode_name true bytes = ok (decode_ascii bytes)
decode_name false bytes = decode_utf16le bytes

-- A name of `len` bytes in a cell, in ASCII or in UTF-16.
abbrev pub name_in : List ℕ → ℕ → ℕ → Bool → Exec (Result Error Text)
name_in cell offset len ascii =
    if len == 0
    then done (ok [])
    else (done (read_bytes cell offset len) >>? λ bytes. done (decode_name ascii bytes))

abbrev pub to_le_bytes : ℕ → List ℕ
to_le_bytes n = n % 256 ∷ n / 256 % 256 ∷ n / 65536 % 256 ∷ n / 16777216 % 256 ∷ []

-- The signature at the start of a cell, which is long enough.
abbrev pub has_signature : List ℕ → Text → Exec Bool
has_signature cell signature =
    slice cell 0 (length signature) >>= λ found. done (same_text found signature)

-- `cell.len() < size || &cell[0..2] != signature`, which looks at the bytes only of a cell that is long enough.
abbrev pub is_cell : List ℕ → ℕ → Text → Exec Bool
is_cell cell size signature =
    if ltb (length cell) size then done false else has_signature cell signature

abbrev pub when {ℓ} : {A : Type ℓ} → Bool → Exec A → Exec A → Exec A
when true x y = x
when false x y = y

-- `count` offsets, `width` bytes apart.
unfoldable pub offsets_from : ℕ → ℕ → ℕ → List ℕ → Exec (Result Error (List ℕ))
offsets_from zero i width payload = done (ok [])
offsets_from (suc count) i width payload = read_u32 payload (4 + i * width) >>? λ offset.
    offsets_from count (i + 1) width payload >>? λ rest. done (ok (offset ∷ rest))

-- The lists that an index of lists names, one behind the other.
unfoldable pub children_from :
    (ℕ → Exec (Result Error (List ℕ))) → ℕ → ℕ → List ℕ → Exec (Result Error (List ℕ))
children_from offsets_of zero i payload = done (ok [])
children_from offsets_of (suc count) i payload = read_u32 payload (4 + i * 4) >>? λ child.
    offsets_of child >>? λ some_offsets.
    children_from offsets_of count (i + 1) payload >>? λ rest. done (ok (some_offsets ++ rest))

abbrev pub join : Text → Text → Text
join path name = if is_empty path then name else (if is_empty name then path else path ++ 92 ∷ name)

unfoldable pub walk_all :
    (ℕ → Text → Hive → Exec (Result Error Hive)) → List ℕ → Text → Hive → Exec (Result Error Hive)
walk_all walk [] path hive = done (ok hive)
walk_all walk (offset ∷ offsets) path hive =
    walk offset path hive >>? λ hive. walk_all walk offsets path hive

module _ (bytes : List ℕ) where
  -- The bytes of a value: none, up to four in the place of the offset, or those of a cell.
  unfoldable pub read_value_data : ℕ → ℕ → Exec (Result Error (List ℕ))
  read_value_data data_len_raw data_offset =
      let data_len = data_len_raw % 2147483648 in
      if data_len == 0
      then done (ok [])
      else (if leb 2147483648 data_len_raw
          then done (ok (take (min data_len 4) (to_le_bytes data_offset)))
          else (cell_payload bytes data_offset >>? λ payload.
              done (ok (take (min data_len (length payload)) payload))))

  unfoldable pub read_value : List ℕ → Exec (Result Error (Text × Value))
  read_value vk = read_u16 vk 0x02 >>? λ name_len. read_u32 vk 0x04 >>? λ data_len_raw.
      read_u32 vk 0x08 >>? λ data_offset. read_u32 vk 0x0c >>? λ ty. read_u16 vk 0x10 >>? λ flags.
      name_in vk 0x18 name_len (flags % 2 == 1) >>? λ name.
      read_value_data data_len_raw data_offset >>? λ content.
      done (ok (name, record { ty = ty; bytes = content }))

  -- `n` values of a list from the `i`-th on. A cell that is no value is passed over.
  unfoldable pub values_from : ℕ → ℕ → List ℕ → Text → Hive → Exec (Result Error Hive)
  values_from zero i list key_path hive = done (ok hive)
  values_from (suc n) i list key_path hive = read_u32 list (i * 4) >>? λ value_offset.
      cell_payload bytes value_offset >>? λ vk. is_cell vk 0x18 (codes "vk") >>= λ is_value.
      when is_value
        (read_value vk >>? λ x.
          values_from n (i + 1) list key_path (insert_value hive key_path x.0 x.1))
        (values_from n (i + 1) list key_path hive)

  unfoldable pub extract_values : NkMeta → Text → Hive → Exec (Result Error Hive)
  extract_values meta key_path hive =
      if meta.value_count == 0 || meta.value_list_offset == u32_max
      then done (ok hive)
      else (cell_payload bytes meta.value_list_offset >>? λ list.
          if ltb (length list) (meta.value_count * 4)
          then done (err unexpected_eof)
          else values_from meta.value_count 0 list key_path hive)

  unfoldable pub subkey_offsets : ℕ → ℕ → Exec (Result Error (List ℕ))
  subkey_offsets zero list_offset = panic
  subkey_offsets (suc depth) list_offset = cell_payload bytes list_offset >>? λ payload.
      when (ltb (length payload) 4) (done (err unexpected_eof)) (
        slice payload 0 2 >>= λ sig. read_u16 payload 0x02 >>? λ count.
        when (same_text sig (codes "li")) (offsets_from count 0 4 payload) (
          when (same_text sig (codes "lf") || same_text sig (codes "lh"))
            (offsets_from count 0 8 payload)
            (when (same_text sig (codes "ri"))
              (children_from (subkey_offsets depth) count 0 payload) (done (ok [])))))

  unfoldable pub read_key : ℕ → Exec (Result Error (NkMeta × Text))
  read_key key_offset = cell_payload bytes key_offset >>? λ cell.
      is_cell cell 0x4c (codes "nk") >>= λ is_key.
      if not is_key
      then done (err invalid_hive)
      else (read_u16 cell 0x02 >>? λ flags. read_u32 cell 0x14 >>? λ subkey_count.
          read_u32 cell 0x1c >>? λ subkey_list_offset. read_u32 cell 0x24 >>? λ value_count.
          read_u32 cell 0x28 >>? λ value_list_offset. read_u16 cell 0x48 >>? λ name_len.
          name_in cell 0x4c name_len (not (bit_and flags 0x20 == 0)) >>? λ name. done (
            ok (
              record {
                flags = flags;
                subkey_count = subkey_count;
                subkey_list_offset = subkey_list_offset;
                value_count = value_count;
                value_list_offset = value_list_offset;
              },
              name,
            )))

  unfoldable pub walk_key : ℕ → ℕ → Text → Hive → Exec (Result Error Hive)
  walk_key zero key_offset path hive = panic
  walk_key (suc depth) key_offset path hive = read_key key_offset >>? λ key.
      let next_path = join path key.1 in
      extract_values key.0 next_path (ensure_key hive next_path) >>? λ hive.
      when (key.0.subkey_count == 0 || key.0.subkey_list_offset == u32_max) (done (ok hive)) (
        subkey_offsets depth key.0.subkey_list_offset >>? λ offsets.
        walk_all (walk_key depth) offsets next_path hive)

-- `Hive::parse`, with a stack of `depth` calls.
unfoldable pub parse : ℕ → List ℕ → Exec (Result Error Hive)
parse depth bytes =
    if ltb (length bytes) (0x1000 + 0x28)
    then done (err unexpected_eof)
    else (has_signature bytes (codes "regf") >>= λ is_hive.
        if not is_hive
        then done (err invalid_hive)
        else (read_u32 bytes 0x24 >>? λ root. walk_key bytes depth root [] []))
