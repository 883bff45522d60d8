-- ===== src/Regf/Tests.antt =====
-- A hive for lib/regf/lib.rs, and the theorem on a key that lists itself at it.
use theos.Base.{
  ℕ, suc, ◌≡◌, refl, List, [], ◌∷◌, ◌++◌, replicate, true, ◌&&◌, some, if◌then◌else◌, done, panic,
  ok,
}
use theos.Base.Text.{codes}
use theos.Regf.{Value, same_text, query_value, insert_value, ensure_key, has_key}
use theos.Regf.Lookup.{same_name, query_value-insert_value}
use theos.Regf.Cells.{read_bytes, read_u16, read_u32, cell_payload}
use theos.Regf.Parser.{NkMeta, read_key, subkey_offsets, offsets_from, walk_key}
use theos.Regf.Cycle.{walk_key_cycle}

-- A cell of 128 bytes at 32 with the key "k", and one of 32 bytes at 160 with the list of its subkeys.
abbrev hive : List ℕ
hive =
    codes "regf"
    ++ replicate 32 0
    ++ (32 ∷ 0 ∷ 0 ∷ 0 ∷ [])
    ++ replicate 4088 0
    ++ (128 ∷ 0 ∷ 0 ∷ 0 ∷ codes "nk")
    ++ (32 ∷ 0 ∷ [])
    ++ replicate 16 0
    ++ (1 ∷ 0 ∷ 0 ∷ 0 ∷ [])
    ++ replicate 4 0
    ++ (160 ∷ 0 ∷ 0 ∷ 0 ∷ [])
    ++ replicate 40 0
    ++ (1 ∷ 0 ∷ 0 ∷ 0 ∷ 107 ∷ [])
    ++ replicate 47 0
    ++ (32 ∷ 0 ∷ 0 ∷ 0 ∷ codes "lf")
    ++ (1 ∷ 0 ∷ 32 ∷ 0 ∷ 0 ∷ 0 ∷ [])
    ++ replicate 20 0

abbrev key : NkMeta
key = record {
  flags = 32;
  subkey_count = 1;
  subkey_list_offset = 160;
  value_count = 0;
  value_list_offset = 0;
}

key_read : read_key hive 32 ≡ done (ok (key, codes "k"))
unfolding read_key cell_payload read_u32 read_u16 read_bytes same_text
key_read = refl

list_read : (depth : ℕ) → subkey_offsets hive (suc depth) 160 ≡ done (ok (32 ∷ []))
unfolding subkey_offsets offsets_from cell_payload read_u32 read_u16 read_bytes same_text
list_read depth = refl

walk_key_cycle_example : walk_key hive 100 32 [] [] ≡ panic
walk_key_cycle_example =
    walk_key_cycle hive 32 key (codes "k") [] key_read (refl, refl) list_read 100 [] []

abbrev seven : Value
seven = record { ty = 4; bytes = 7 ∷ 0 ∷ 0 ∷ 0 ∷ [] }

query_value-insert_value_example :
    (query_value
        (insert_value [] (codes "A/B") (codes "Level") seven)
        (codes "a\\b")
        (codes "LEVEL")
      ≡ (if same_name (codes "A/B") (codes "a\\b") && same_name (codes "Level") (codes "LEVEL")
          then some seven
          else query_value [] (codes "a\\b") (codes "LEVEL")))
    × (query_value (ensure_key [] (codes "A/B")) (codes "a\\b") (codes "LEVEL")
        ≡ query_value [] (codes "a\\b") (codes "LEVEL"))
    × (has_key (insert_value [] (codes "A/B") (codes "Level") seven) (codes "a\\b")
        ≡ (if same_name (codes "A/B") (codes "a\\b") then true else has_key [] (codes "a\\b")))
query_value-insert_value_example =
    query_value-insert_value [] (codes "A/B") (codes "Level") seven (codes "a\\b") (codes "LEVEL")
