-- ===== src/Regf/Cycle.antt =====
-- A key of a hive of lib/regf/lib.rs that lists itself.
use theos.Base.{
  ℕ, zero, suc, ◌≡◌, refl, true, false, ◌||◌, List, ◌∷◌, ◌==◌, Exec, done, panic, Result, ok,
}
use theos.Regf.{Error, Text, Hive, ensure_key}
use theos.Regf.Parser.{
  NkMeta, u32_max, read_key, extract_values, subkey_offsets, walk_all, walk_key, join,
}

-- A key without values, with a list of subkeys.
abbrev pub HasOnlySubkeys : NkMeta → Type 0
HasOnlySubkeys meta =
    ((meta.value_count == 0) ≡ true)
    × ((meta.subkey_count == 0 || meta.subkey_list_offset == u32_max) ≡ false)

no_values :
    (bytes : List ℕ) (meta : NkMeta) (path : Text) (hive : Hive)
    → (meta.value_count == 0) ≡ true
    → extract_values bytes meta path hive ≡ done (ok hive)
unfolding extract_values
no_values bytes meta path hive h = rw h refl

first_fails :
    (walk : ℕ → Text → Hive → Exec (Result Error Hive)) (offset : ℕ) (others : List ℕ) (path : Text)
    (hive : Hive)
    → walk offset path hive ≡ panic
    → walk_all walk (offset ∷ others) path hive ≡ panic
unfolding walk_all
first_fails walk offset others path hive h = rw h refl

no_depth : (bytes : List ℕ) (offset : ℕ) → subkey_offsets bytes 0 offset ≡ panic
unfolding subkey_offsets
no_depth bytes offset = refl

-- A key whose list of subkeys starts with the key itself: to whatever depth the walk may go, it uses
-- that depth up, so that the parser's recursion on such a hive has no end.
pub walk_key_cycle :
    (bytes : List ℕ) (key_offset : ℕ) (meta : NkMeta) (name : Text) (others : List ℕ)
    → read_key bytes key_offset ≡ done (ok (meta, name))
    → HasOnlySubkeys meta
    → ((depth : ℕ)
        → subkey_offsets bytes (suc depth) meta.subkey_list_offset
          ≡ done (ok (key_offset ∷ others)))
    → (depth : ℕ) (path : Text) (hive : Hive) → walk_key bytes depth key_offset path hive ≡ panic
unfolding walk_key
walk_key_cycle bytes key_offset meta name others key only lists zero path hive = refl
walk_key_cycle bytes key_offset meta name others key only lists (suc zero) path hive =
    rw
      (
        key,
        no_values bytes meta (join path name) (ensure_key hive (join path name)) only.0,
        only.1,
        no_depth,
      )
      refl
walk_key_cycle bytes key_offset meta name others key only lists (suc (suc depth)) path hive =
    rw
      (
        key,
        no_values bytes meta (join path name) (ensure_key hive (join path name)) only.0,
        only.1,
        lists depth,
      )
      (first_fails (walk_key bytes (suc depth)) key_offset others (join path name)
        (ensure_key hive (join path name))
        (walk_key_cycle bytes key_offset meta name others key only lists (suc depth)
          (join path name) (ensure_key hive (join path name))))
