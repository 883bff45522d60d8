-- ===== src/Regf.antt =====
-- `lib/regf/lib.rs`: the hive, its keys by path and their values by name. A text is the list of its code
-- points. The maps are association lists; no code lists them, so that their order does not show.
pub mod Cells
pub mod Names
pub mod Parser
pub mod Lookup
pub mod Cycle
mod Tests
use theos.Base.{
  ℕ, ◌+◌, Bool, true, false, ◌&&◌, List, [], ◌∷◌, map, Option, none, some, leb, ◌==◌, if◌then◌else◌,
}

pub data Error : Type 0 where
  invalid_hive unexpected_eof unsupported_encoding : Error

abbrev pub Text : Type 0
Text = List ℕ

pub record Value : Type 0 where
  pub ty : ℕ
  pub bytes : List ℕ

unfoldable pub same_text : Text → Text → Bool
same_text [] [] = true
same_text [] (c ∷ cs) = false
same_text (b ∷ bs) [] = false
same_text (b ∷ bs) (c ∷ cs) = if b == c then same_text bs cs else false

abbrev pub TextMap {ℓ} : Type ℓ → Type ℓ
TextMap V = List (Text × V)

module _ {ℓ} {V : Type ℓ} where
  unfoldable pub find : TextMap V → Text → Option V
  find [] k = none
  find ((j, v) ∷ m) k = if same_text j k then some v else find m k

  unfoldable pub put : TextMap V → Text → V → TextMap V
  put [] k v = (k, v) ∷ []
  put ((j, w) ∷ m) k v = if same_text j k then (k, v) ∷ m else (j, w) ∷ put m k v

-- The field `keys` of the source.
abbrev pub Hive : Type 0
Hive = TextMap (TextMap Value)

-- A '/' is a '\', and an ASCII capital its small letter.
abbrev pub normalize_char : ℕ → ℕ
normalize_char c = if c == 47 then 92 else (if leb 65 c && leb c 90 then c + 32 else c)

unfoldable pub normalize_name : Text → Text
normalize_name name = map normalize_char name

-- `entry(key).or_default()`
abbrev pub or_default : Option (TextMap Value) → TextMap Value
or_default none = []
or_default (some values) = values

abbrev pub is_some {ℓ} : {A : Type ℓ} → Option A → Bool
is_some none = false
is_some (some a) = true

unfoldable pub has_key : Hive → Text → Bool
has_key hive key_path = is_some (find hive (normalize_name key_path))

abbrev pub value_in : Option (TextMap Value) → Text → Option Value
value_in none name = none
value_in (some values) name = find values name

unfoldable pub query_value : Hive → Text → Text → Option Value
query_value hive key_path value_name =
    value_in (find hive (normalize_name key_path)) (normalize_name value_name)

unfoldable pub insert_value : Hive → Text → Text → Value → Hive
insert_value hive key_path value_name value =
    let key = normalize_name key_path in
    put hive key (put (or_default (find hive key)) (normalize_name value_name) value)

unfoldable pub ensure_key : Hive → Text → Hive
ensure_key hive key_path =
    let key = normalize_name key_path in put hive key (or_default (find hive key))
