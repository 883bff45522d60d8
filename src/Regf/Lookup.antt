-- ===== src/Regf/Lookup.antt =====
-- Keys and values of a hive of lib/regf/lib.rs, found by their names.
use theos.Base.{
  ℕ, ◌+◌, leb, ◌||◌, arith, ◌≡◌, refl, ap, sym, ◌∙◌, subst, Bool, true, false, ◌&&◌, Bool-cases,
  inl, inr, ◌⊎◌, [], ◌∷◌, Option, none, some, ◌==◌, ==_iff, ==_self, if◌then◌else◌,
}
use theos.Regf.{
  Text, TextMap, Value, Hive, same_text, find, put, normalize_char, normalize_name, or_default,
  value_in, query_value, insert_value, ensure_key, has_key, is_some,
}

pub same_text-eq : (a b : Text) → same_text a b ≡ true → a ≡ b
unfolding same_text
same_text-eq [] [] h = refl
same_text-eq [] (c ∷ cs) h = cc
same_text-eq (b ∷ bs) [] h = cc
same_text-eq (b ∷ bs) (c ∷ cs) h = elim (Bool-cases (b == c)) [
  | inl same ↦
      let heads : b ≡ c = (==_iff b c).0 same in let tails = same_text-eq bs cs (rw same at h) in cc
  | inr apart ↦ let no : false ≡ true = rw apart at h in cc
]

pub same_text_self : (a : Text) → same_text a a ≡ true
unfolding same_text
same_text_self [] = refl
same_text_self (b ∷ bs) = rw ==_self (same_text_self bs)

module _ {ℓ} {V : Type ℓ} where
  twice :
      (b : Bool) (x z y : Option V) → (if b then x else y) ≡ (if b then x else (if b then z else y))
  twice true x z y = refl
  twice false x z y = refl

  hidden :
      {i : Text} (w : V) (k : Text) (v : V) (j : Text) (o : Option V)
      → i ≡ k
      → (if same_text k j then some v else o)
        ≡ (if same_text k j then some v else (if same_text i j then some w else o))
  hidden w k v j o same = rw same (twice (same_text k j) (some v) (some w) o)

  swapped :
      (i : Text) (w : V) (k : Text) (v : V) (j : Text) (o : Option V)
      → (same_text i j ≡ true) ⊎ (same_text i j ≡ false)
      → (same_text k j ≡ true) ⊎ (same_text k j ≡ false)
      → same_text i k ≡ false
      → (if same_text i j then some w else (if same_text k j then some v else o))
        ≡ (if same_text k j then some v else (if same_text i j then some w else o))
  swapped i w k v j o (inl a) (inl b) apart =
      let both : i ≡ k = same_text-eq i j a ∙ sym (same_text-eq k j b) in
      let no : same_text k k ≡ false = subst (λ x. same_text x k ≡ false) both apart in
      absurd (true_or_false (sym (same_text_self k) ∙ no))
    where
      true_or_false : true ≡ false → ⊥
      true_or_false e = cc
  swapped i w k v j o (inl a) (inr b) apart = rw (a, b) refl
  swapped i w k v j o (inr a) (inl b) apart = rw (a, b) refl
  swapped i w k v j o (inr a) (inr b) apart = rw (a, b) refl

  -- What is found after a store.
  pub find-put :
      (m : TextMap V) (k : Text) (v : V) (j : Text)
      → find (put m k v) j ≡ (if same_text k j then some v else find m j)
  unfolding find put
  find-put [] k v j = refl
  find-put ((i, w) ∷ m) k v j = elim (Bool-cases (same_text i k)) [
    | inl same ↦ rw same (hidden w k v j (find m j) (same_text-eq i k same))
    | inr apart ↦ rw apart (
        ap (λ r. if same_text i j then some w else r) (find-put m k v j)
        ∙ swapped i w k v j (find m j) (Bool-cases (same_text i j)) (Bool-cases (same_text k j))
            apart)
  ]

pub value_in-or_default :
    (o : Option (TextMap Value)) (name : Text) → find (or_default o) name ≡ value_in o name
unfolding find
value_in-or_default none name = refl
value_in-or_default (some values) name = refl

module _ (hive : Hive) (key : Text) where
  stored_value :
      (name : Text) (value : Value) (key' name' : Text)
      → value_in (find (put hive key (put (or_default (find hive key)) name value)) key') name' ≡ (
          if same_text key key' && same_text name name'
          then some value
          else value_in (find hive key') name')
  stored_value name value key' name' = elim (Bool-cases (same_text key key')) [
    | inl same ↦ rw (find-put, same, find-put, value_in-or_default, same_text-eq key key' same) refl
    | inr apart ↦ rw (find-put, apart) refl
  ]

  kept_value :
      (key' name' : Text)
      → value_in (find (put hive key (or_default (find hive key))) key') name'
        ≡ value_in (find hive key') name'
  kept_value key' name' = elim (Bool-cases (same_text key key')) [
    | inl same ↦ rw (find-put, same, value_in-or_default, same_text-eq key key' same) refl
    | inr apart ↦ rw (find-put, apart) refl
  ]

  stored_key :
      (values : TextMap Value) (key' : Text)
      → is_some (find (put hive key values) key')
        ≡ (if same_text key key' then true else is_some (find hive key'))
  stored_key values key' = elim (Bool-cases (same_text key key')) [
    | inl same ↦ rw (find-put, same) refl
    | inr apart ↦ rw (find-put, apart) refl
  ]

-- Two characters that a hive takes for one: the same, both slashes, or a letter of ASCII in its two cases.
abbrev pub is_slash : ℕ → Bool
is_slash c = c == 47 || c == 92

abbrev pub is_capital_of : ℕ → ℕ → Bool
is_capital_of a b = leb 65 a && (leb a 90 && b == a + 32)

unfoldable pub same_char : ℕ → ℕ → Bool
same_char a b = a == b || ((is_slash a && is_slash b) || (is_capital_of a b || is_capital_of b a))

-- Two names that a hive takes for one, character by character.
unfoldable pub same_name : Text → Text → Bool
same_name [] [] = true
same_name [] (c ∷ cs) = false
same_name (b ∷ bs) [] = false
same_name (b ∷ bs) (c ∷ cs) = same_char b c && same_name bs cs

normalize_char_same : (a b : ℕ) → (normalize_char a == normalize_char b) ≡ same_char a b
unfolding same_char
normalize_char_same a b = ground arith

if_and : (x y : Bool) → (if x then y else false) ≡ (x && y)
if_and true y = refl
if_and false y = refl

normalize_name_same : (a b : Text) → same_text (normalize_name a) (normalize_name b) ≡ same_name a b
unfolding same_name normalize_name same_text
normalize_name_same [] [] = refl
normalize_name_same [] (c ∷ cs) = refl
normalize_name_same (b ∷ bs) [] = refl
normalize_name_same (b ∷ bs) (c ∷ cs) =
    if_and (normalize_char b == normalize_char c)
      (same_text (normalize_name bs) (normalize_name cs))
    ∙ ap (λ x. x && same_text (normalize_name bs) (normalize_name cs)) (normalize_char_same b c)
    ∙ ap (λ x. same_char b c && x) (normalize_name_same bs cs)

-- A value that is stored in a key is found under that key and that name, however they are written: a slash
-- for a backslash, and an ASCII letter in either case. All other values of all keys are as they were. To make sure of a key
-- changes no value, and the key of a stored value is there.
pub query_value-insert_value :
    (hive : Hive) (key_path value_name : Text) (value : Value) (other_path other_name : Text)
    → (query_value (insert_value hive key_path value_name value) other_path other_name ≡ (
        if same_name key_path other_path && same_name value_name other_name
        then some value
        else query_value hive other_path other_name))
      × (query_value (ensure_key hive key_path) other_path other_name
          ≡ query_value hive other_path other_name)
      × (has_key (insert_value hive key_path value_name value) other_path
          ≡ (if same_name key_path other_path then true else has_key hive other_path))
unfolding query_value insert_value ensure_key has_key
query_value-insert_value hive k n v k' n' = (
  stored_value hive (normalize_name k) (normalize_name n) v (normalize_name k') (normalize_name n')
      ∙ ap (λ b. if b then some v else query_value hive k' n')
          (ap (λ b. b && same_text (normalize_name n) (normalize_name n'))
              (normalize_name_same k k')
            ∙ ap (λ b. same_name k k' && b) (normalize_name_same n n')),
  kept_value hive (normalize_name k) (normalize_name k') (normalize_name n'),
  stored_key hive (normalize_name k) _ (normalize_name k')
      ∙ ap (λ b. if b then true else has_key hive k') (normalize_name_same k k'),
)
