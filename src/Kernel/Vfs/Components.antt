-- ===== src/Kernel/Vfs/Components.antt =====
-- The components of a path, and `split_first_component` of kernel/vfs.rs.
use theos.Base.{
  ℕ, ◌≤◌, ◌≡◌, refl, sym, ap, ◌∙◌, arith, false, Bool-cases, inl, inr, List, [], ◌∷◌, length, ◌==◌,
  if◌then◌else◌,
}
use theos.Base.Text.{Bytes, slash, trim_slashes}
use theos.Kernel.Vfs.Paths.{cut, split_first_component}

abbrev cons_word : Bytes → List Bytes → List Bytes
cons_word [] ws = ws
cons_word (b ∷ w) ws = (b ∷ w) ∷ ws

-- The bytes up to the first slash, and the words behind it.
pieces : Bytes → Bytes × List Bytes
pieces [] = ([], [])
pieces (b ∷ bs) =
    let (w, ws) = pieces bs in if b == slash then ([], cons_word w ws) else (b ∷ w, ws)

-- The words between slashes, without the empty ones.
unfoldable pub components : Bytes → List Bytes
unfolding pieces
components path = cons_word (pieces path).0 (pieces path).1

abbrev pub IsTrimmed : Bytes → Type 0
IsTrimmed bs = trim_slashes bs ≡ bs

pieces-cut : (bs : Bytes) → pieces bs ≡ ((cut bs).0, components (cut bs).1)
unfolding components cut
pieces-cut [] = refl
pieces-cut (b ∷ bs) = elim (Bool-cases (b == slash)) [
  | inl at_slash ↦ rw at_slash refl
  | inr word ↦ rw (word, pieces-cut bs) refl
]

pub components-cut : (bs : Bytes) → components bs ≡ cons_word (cut bs).0 (components (cut bs).1)
unfolding components
components-cut bs = rw (pieces-cut bs) refl

pub components-trim_slashes : (bs : Bytes) → components (trim_slashes bs) ≡ components bs
unfolding components trim_slashes
components-trim_slashes [] = refl
components-trim_slashes (b ∷ bs) = elim (Bool-cases (b == slash)) [
  | inl at_slash ↦ rw at_slash (components-trim_slashes bs)
  | inr word ↦ rw (word, word) refl
]

pub trim_slashes-IsTrimmed : (bs : Bytes) → IsTrimmed (trim_slashes bs)
unfolding trim_slashes
trim_slashes-IsTrimmed [] = refl
trim_slashes-IsTrimmed (b ∷ bs) = elim (Bool-cases (b == slash)) [
  | inl at_slash ↦ rw at_slash (trim_slashes-IsTrimmed bs)
  | inr word ↦ rw (word, word) refl
]

pub length-trim_slashes : (bs : Bytes) → length (trim_slashes bs) ≤ length bs
unfolding trim_slashes
length-trim_slashes [] = omega arith
length-trim_slashes (b ∷ bs) = ground (arith, length-trim_slashes bs)

length-cut : (bs : Bytes) → length (cut bs).1 ≤ length bs
unfolding cut
length-cut [] = omega arith
length-cut (b ∷ bs) = ground (arith, length-cut bs)

-- A path that starts with a word: the word, and less than the path behind it.
pub data Split (b : ℕ) (bs : Bytes) : Bytes × Bytes → Type 0 where
  split :
      (w rest : Bytes)
      → IsTrimmed rest
      → length rest ≤ length bs
      → components (b ∷ bs) ≡ (b ∷ w) ∷ components rest
      → Split b bs (b ∷ w, rest)

not_slash : (b : ℕ) (bs : Bytes) → IsTrimmed (b ∷ bs) → (b == slash) ≡ false
unfolding trim_slashes
not_slash b bs t = elim (Bool-cases (b == slash)) [
  | inl at_slash ↦
      let shorter : trim_slashes (b ∷ bs) ≡ trim_slashes bs = rw at_slash refl in
      absurd (omega (arith, ap length (sym shorter ∙ t), length-trim_slashes bs))
  | inr word ↦ word
]

cut_word : (b : ℕ) (bs : Bytes) → (b == slash) ≡ false → cut (b ∷ bs) ≡ (b ∷ (cut bs).0, (cut bs).1)
unfolding cut
cut_word b bs word = rw word refl

pub split_first_component-Split :
    (b : ℕ) (bs : Bytes) → IsTrimmed (b ∷ bs) → Split b bs (split_first_component (b ∷ bs))
unfolding split_first_component
split_first_component-Split b bs t =
    let first = cut_word b bs (not_slash b bs t) in
    let words : components (b ∷ bs) ≡ (b ∷ (cut bs).0) ∷ components (trim_slashes (cut bs).1) =
      components-cut (b ∷ bs) ∙ rw (first, components-trim_slashes) refl in
    rw (t, first)
      (split (cut bs).0 (trim_slashes (cut bs).1) (trim_slashes-IsTrimmed (cut bs).1)
        (omega (arith, length-trim_slashes (cut bs).1, length-cut bs)) words)
