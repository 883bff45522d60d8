-- ===== src/Crabfs/Endian/Words.antt =====
-- A number is read back from its bytes, in either order.
use theos.Base.{ℕ, zero, suc, ◌+◌, ◌/◌, ◌<◌, ◌≤◌, ◌≡◌, refl, ap, sym, ◌∙◌, arith}
use theos.Base.{
  List, [], ◌∷◌, ◌++◌, length, take, drop, get_elem?, none, some, get_elem?-some_bound, append_nil,
  drop-drop,
}
use theos.Base.{Exec, done, panic, subst, index, slice, le→leb, ◌>>=◌}
use theos.Crabfs.Endian.{
  Buffer, bound, to_le_bytes, from_le_bytes, reverse_onto, to_be_bytes, from_be_bytes, bytes_at,
  be_u16, be_u32, be_u64,
}

pub from_le_bytes-to_le_bytes : (n v : ℕ) → v < bound n → from_le_bytes (to_le_bytes n v) ≡ v
from_le_bytes-to_le_bytes zero v h = omega arith
from_le_bytes-to_le_bytes (suc n) v h =
    omega (arith, from_le_bytes-to_le_bytes n (v / 256) (omega arith))

reverse_onto-reverse_onto :
    (bs acc rest : List ℕ) → reverse_onto (reverse_onto bs acc) rest ≡ reverse_onto acc (bs ++ rest)
reverse_onto-reverse_onto [] acc rest = refl
reverse_onto-reverse_onto (b ∷ bs) acc rest = reverse_onto-reverse_onto bs (b ∷ acc) rest

pub from_be_bytes-to_be_bytes : (n v : ℕ) → v < bound n → from_be_bytes (to_be_bytes n v) ≡ v
from_be_bytes-to_be_bytes n v h =
    ap from_le_bytes (reverse_onto-reverse_onto (to_le_bytes n v) [] [] ∙ append_nil _)
    ∙ from_le_bytes-to_le_bytes n v h

take-suc :
    (bytes : Buffer) (off n : ℕ) (b : ℕ)
    → get_elem? bytes off ≡ some b
    → take (suc n) (drop off bytes) ≡ b ∷ take n (drop (suc off) bytes)
take-suc [] off n b e = cc
take-suc (x ∷ bytes) zero n b e = cc
take-suc (x ∷ bytes) (suc off) n b e = take-suc bytes off n b e

bytes_at-suc :
    (bytes : Buffer) (off n : ℕ) (b : ℕ) (bs : List ℕ)
    → get_elem? bytes off ≡ some b
    → bytes_at bytes (suc off) n ≡ done bs
    → bytes_at bytes off (suc n) ≡ done (b ∷ bs)
unfolding bytes_at
bytes_at-suc bytes off n b bs e rest =
    subst
      (λ o.
        (elim o [ none ↦ panic | some a ↦ done a ] >>= λ a.
        bytes_at bytes (suc off) n >>= λ r. done (a ∷ r))
        ≡ done (b ∷ bs))
      (sym e) (rw rest refl)

pub bytes_at-take :
    (bytes : Buffer) (off n : ℕ)
    → off + n ≤ length bytes
    → bytes_at bytes off n ≡ done (take n (drop off bytes))
unfolding bytes_at
bytes_at-take bytes off zero h = refl
bytes_at-take bytes off (suc n) h =
    let (b, e) = get_elem?-some_bound bytes off (omega arith) in
    bytes_at-suc bytes off n b _ e (bytes_at-take bytes (suc off) n (omega arith))
    ∙ ap done (sym (take-suc bytes off n b e))

pub bytes_at-one :
    (bytes : Buffer) (o v : ℕ) → bytes_at bytes o 1 ≡ done (v ∷ []) → index bytes o ≡ done v
unfolding bytes_at
bytes_at-one bytes o v h = from_one (index bytes o) v h
  where
    from_one : (r : Exec ℕ) (v : ℕ) → (r >>= λ b. done (b ∷ [])) ≡ done (v ∷ []) → r ≡ done v
    from_one (done b) v e = cc
    from_one panic v e = cc

-- Reads behind `pos`, where the buffer goes on with `rest`.
module _ (bytes : Buffer) (pos : ℕ) (rest : List ℕ) (e : drop pos bytes ≡ rest) where
  pub bytes_at-drop :
      (o n : ℕ)
      → pos + o + n ≤ length bytes
      → bytes_at bytes (pos + o) n ≡ done (take n (drop o rest))
  bytes_at-drop o n h =
      bytes_at-take bytes (pos + o) n h
      ∙ ap (λ x. done (take n x)) (drop-drop pos o bytes ∙ ap (drop o) e)

  pub be_u16-drop :
      (o v : ℕ)
      → v < bound 2
      → pos + o + 2 ≤ length bytes
      → take 2 (drop o rest) ≡ to_be_bytes 2 v
      → be_u16 bytes (pos + o) ≡ done v
  unfolding be_u16
  be_u16-drop o v b h t = rw (bytes_at-drop o 2 h, t) (ap done (from_be_bytes-to_be_bytes 2 v b))

  pub be_u32-drop :
      (o v : ℕ)
      → v < bound 4
      → pos + o + 4 ≤ length bytes
      → take 4 (drop o rest) ≡ to_be_bytes 4 v
      → be_u32 bytes (pos + o) ≡ done v
  unfolding be_u32
  be_u32-drop o v b h t = rw (bytes_at-drop o 4 h, t) (ap done (from_be_bytes-to_be_bytes 4 v b))

  pub be_u64-drop :
      (o v : ℕ)
      → v < bound 8
      → pos + o + 8 ≤ length bytes
      → take 8 (drop o rest) ≡ to_be_bytes 8 v
      → be_u64 bytes (pos + o) ≡ done v
  unfolding be_u64
  be_u64-drop o v b h t = rw (bytes_at-drop o 8 h, t) (ap done (from_be_bytes-to_be_bytes 8 v b))

  pub index-drop :
      (o v : ℕ)
      → pos + o + 1 ≤ length bytes
      → take 1 (drop o rest) ≡ v ∷ []
      → index bytes (pos + o) ≡ done v
  index-drop o v h t = bytes_at-one bytes (pos + o) v (bytes_at-drop o 1 h ∙ ap done t)

  pub slice-drop :
      (o n : ℕ) (found : List ℕ)
      → pos + o + n ≤ length bytes
      → take n (drop o rest) ≡ found
      → slice bytes (pos + o) n ≡ done found
  slice-drop o n found h t =
      rw (le→leb (pos + o + n) (length bytes) h)
        (ap (λ x. done (take n x)) (drop-drop pos o bytes ∙ ap (drop o) e) ∙ ap done t)
