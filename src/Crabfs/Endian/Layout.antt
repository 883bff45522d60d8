-- ===== src/Crabfs/Endian/Layout.antt =====
-- A row of stores into a buffer that is large enough, and what is read back of them.
use theos.Base.{ℕ, ◌+◌, ◌≤◌, ◌<◌, ◌≡◌, refl, ap, sym, subst₂, ◌∙◌, arith, ◌⊎◌, inl, inr}
use theos.Base.{Bool, true, false, ◌&&◌, ◌||◌, Option, none, some}
use theos.Base.{List, [], ◌∷◌, length, take, drop, overwrite, length-overwrite}
use theos.Base.{slice-overwrite_self, slice-overwrite_before, drop-overwrite_after}
use theos.Base.{done, index, slice, leb, ◌==◌, ==_iff, ==_self, if◌then◌else◌, le→leb, leb→le}
use theos.Crabfs.Endian.{
  Buffer, Put, put, apply, apply_all, bytes_at, be_u16, be_u32, be_u64, le_u32, bound, to_be_bytes,
}
use theos.Crabfs.Endian.Words.{bytes_at-one, from_be_bytes-to_be_bytes, bytes_at-take}

-- What the buffer is after the stores.
unfoldable pub after : List Put → Buffer → Buffer
after [] bytes = bytes
after (put off size payload ∷ ps) bytes = after ps (overwrite bytes off payload)

-- No store leaves the first `n` bytes.
unfoldable pub within : ℕ → List Put → Bool
within n [] = true
within n (put off size payload ∷ ps) = leb (off + size) n && within n ps

-- No store touches the `len` bytes at `o`.
unfoldable pub spares : ℕ → ℕ → List Put → Bool
spares o len [] = true
spares o len (put off size payload ∷ ps) =
    (leb (off + size) o || leb (o + len) off) && spares o len ps

abbrev or_else : Option (List ℕ) → Option (List ℕ) → Option (List ℕ)
or_else (some a) b = some a
or_else none b = b

-- What the last store at `o` leaves there, if no later one touches it.
unfoldable pub stored : ℕ → ℕ → List Put → Option (List ℕ)
stored o len [] = none
stored o len (put off size payload ∷ ps) =
    or_else (stored o len ps)
      (if (off == o) && ((size == len) && spares o len ps) then some payload else none)

-- Every payload has the size of its range.
unfoldable pub Sized : List Put → Type 0
Sized [] = Unit {0}
Sized (put off size payload ∷ ps) = (length payload ≡ size) × Sized ps

pub length-after : (ps : List Put) (bytes : Buffer) → length (after ps bytes) ≡ length bytes
unfolding after
length-after [] bytes = refl
length-after (put off size payload ∷ ps) bytes =
    length-after ps _ ∙ length-overwrite bytes off payload

pub and-left : (a b : Bool) → (a && b) ≡ true → a ≡ true
and-left true b h = refl
and-left false b h = cc

pub and-right : (a b : Bool) → (a && b) ≡ true → b ≡ true
and-right true b h = h
and-right false b h = cc

or-cases : (a b : Bool) → (a || b) ≡ true → (a ≡ true) ⊎ (b ≡ true)
or-cases true b h = inl refl
or-cases false b h = inr h

-- The stores do not panic.
apply_all-after :
    (n : ℕ) (ps : List Put) (bytes : Buffer)
    → within n ps ≡ true
    → Sized ps
    → n ≤ length bytes
    → apply_all ps bytes ≡ done (after ps bytes)
unfolding apply_all apply after within Sized
apply_all-after n [] bytes w z h = refl
apply_all-after n (put off size payload ∷ ps) bytes w (e, z) h =
    rw
      (
        e,
        ==_self size,
        le→leb (off + size) (length bytes) (omega (arith, leb→le (off + size) n (and-left _ _ w))),
      )
      (apply_all-after n ps (overwrite bytes off payload) (and-right _ _ w) z
        (omega (arith, length-overwrite bytes off payload)))

spares_lem :
    (o len : ℕ) (ps : List Put) (bytes : Buffer)
    → spares o len ps ≡ true
    → Sized ps
    → take len (drop o (after ps bytes)) ≡ take len (drop o bytes)
unfolding after spares Sized
spares_lem o len [] bytes w z = refl
spares_lem o len (put off size payload ∷ ps) bytes w (e, z) =
    spares_lem o len ps (overwrite bytes off payload) (and-right _ _ w) z
    ∙ elim (or-cases (leb (off + size) o) (leb (o + len) off) (and-left _ _ w)) [
      | inl b ↦
          ap (take len)
            (drop-overwrite_after bytes off payload o (omega (arith, e, leb→le (off + size) o b)))
      | inr b ↦ slice-overwrite_before bytes off payload o len (leb→le (o + len) off b)
    ]

or_else-cases :
    (a b : Option (List ℕ)) (x : List ℕ) → or_else a b ≡ some x → (a ≡ some x) ⊎ (b ≡ some x)
or_else-cases (some a) b x h = inl h
or_else-cases none b x h = inr h

if-some : (c : Bool) (a x : List ℕ) → (if c then some a else none) ≡ some x → (c ≡ true) × (a ≡ x)
if-some true a x h = (refl, cc)
if-some false a x h = cc

-- What a store leaves is read back.
stored_lem :
    (n o len : ℕ) (ps : List Put) (bytes : Buffer) (found : List ℕ)
    → stored o len ps ≡ some found
    → within n ps ≡ true
    → Sized ps
    → n ≤ length bytes
    → take len (drop o (after ps bytes)) ≡ found
unfolding stored after within Sized
stored_lem n o len [] bytes found s w z h = cc
stored_lem n o len (put off size payload ∷ ps) bytes found s w (e, z) h =
    elim (or_else-cases (stored o len ps) _ found s) [
      | inl later ↦
          stored_lem n o len ps _ found later (and-right _ _ w) z
            (omega (arith, length-overwrite bytes off payload))
      | inr here ↦
          let (c, same) = if-some _ payload found here in
          let at = (==_iff off o).0 (and-left _ _ c) in
          let sized = (==_iff size len).0 (and-left _ _ (and-right _ _ c)) in
          spares_lem o len ps _ (and-right _ _ (and-right _ _ c)) z
          ∙ subst₂ (λ i l. take l (drop i (overwrite bytes off payload)) ≡ payload) at (e ∙ sized)
              (slice-overwrite_self bytes off payload
                (omega (arith, e, leb→le (off + size) n (and-left _ _ w))))
          ∙ same
    ]

-- A row of stores that the first `n` bytes of a buffer can take.
pub record Fits (n : ℕ) (ps : List Put) (bytes : Buffer) : Type 0 where
  pub inside : within n ps ≡ true
  pub sized : Sized ps
  pub room : n ≤ length bytes

module _ {n : ℕ} {ps : List Put} {bytes : Buffer} (fits : Fits n ps bytes) where
  pub apply_all_lem : apply_all ps bytes ≡ done (after ps bytes)
  apply_all_lem = apply_all-after n ps bytes fits.inside fits.sized fits.room

  pub bytes_at-after :
      (o len : ℕ) (found : List ℕ)
      → stored o len ps ≡ some found
      → leb (o + len) n ≡ true
      → bytes_at (after ps bytes) o len ≡ done found
  bytes_at-after o len found s room =
      bytes_at-take (after ps bytes) o len
        (omega (arith, leb→le (o + len) n room, fits.room, length-after ps bytes))
      ∙ ap done (stored_lem n o len ps bytes found s fits.inside fits.sized fits.room)

  pub spared :
      (o len : ℕ)
      → spares o len ps ≡ true
      → leb (o + len) n ≡ true
      → bytes_at (after ps bytes) o len ≡ bytes_at bytes o len
  spared o len s room =
      bytes_at-take (after ps bytes) o len
        (omega (arith, leb→le (o + len) n room, fits.room, length-after ps bytes))
      ∙ ap done (spares_lem o len ps bytes s fits.sized)
      ∙ sym (bytes_at-take bytes o len (omega (arith, leb→le (o + len) n room, fits.room)))

  pub index-after :
      (o v : ℕ)
      → stored o 1 ps ≡ some (v ∷ [])
      → leb (o + 1) n ≡ true
      → index (after ps bytes) o ≡ done v
  unfolding bytes_at
  index-after o v s room = bytes_at-one (after ps bytes) o v (bytes_at-after o 1 _ s room)

  pub slice-after :
      (o len : ℕ) (found : List ℕ)
      → stored o len ps ≡ some found
      → leb (o + len) n ≡ true
      → slice (after ps bytes) o len ≡ done found
  slice-after o len found s room =
      rw
        (le→leb (o + len) (length (after ps bytes))
          (omega (arith, leb→le (o + len) n room, fits.room, length-after ps bytes)))
        (ap done (stored_lem n o len ps bytes found s fits.inside fits.sized fits.room))

  -- What the stores spare is as it was.
  pub be_u32-spared :
      (o v : ℕ)
      → spares o 4 ps ≡ true
      → leb (o + 4) n ≡ true
      → be_u32 bytes o ≡ done v
      → be_u32 (after ps bytes) o ≡ done v
  unfolding be_u32
  be_u32-spared o v s room e = rw (spared o 4 s room) e

  pub le_u32-spared :
      (o v : ℕ)
      → spares o 4 ps ≡ true
      → leb (o + 4) n ≡ true
      → le_u32 bytes o ≡ done v
      → le_u32 (after ps bytes) o ≡ done v
  unfolding le_u32
  le_u32-spared o v s room e = rw (spared o 4 s room) e

  pub be_u16-after :
      (o v : ℕ)
      → v < bound 2
      → stored o 2 ps ≡ some (to_be_bytes 2 v)
      → leb (o + 2) n ≡ true
      → be_u16 (after ps bytes) o ≡ done v
  unfolding be_u16
  be_u16-after o v b s room =
      rw (bytes_at-after o 2 _ s room) (ap done (from_be_bytes-to_be_bytes 2 v b))

  pub be_u32-after :
      (o v : ℕ)
      → v < bound 4
      → stored o 4 ps ≡ some (to_be_bytes 4 v)
      → leb (o + 4) n ≡ true
      → be_u32 (after ps bytes) o ≡ done v
  unfolding be_u32
  be_u32-after o v b s room =
      rw (bytes_at-after o 4 _ s room) (ap done (from_be_bytes-to_be_bytes 4 v b))

  pub be_u64-after :
      (o v : ℕ)
      → v < bound 8
      → stored o 8 ps ≡ some (to_be_bytes 8 v)
      → leb (o + 8) n ≡ true
      → be_u64 (after ps bytes) o ≡ done v
  unfolding be_u64
  be_u64-after o v b s room =
      rw (bytes_at-after o 8 _ s room) (ap done (from_be_bytes-to_be_bytes 8 v b))
