-- ===== src/Crabfs/Endian/Rows.antt =====
-- Rows of stores one behind the other, and the places that a row leaves alone.
use theos.Base.{ℕ, ◌+◌, ◌≤◌, ◌≡◌, refl, arith, Bool, true, false, ◌&&◌, ◌||◌}
use theos.Base.{List, [], ◌∷◌, ◌++◌, Exec, done, ◌>>=◌, panic, leb, leb→le, le→leb}
use theos.Crabfs.Endian.{Buffer, Put, put, apply, apply_all}
use theos.Crabfs.Endian.Layout.{within, spares, and-left, and-right}

pub and_both : (a b : Bool) → a ≡ true → b ≡ true → (a && b) ≡ true
and_both true b p q = q
and_both false b p q = cc

or_left : (a b : Bool) → a ≡ true → (a || b) ≡ true
or_left true b p = refl
or_left false b p = cc

or_right : (a b : Bool) → b ≡ true → (a || b) ≡ true
or_right true b p = refl
or_right false b p = p

bind-split :
    {A B C : Type 0} (m : Exec A) (f : A → Exec C) (g : A → Exec B) (h : B → Exec C)
    → ((a : A) → f a ≡ (g a >>= h))
    → (m >>= f) ≡ (m >>= g >>= h)
bind-split (done a) f g h e = e a
bind-split panic f g h e = refl

-- No store touches the bytes before `m`.
unfoldable pub starts : ℕ → List Put → Bool
starts m [] = true
starts m (put off size payload ∷ ps) = leb m off && starts m ps

-- What ends before a row starts is spared.
pub starts-spares :
    (m o len : ℕ) (ps : List Put) → starts m ps ≡ true → o + len ≤ m → spares o len ps ≡ true
unfolding starts spares
starts-spares m o len [] s h = refl
starts-spares m o len (put off size payload ∷ ps) s h =
    and_both _ _
      (or_right (leb (off + size) o) _
        (le→leb (o + len) off (omega (arith, h, leb→le m off (and-left _ _ s)))))
      (starts-spares m o len ps (and-right _ _ s) h)

-- What starts behind the end of a row is spared.
pub within-spares :
    (n o len : ℕ) (ps : List Put) → within n ps ≡ true → n ≤ o → spares o len ps ≡ true
unfolding within spares
within-spares n o len [] w h = refl
within-spares n o len (put off size payload ∷ ps) w h =
    and_both _ _
      (or_left _ (leb (o + len) off)
        (le→leb (off + size) o (omega (arith, h, leb→le (off + size) n (and-left _ _ w)))))
      (within-spares n o len ps (and-right _ _ w) h)

-- The stores of two rows are those of the first and then those of the second.
pub apply_all-append :
    (ps qs : List Put) (bytes : Buffer)
    → apply_all (ps ++ qs) bytes ≡ (apply_all ps bytes >>= apply_all qs)
unfolding apply_all
apply_all-append [] qs bytes = refl
apply_all-append (p ∷ ps) qs bytes =
    bind-split (apply p bytes) (apply_all (ps ++ qs)) (apply_all ps) (apply_all qs)
      (apply_all-append ps qs)
