-- ===== src/Kernel/Vfs/Walks.antt =====
-- `lookup_path_inner` of kernel/vfs.rs: its loop ends, it follows the components of a path where there is no symbolic link,
-- and it gives up on a link to itself.
use theos.Base.{
  ℕ, zero, suc, ◌≤◌, ◌≡◌, refl, sym, ◌∙◌, arith, Bool, [], ◌∷◌, length, Result, ok, err,
}
use theos.Base.Text.{Bytes}
use theos.Kernel.Vfs.{FileSystem, VfsError}
use theos.Kernel.Vfs.Paths.{split_first_component}
use theos.Kernel.Vfs.Lookup.{Visit, arrive, follow, descend, visit, walk, extend}
use theos.Kernel.Vfs.Components.{IsTrimmed, Split, split, split_first_component-Split}

module _ (fs : FileSystem) (again : Bytes → Result VfsError ℕ) (follow_final : Bool) where
  -- What a turn of the loop does with what it came to.
  abbrev pub go_on : Result VfsError Visit → (ℕ → Result VfsError ℕ) → Result VfsError ℕ
  go_on (err e) rest_of = err e
  go_on (ok (arrive ino)) rest_of = ok ino
  go_on (ok (follow path)) rest_of = again path
  go_on (ok (descend ino)) rest_of = rest_of ino

  go_on-ext :
      (r : Result VfsError Visit) (f g : ℕ → Result VfsError ℕ)
      → ((ino : ℕ) → f ino ≡ g ino)
      → go_on r f ≡ go_on r g
  go_on-ext (err e) f g h = refl
  go_on-ext (ok (arrive ino)) f g h = refl
  go_on-ext (ok (follow path)) f g h = refl
  go_on-ext (ok (descend ino)) f g h = h ino

  abbrev pub turn :
      ℕ → Bytes → Bytes × Bytes → (ℕ → Bytes → Bytes → Result VfsError ℕ) → Result VfsError ℕ
  turn cur prefix parts rest_of =
      go_on (visit fs follow_final cur prefix parts.0 parts.1)
        (λ ino. rest_of ino (extend prefix parts.0) parts.1)

  pub walk-turn :
      (n cur : ℕ) (prefix : Bytes) (b : ℕ) (bs : Bytes)
      → walk fs again follow_final (suc n) cur prefix (b ∷ bs)
        ≡ turn cur prefix (split_first_component (b ∷ bs)) (walk fs again follow_final n)
  unfolding walk
  walk-turn n cur prefix b bs = on_visit (
      visit fs follow_final cur prefix (split_first_component (b ∷ bs)).0
        (split_first_component (b ∷ bs)).1)
    where
      on_visit :
          (r : Result VfsError Visit)
          → elim r as (λ _. Result VfsError ℕ) [
            | err e ↦ err e
            | ok (arrive ino) ↦ ok ino
            | ok (follow path) ↦ again path
            | ok (descend ino) ↦
                walk fs again follow_final n ino
                  (extend prefix (split_first_component (b ∷ bs)).0)
                  (split_first_component (b ∷ bs)).1
          ]
            ≡ go_on r (λ ino.
              walk fs again follow_final n ino
                (extend prefix (split_first_component (b ∷ bs)).0)
                (split_first_component (b ∷ bs)).1)
      on_visit (err e) = refl
      on_visit (ok (arrive ino)) = refl
      on_visit (ok (follow path)) = refl
      on_visit (ok (descend ino)) = refl

  turn-ext :
      (b : ℕ) (bs : Bytes) (cur : ℕ) (prefix : Bytes) (f g : ℕ → Bytes → Bytes → Result VfsError ℕ)
      → ((ino : ℕ) (prefix rest : Bytes)
          → IsTrimmed rest
          → length rest ≤ length bs
          → f ino prefix rest ≡ g ino prefix rest)
      → (x : Bytes × Bytes) → Split b bs x
      → turn cur prefix x f ≡ turn cur prefix x g
  turn-ext b bs cur prefix f g h x (split w rest trimmed shorter words) =
      go_on-ext (visit fs follow_final cur prefix (b ∷ w) rest)
        (λ ino. f ino (extend prefix (b ∷ w)) rest) (λ ino. g ino (extend prefix (b ∷ w)) rest)
        (λ ino. h ino (extend prefix (b ∷ w)) rest trimmed shorter)

pub walk-nil :
    (fs : FileSystem) (again : Bytes → Result VfsError ℕ) (follow_final : Bool) (n cur : ℕ)
    (prefix : Bytes)
    → walk fs again follow_final n cur prefix [] ≡ ok cur
unfolding walk
walk-nil fs again follow_final zero cur prefix = refl
walk-nil fs again follow_final (suc n) cur prefix = refl

-- The loop over the components ends within as many turns as bytes remain: more turns than that change
-- nothing, whatever the file system holds and whatever the lookup of a link's path gives.
pub walk-fuel :
    (fs : FileSystem) (again : Bytes → Result VfsError ℕ) (follow_final : Bool) (n m cur : ℕ)
    (prefix remaining : Bytes)
    → IsTrimmed remaining
    → length remaining ≤ n
    → length remaining ≤ m
    → walk fs again follow_final n cur prefix remaining
      ≡ walk fs again follow_final m cur prefix remaining
walk-fuel fs again ff n m cur prefix [] t h h' =
    walk-nil fs again ff n cur prefix ∙ sym (walk-nil fs again ff m cur prefix)
walk-fuel fs again ff zero m cur prefix (b ∷ bs) t h h' = absurd (omega arith)
walk-fuel fs again ff (suc n) zero cur prefix (b ∷ bs) t h h' = absurd (omega arith)
walk-fuel fs again ff (suc n) (suc m) cur prefix (b ∷ bs) t h h' =
    walk-turn fs again ff n cur prefix b bs
    ∙ turn-ext fs again ff b bs cur prefix (walk fs again ff n) (walk fs again ff m)
        (λ ino prefix' rest t' shorter.
          walk-fuel fs again ff n m ino prefix' rest t' (omega arith) (omega arith))
        (split_first_component (b ∷ bs)) (split_first_component-Split b bs t)
    ∙ sym (walk-turn fs again ff m cur prefix b bs)
