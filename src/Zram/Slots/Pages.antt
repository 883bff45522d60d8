-- ===== src/Zram/Slots/Pages.antt =====
-- The pages of one size class: what they hold, and a store into the first page that has a slot.
use theos.Base.{ℕ, zero, suc, ◌+◌, ◌≤◌, ◌<◌, ◌≡◌, refl, ap, subst, ◌∙◌, ◌≢◌, ◌⊎◌, inl, inr, arith}
use theos.Base.{List, [], ◌∷◌, ◌++◌, none, some, length, get_elem?, set, done}
use theos.Zram.Page.{ZsPage}
use theos.Zram.Page.Valid
use theos.Zram.Page.Write.{Allocated, allocate_cases}
use theos.Zram.Page.Free.{Freed}
use theos.Zram.Slots.{store_pages}

-- All pages are well formed and have slots of one size.
abbrev pub AreValid : ℕ → List ZsPage → Type 0
AreValid size [] = Unit {0}
AreValid size (p ∷ ps) = (Valid.IsValid p × (p.slot_size ≡ size)) × AreValid size ps

-- Slot `s` of page `i` is in use under generation `g` and its bytes are `b`.
abbrev pub Holds : List ZsPage → ℕ → ℕ → ℕ → List ℕ → Type 0
Holds [] i s g b = ⊥
Holds (p ∷ ps) zero s g b = Valid.Holds p s g b
Holds (p ∷ ps) (suc i) s g b = Holds ps i s g b

-- `ps'` is `ps` with `b` written to slot `s` of page `k` under generation `g`.
pub record Placed (size : ℕ) (ps ps' : List ZsPage) (b : List ℕ) (k s g : ℕ) : Type 0 where
  pub valid : AreValid size ps'
  pub stored : 0 < length b → Holds ps' k s g b
  pub void : length b ≡ 0 → (h : ℕ) (c : List ℕ) → ¬ Holds ps' k s h c
  pub kept : (i t h : ℕ) (c : List ℕ) → Holds ps i t h c → Holds ps' i t h c
  pub fresh : (h : ℕ) (c : List ℕ) → ¬ Holds ps k s h c

Placed-here :
    {size s g : ℕ} {p p' : ZsPage} {ps : List ZsPage} {b : List ℕ}
    → AreValid size (p ∷ ps)
    → Allocated p p' b s g
    → Placed size (p ∷ ps) (p' ∷ ps) b 0 s g
Placed-here {size} {s} {g} {p} {p'} {ps} v a = record {
  valid = ((a.valid, a.same_size ∙ v.0.1), v.1);
  stored = a.stored;
  void = a.void;
  kept = keep;
  fresh = a.fresh;
}
  where
    keep : (i t h : ℕ) (c : List ℕ) → Holds (p ∷ ps) i t h c → Holds (p' ∷ ps) i t h c
    keep zero t h c held = a.kept t h c held
    keep (suc i) t h c held = held

Placed-next :
    {size k s g : ℕ} {ps ps' : List ZsPage} {b : List ℕ} (p : ZsPage)
    → AreValid size (p ∷ ps)
    → Placed size ps ps' b k s g
    → Placed size (p ∷ ps) (p ∷ ps') b (suc k) s g
Placed-next {size} {k} {s} {g} {ps} {ps'} p v r = record {
  valid = (v.0, r.valid);
  stored = r.stored;
  void = r.void;
  kept = keep;
  fresh = r.fresh;
}
  where
    keep : (i t h : ℕ) (c : List ℕ) → Holds (p ∷ ps) i t h c → Holds (p ∷ ps') i t h c
    keep zero t h c held = held
    keep (suc i) t h c held = r.kept i t h c held

-- The loop finds a page with a free slot, or leaves all pages as they were.
pub store_pages_cases :
    (size i : ℕ) (ps : List ZsPage) (b : List ℕ)
    → AreValid size ps
    → length b ≤ size
    → (store_pages i ps b ≡ done (none, ps))
      ⊎ ((k : ℕ) × (j : ℕ) × (s : ℕ) × (g : ℕ) × (ps' : List ZsPage) × (j ≡ i + k)
          × (store_pages i ps b ≡ done (some (j, s, g), ps'))
          × Placed size ps ps' b k s g)
unfolding store_pages
store_pages_cases size i [] b v fits = inl refl
store_pages_cases size i (p ∷ ps) b v fits = elim (allocate_cases p b v.0.0 (rw v.0.1 fits)) [
  | inr (s, g, p', run, a) ↦ inr (0, i, s, g, p' ∷ ps, omega arith, rw run, Placed-here v a)
  | inl (_, full) ↦ elim (store_pages_cases size (i + 1) ps b v.1 fits) [
    | inl none_free ↦ inl (rw (full, none_free))
    | inr (k, j, s, g, ps', e, run, r) ↦
        inr (suc k, j, s, g, p ∷ ps', omega arith, rw (full, run), Placed-next p v r)
  ]
]

-- A handle's page, where the handle holds bytes.
pub page-of_Holds :
    (ps : List ZsPage) (i s g : ℕ) (b : List ℕ)
    → Holds ps i s g b
    → (p : ZsPage) × (get_elem? ps i ≡ some p) × Valid.Holds p s g b
page-of_Holds [] i s g b h = absurd h
page-of_Holds (p ∷ ps) zero s g b h = (p, refl, h)
page-of_Holds (p ∷ ps) (suc i) s g b h = page-of_Holds ps i s g b h

pub Holds-of_page :
    (ps : List ZsPage) (i s g : ℕ) (b : List ℕ) {p : ZsPage}
    → get_elem? ps i ≡ some p
    → Valid.Holds p s g b
    → Holds ps i s g b
Holds-of_page [] i s g b e h = cc
Holds-of_page (q ∷ ps) zero s g b e h = subst (λ x. Valid.Holds x s g b) (cc) h
Holds-of_page (q ∷ ps) (suc i) s g b e h = Holds-of_page ps i s g b e h

pub page-IsValid :
    (size : ℕ) (ps : List ZsPage) (i : ℕ) {p : ZsPage}
    → AreValid size ps
    → get_elem? ps i ≡ some p
    → Valid.IsValid p
page-IsValid size [] i v e = cc
page-IsValid size (q ∷ ps) zero v e = subst Valid.IsValid (cc) v.0.0
page-IsValid size (q ∷ ps) (suc i) v e = page-IsValid size ps i v.1 e

AreValid-append :
    (size : ℕ) (ps : List ZsPage) (q : ZsPage)
    → AreValid size ps
    → Valid.IsValid q
    → q.slot_size ≡ size
    → AreValid size (ps ++ q ∷ [])
AreValid-append size [] q v w e = ((w, e), tt)
AreValid-append size (p ∷ ps) q v w e = (v.0, AreValid-append size ps q v.1 w e)

Holds-append_left :
    (ps : List ZsPage) (q : ZsPage) (i t h : ℕ) (c : List ℕ)
    → Holds ps i t h c
    → Holds (ps ++ q ∷ []) i t h c
Holds-append_left [] q i t h c held = absurd held
Holds-append_left (p ∷ ps) q zero t h c held = held
Holds-append_left (p ∷ ps) q (suc i) t h c held = Holds-append_left ps q i t h c held

Holds-append_end :
    (ps : List ZsPage) (q : ZsPage) (s g : ℕ) (b : List ℕ)
    → Valid.Holds q s g b
    → Holds (ps ++ q ∷ []) (length ps) s g b
Holds-append_end [] q s g b h = h
Holds-append_end (p ∷ ps) q s g b h = Holds-append_end ps q s g b h

Holds-of_end :
    (ps : List ZsPage) (q : ZsPage) (s g : ℕ) (b : List ℕ)
    → Holds (ps ++ q ∷ []) (length ps) s g b
    → Valid.Holds q s g b
Holds-of_end [] q s g b h = h
Holds-of_end (p ∷ ps) q s g b h = Holds-of_end ps q s g b h

not-Holds_past : (ps : List ZsPage) (s h : ℕ) (c : List ℕ) → ¬ Holds ps (length ps) s h c
not-Holds_past [] s h c held = held
not-Holds_past (p ∷ ps) s h c held = not-Holds_past ps s h c held

-- A new page behind the others, with `b` in one of its slots.
pub Placed-append :
    {size s g : ℕ} (ps : List ZsPage) {p q : ZsPage} {b : List ℕ}
    → AreValid size ps
    → p.slot_size ≡ size
    → Allocated p q b s g
    → Placed size ps (ps ++ q ∷ []) b (length ps) s g
Placed-append {size} {s} {g} ps {p} {q} {b} v e a = record {
  valid = AreValid-append size ps q v a.valid (a.same_size ∙ e);
  stored = λ pos. Holds-append_end ps q s g b (a.stored pos);
  void = λ none_stored h c held. a.void none_stored h c (Holds-of_end ps q s h c held);
  kept = λ i t h c held. Holds-append_left ps q i t h c held;
  fresh = λ h c held. not-Holds_past ps s h c held;
}

-- `ps'` is `ps` without what slot `s` of page `k` held.
pub record Removed (size : ℕ) (ps ps' : List ZsPage) (k s : ℕ) : Type 0 where
  pub valid : AreValid size ps'
  pub gone : (h : ℕ) (c : List ℕ) → ¬ Holds ps' k s h c
  pub kept : (i t h : ℕ) (c : List ℕ) → ((k ≡ i) → s ≢ t) → Holds ps i t h c → Holds ps' i t h c

pub Removed-set :
    (size : ℕ) (ps : List ZsPage) (k s g : ℕ) {p p' : ZsPage}
    → AreValid size ps
    → get_elem? ps k ≡ some p
    → Freed p p' s g
    → Removed size ps (set ps k p') k s
Removed-set size [] k s g v e f = cc
Removed-set size (q ∷ ps) zero s g {p} {p'} v e f = record {
  valid = ((f.valid, f.same_size ∙ ground (arith, v.0.1)), v.1);
  gone = f.gone;
  kept = keep;
}
  where
    keep :
        (i t h : ℕ) (c : List ℕ)
        → ((0 ≡ i) → s ≢ t)
        → Holds (q ∷ ps) i t h c
        → Holds (p' ∷ ps) i t h c
    keep zero t h c apart held =
        f.kept t h c (apart refl) (subst (λ x. Valid.Holds x t h c) (cc) held)
    keep (suc i) t h c apart held = held
Removed-set size (q ∷ ps) (suc k) s g {p} {p'} v e f =
    let r = Removed-set size ps k s g v.1 e f in
    record { valid = (v.0, r.valid); gone = r.gone; kept = keep r.kept }
  where
    keep :
        ((i t h : ℕ) (c : List ℕ)
          → ((k ≡ i) → s ≢ t)
          → Holds ps i t h c
          → Holds (set ps k p') i t h c)
        → (i t h : ℕ) (c : List ℕ) → ((suc k ≡ i) → s ≢ t)
        → Holds (q ∷ ps) i t h c
        → Holds (q ∷ set ps k p') i t h c
    keep ih zero t h c apart held = held
    keep ih (suc i) t h c apart held = ih i t h c (λ same. apart (ap suc same)) held
