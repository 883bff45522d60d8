-- ===== src/Zram/Slots/Load.antt =====
-- `ZsAllocator::load` and `free`: a live handle, and any other.
use theos.Base.{ℕ, zero, suc, ◌≡◌, ◌≢◌, refl, sym, ap, subst, ◌∙◌, ◌⊎◌, inl, inr, arith}
use theos.Base.{List, [], ◌∷◌, none, some, get_elem?, done, ok, err, set}
use theos.Base.{get_elem?-set_self, get_elem?_bound, set-same, Option-cases, try, ℕ_discrete}
use theos.Zram.Types.{ZsHandle, invalid_handle}
use theos.Zram.Page
use theos.Zram.Page.Free.{read_cases, free_cases}
use theos.Zram.Page.Valid
use theos.Zram.Slots.{SizeClassPool, ZsAllocator, load, free, set_pool, page_of, set_page}
use theos.Zram.Slots.Pages
use theos.Zram.Slots.Pages.{Removed, page-of_Holds, Holds-of_page, page-IsValid, Removed-set}
use theos.Zram.Slots.Valid.{
  IsValid, Holds, set_pool-IsValid, Holds-set_pool, Holds-set_other, Holds-pool,
}

-- A handle that names no page, or a page of the allocator and its pool.
data Target (a : ZsAllocator) (h : ZsHandle) : Type 0 where
  nowhere : page_of a h ≡ none → Target a h
  there :
      (pool : SizeClassPool) (page : Page.ZsPage)
      → get_elem? a.classes h.class_index ≡ some pool
      → get_elem? pool.zspages h.page_index ≡ some page
      → page_of a h ≡ some page
      → Target a h

target : (a : ZsAllocator) (h : ZsHandle) → Target a h
target a h = elim (Option-cases (get_elem? a.classes h.class_index)) [
  | inl e ↦ nowhere (rw (e, page_of))
  | inr (pool, e) ↦ elim (Option-cases (get_elem? pool.zspages h.page_index)) [
    | inl f ↦ nowhere (rw (e, page_of) f)
    | inr (page, f) ↦ there pool page e f (rw (e, page_of) f)
  ]
]

page_held :
    (a : ZsAllocator) (h : ZsHandle) (b : List ℕ) {pool : SizeClassPool} {page : Page.ZsPage}
    → get_elem? a.classes h.class_index ≡ some pool
    → get_elem? pool.zspages h.page_index ≡ some page
    → Holds a h b
    → Valid.Holds page h.slot_index h.generation b
page_held a h b {pool} {page} e f held =
    let (q, g, w) =
      page-of_Holds pool.zspages h.page_index h.slot_index h.generation b
        (Holds-pool a h.class_index pool pool.zspages e h b refl held) in
    subst (λ (p : Page.ZsPage). Valid.Holds p h.slot_index h.generation b) (ground (arith, g, f)) w

held_page :
    (a : ZsAllocator) (h : ZsHandle) (b : List ℕ) {pool : SizeClassPool} {page : Page.ZsPage}
    → get_elem? a.classes h.class_index ≡ some pool
    → get_elem? pool.zspages h.page_index ≡ some page
    → Valid.Holds page h.slot_index h.generation b
    → Holds a h b
held_page a h b {pool} {page} e f w = record {
  pool = pool;
  found = e;
  inside = Holds-of_page pool.zspages h.page_index h.slot_index h.generation b f w;
}

nowhere_held : (a : ZsAllocator) (h : ZsHandle) (b : List ℕ) → page_of a h ≡ none → ¬ Holds a h b
nowhere_held a h b e held =
    let (q, g, w) =
      page-of_Holds held.pool.zspages h.page_index h.slot_index h.generation b held.inside in
    ground (arith, held.found, g)

-- `load` never panics on a well-formed allocator: it returns what the handle stands for, or it
-- refuses a handle that is not live.
pub load_cases :
    (a : ZsAllocator) (h : ZsHandle)
    → IsValid a
    → ((b : List ℕ) × Holds a h b × (load a h ≡ done (ok b)))
      ⊎ (((b : List ℕ) → ¬ Holds a h b) × (load a h ≡ done (err invalid_handle)))
unfolding load
load_cases a h v = go (target a h)
  where
    go :
        Target a h
        → ((b : List ℕ) × Holds a h b × (load a h ≡ done (ok b)))
          ⊎ (((b : List ℕ) → ¬ Holds a h b) × (load a h ≡ done (err invalid_handle)))
    go (nowhere e) = inr ((λ b. nowhere_held a h b e), rw e)
    go (there pool page e f at) =
        elim (read_cases page h.slot_index h.generation (
          page-IsValid pool.slot_size pool.zspages h.page_index (v.pools h.class_index pool e).pages
            f)) [
              | inl (b, w, run) ↦ inl (b, held_page a h b e f w, rw at run)
              | inr (none_held, run) ↦
                  inr ((λ b held. none_held b (page_held a h b e f held)), rw at run)
            ]

-- `a'` is `a` without what the handle `h` stood for.
pub record Released (a a' : ZsAllocator) (h : ZsHandle) : Type 0 where
  pub valid : IsValid a'
  pub gone : (g : ℕ) (c : List ℕ) → ¬ Holds a' (record h { generation = g }) c
  pub kept : (k : ZsHandle) (c : List ℕ) → h ≢ k → Holds a k c → Holds a' k c

-- One slot is live under one generation.
generation_unique :
    (ps : List Page.ZsPage) (i s g g' : ℕ) (b c : List ℕ)
    → Pages.Holds ps i s g b
    → Pages.Holds ps i s g' c
    → g ≡ g'
generation_unique [] i s g g' b c x y = absurd x
generation_unique (p ∷ ps) zero s g g' b c x y = ground (arith, x.current, y.current)
generation_unique (p ∷ ps) (suc i) s g g' b c x y = generation_unique ps i s g g' b c x y

handle-eq :
    (h k : ZsHandle)
    → h.class_index ≡ k.class_index
    → h.page_index ≡ k.page_index
    → h.slot_index ≡ k.slot_index
    → h.generation ≡ k.generation
    → h ≡ k
handle-eq h k c p s g =
    λ i. record { class_index = c i; page_index = p i; slot_index = s i; generation = g i }

module _ (a : ZsAllocator) (h : ZsHandle) (b : List ℕ) (pool : SizeClassPool)
    (pages : List Page.ZsPage) (found : get_elem? a.classes h.class_index ≡ some pool)
    (held : Holds a h b)
    (r : Removed pool.slot_size pool.zspages pages h.page_index h.slot_index) where
  abbrev a' : ZsAllocator
  a' = set_pool a h.class_index pool pages

  Released-kept : (k : ZsHandle) (c : List ℕ) → h ≢ k → Holds a k c → Holds a' k c
  Released-kept k c apart w = elim (ℕ_discrete k.class_index h.class_index) [
    | no other ↦ Holds-set_other a h.class_index pool pages found k c (λ e. other (sym e)) w
    | yes same ↦
        let inside = Holds-pool a h.class_index pool pages found k c same w in
        Holds-set_pool a h.class_index pool pages found k c same (
          r.kept k.page_index k.slot_index k.generation c
            (λ page slot. apart (handle-eq h k (sym same) page slot (one page slot inside))) inside)
  ]
    where
      one :
          h.page_index ≡ k.page_index
          → h.slot_index ≡ k.slot_index
          → Pages.Holds pool.zspages k.page_index k.slot_index k.generation c
          → h.generation ≡ k.generation
      one page slot inside =
          generation_unique pool.zspages h.page_index h.slot_index h.generation k.generation b c
            (Holds-pool a h.class_index pool pages found h b refl held) (rw (page, slot) inside)

  released : IsValid a → Released a a' h
  released v = record {
    valid = set_pool-IsValid a h.class_index pool pages v found r.valid;
    gone = λ g c w. r.gone g c (
        Holds-pool a' h.class_index (record pool { zspages = pages }) pages
          (get_elem?-set_self a.classes h.class_index _
            (get_elem?_bound a.classes h.class_index found))
          (record h { generation = g }) c refl w);
    kept = Released-kept;
  }

set_page-same :
    (a : ZsAllocator) (h : ZsHandle) (pool : SizeClassPool) (page : Page.ZsPage)
    → get_elem? a.classes h.class_index ≡ some pool
    → get_elem? pool.zspages h.page_index ≡ some page
    → set_page a h page ≡ a
set_page-same a h pool page e f =
    rw (e, set_page)
      λ i. record {
        classes =
            (ap (set a.classes h.class_index)
                  (λ j. record pool { zspages = set-same pool.zspages h.page_index f j })
                ∙ set-same a.classes h.class_index e)
              i;
      }

-- `free` never panics on a well-formed allocator: it releases what a live handle stands for and
-- keeps every other, or it refuses a handle that is not live and changes nothing.
pub free_lem :
    (a : ZsAllocator) (h : ZsHandle)
    → IsValid a
    → ((b : List ℕ) × (a' : ZsAllocator) × Holds a h b
        × (free a h ≡ done (ok tt, a'))
        × Released a a' h)
      ⊎ (((b : List ℕ) → ¬ Holds a h b) × (free a h ≡ done (err invalid_handle, a)))
unfolding free
free_lem a h v = go (target a h)
  where
    go :
        Target a h
        → ((b : List ℕ) × (a' : ZsAllocator) × Holds a h b
            × (free a h ≡ done (ok tt, a'))
            × Released a a' h)
          ⊎ (((b : List ℕ) → ¬ Holds a h b) × (free a h ≡ done (err invalid_handle, a)))
    go (nowhere e) = inr ((λ b. nowhere_held a h b e), rw e)
    go (there pool page e f at) =
        let w = v.pools h.class_index pool e in
        elim (free_cases page h.slot_index h.generation
          (page-IsValid pool.slot_size pool.zspages h.page_index w.pages f)) [
            | inl (b, page', held, run, freed) ↦
                let live = held_page a h b e f held in
                let r =
                  Removed-set pool.slot_size pool.zspages h.page_index h.slot_index h.generation
                    w.pages f freed in
                inl (
                  b,
                  set_pool a h.class_index pool (set pool.zspages h.page_index page'),
                  live,
                  rw (at, try, run, set_page, e),
                  released a h b pool (set pool.zspages h.page_index page') e live r v,
                )
            | inr (none_held, run) ↦ inr (
              (λ b held. none_held b (page_held a h b e f held)),
              rw (at, try, run)
                  (ap (λ (x : ZsAllocator). done (err invalid_handle, x))
                    (set_page-same a h pool page e f)),
            )
          ]
