-- ===== src/Zram/Slots/Valid.antt =====
-- `ZsAllocator`: `store`, `load` and `free` against the bytes that a handle stands for.
use theos.Base.{ℕ, zero, suc, ◌<◌, ◌≡◌, ◌≢◌, refl, sym, ap, subst, subst₂, ◌∙◌, inl, inr, arith}
use theos.Base.{List, [], ◌∷◌, map, some, length, get_elem?}
use theos.Base.{
  get_elem?-set_self, get_elem?-set_ne, get_elem?-set_cases, get_elem?_bound, length-set,
}
use theos.Base.{ℕ_discrete}
use theos.Zram.Types.{size_classes, pages_per_zspage, ZsHandle}
use theos.Zram.Page
use theos.Zram.Slots.{SizeClassPool, ZsAllocator, new, new_pool, handle, set_pool}
use theos.Zram.Slots.Pages
use theos.Zram.Slots.Pages.{
  AreValid, Placed, Removed, store_pages_cases, page-of_Holds, Holds-of_page, page-IsValid,
  Placed-append, Removed-set,
}

-- A pool has the slot size of its class, and well-formed pages of that slot size.
pub record PoolIsValid (ci : ℕ) (pool : SizeClassPool) : Type 0 where
  pub class_size : get_elem? size_classes ci ≡ some pool.slot_size
  pub page_count : pool.pages_per_zspage ≡ pages_per_zspage pool.slot_size
  pub pages : AreValid pool.slot_size pool.zspages

pub record IsValid (a : ZsAllocator) : Type 0 where
  pub class_count : length a.classes ≡ length size_classes
  pub pools :
      (ci : ℕ) (pool : SizeClassPool) → get_elem? a.classes ci ≡ some pool → PoolIsValid ci pool

-- The handle is live and stands for the bytes `b`.
pub record Holds (a : ZsAllocator) (h : ZsHandle) (b : List ℕ) : Type 0 where
  pub pool : SizeClassPool
  pub found : get_elem? a.classes h.class_index ≡ some pool
  pub inside : Pages.Holds pool.zspages h.page_index h.slot_index h.generation b

pools-get :
    (cs : List ℕ) (ci : ℕ) {pool : SizeClassPool}
    → get_elem? (map new_pool cs) ci ≡ some pool
    → (c : ℕ) × (get_elem? cs ci ≡ some c) × (pool ≡ new_pool c)
pools-get [] ci e = cc
pools-get (c ∷ cs) zero e = (c, refl, cc)
pools-get (c ∷ cs) (suc ci) e = pools-get cs ci e

new_pool-IsValid : (ci c : ℕ) → get_elem? size_classes ci ≡ some c → PoolIsValid ci (new_pool c)
unfolding new_pool
new_pool-IsValid ci c e = record { class_size = e; page_count = refl; pages = tt }

-- The allocator starts well formed.
pub new-IsValid_lem : IsValid new
new-IsValid_lem = record {
  class_count = unfold new in refl;
  pools = λ ci pool e.
      let (c, at, same) = pools-get size_classes ci {pool = pool} (unfold new in e) in
      subst (PoolIsValid ci) (sym same) (new_pool-IsValid ci c at);
}

-- The allocator with the pages of one class replaced.
pub set_pool-IsValid :
    (a : ZsAllocator) (ci : ℕ) (pool : SizeClassPool) (pages : List Page.ZsPage)
    → IsValid a
    → get_elem? a.classes ci ≡ some pool
    → AreValid pool.slot_size pages
    → IsValid (set_pool a ci pool pages)
set_pool-IsValid a ci pool pages v found ps = record {
  class_count = length-set a.classes ci _ ∙ v.class_count;
  pools = λ cj q e. elim (get_elem?-set_cases a.classes ci cj (record pool { zspages = pages }) e) [
    | inr (apart, old) ↦ v.pools cj q old
    | inl (same, new_one) ↦
        let w = v.pools ci pool found in
        subst₂ PoolIsValid same (sym new_one)
          (record { class_size = w.class_size; page_count = w.page_count; pages = ps })
  ];
}

module _ (a : ZsAllocator) (ci : ℕ) (pool : SizeClassPool) (pages : List Page.ZsPage)
    (found : get_elem? a.classes ci ≡ some pool) where
  -- What is held in the replaced class is held in its pages.
  pub Holds-set_pool :
      (h : ZsHandle) (c : List ℕ)
      → h.class_index ≡ ci
      → Pages.Holds pages h.page_index h.slot_index h.generation c
      → Holds (set_pool a ci pool pages) h c
  Holds-set_pool h c same held = record {
    pool = record pool { zspages = pages };
    found = rw same (get_elem?-set_self a.classes ci _ (get_elem?_bound a.classes ci found));
    inside = held;
  }

  pub Holds-set_other :
      (h : ZsHandle) (c : List ℕ)
      → ci ≢ h.class_index
      → Holds a h c
      → Holds (set_pool a ci pool pages) h c
  Holds-set_other h c apart held = record {
    pool = held.pool;
    found = rw (get_elem?-set_ne a.classes ci h.class_index _ apart) held.found;
    inside = held.inside;
  }

  pub Holds-pool :
      (h : ZsHandle) (c : List ℕ)
      → h.class_index ≡ ci
      → Holds a h c
      → Pages.Holds pool.zspages h.page_index h.slot_index h.generation c
  Holds-pool h c same held =
      subst (λ (q : SizeClassPool). Pages.Holds q.zspages h.page_index h.slot_index h.generation c)
        {x = held.pool} {y = pool}
        (ground (arith, held.found, found, ap (get_elem? a.classes) same)) held.inside

  -- Where the pages keep what they hold, so does the allocator.
  Holds-keep :
      ((i t g : ℕ) (c : List ℕ) → Pages.Holds pool.zspages i t g c → Pages.Holds pages i t g c)
      → (h : ZsHandle) (c : List ℕ) → Holds a h c
      → Holds (set_pool a ci pool pages) h c
  Holds-keep keep h c held = elim (ℕ_discrete h.class_index ci) [
    | yes same ↦
        Holds-set_pool h c same
          (keep h.page_index h.slot_index h.generation c (Holds-pool h c same held))
    | no apart ↦ Holds-set_other h c (λ e. apart (sym e)) held
  ]

-- `a'` is `a` with `b` stored under the handle `h`, which was not live.
pub record Stored (a a' : ZsAllocator) (b : List ℕ) (h : ZsHandle) : Type 0 where
  pub valid : IsValid a'
  pub stored : 0 < length b → Holds a' h b
  pub void : length b ≡ 0 → (c : List ℕ) → ¬ Holds a' h c
  pub kept : (k : ZsHandle) (c : List ℕ) → Holds a k c → Holds a' k c
  pub fresh : (c : List ℕ) → ¬ Holds a h c

pub Stored-of_Placed :
    (a : ZsAllocator) (ci : ℕ) (pool : SizeClassPool) (pages : List Page.ZsPage) (b : List ℕ)
    (k s g : ℕ)
    → IsValid a
    → get_elem? a.classes ci ≡ some pool
    → Placed pool.slot_size pool.zspages pages b k s g
    → Stored a (set_pool a ci pool pages) b (handle ci (k, s, g))
Stored-of_Placed a ci pool pages b k s g v found r = record {
  valid = set_pool-IsValid a ci pool pages v found r.valid;
  stored = λ pos. Holds-set_pool a ci pool pages found (handle ci (k, s, g)) b refl (r.stored pos);
  void = λ none_stored c held. r.void none_stored g c (
      Holds-pool (set_pool a ci pool pages) ci (record pool { zspages = pages }) pages
        (get_elem?-set_self a.classes ci _ (get_elem?_bound a.classes ci found))
        (handle ci (k, s, g)) c refl held);
  kept = Holds-keep a ci pool pages found r.kept;
  fresh =
      λ c held. r.fresh g c (Holds-pool a ci pool pages found (handle ci (k, s, g)) c refl held);
}

-- A live handle stands for one string of bytes.
pub Holds_unique :
    (a : ZsAllocator) (h : ZsHandle) (b c : List ℕ) → Holds a h b → Holds a h c → b ≡ c
Holds_unique a h b c x y =
    same_bytes x.pool.zspages h.page_index h.slot_index h.generation b c x.inside
      (Holds-pool a h.class_index x.pool x.pool.zspages x.found h c refl y)
  where
    same_bytes :
        (ps : List Page.ZsPage) (i s g : ℕ) (b c : List ℕ)
        → Pages.Holds ps i s g b
        → Pages.Holds ps i s g c
        → b ≡ c
    same_bytes [] i s g b c p q = absurd p
    same_bytes (p ∷ ps) zero s g b c u w =
        let size : length b ≡ length c = ground (arith, u.len, w.len) in
        sym u.bytes ∙ rw (size, w.bytes)
    same_bytes (p ∷ ps) (suc i) s g b c u w = same_bytes ps i s g b c u w
