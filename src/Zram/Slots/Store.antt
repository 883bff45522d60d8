-- ===== src/Zram/Slots/Store.antt =====
-- `ZsAllocator::store`: a payload of up to a page is always stored, and no other is disturbed.
use theos.Base.{ℕ, ◌≤◌, ◌<◌, ◌≡◌, refl, ◌∙◌, inl, inr, arith}
use theos.Base.{List, [], ◌∷◌, ◌++◌, none, some, length, get_elem?, done, ok, err}
use theos.Base.{get_elem?-some_bound, get_elem?_bound, index}
use theos.Zram.Types.{page_size, size_classes, size_class_index, ZsHandle, object_too_large}
use theos.Zram.Page
use theos.Zram.Page.Valid.{new-IsValid, new-free_list}
use theos.Zram.Page.Write.{allocate_cases}
use theos.Zram.Classes.{size_class_cases, class_bounds, class_room}
use theos.Zram.Slots.{SizeClassPool, ZsAllocator, store_pages, store_new, store, handle, set_pool}
use theos.Zram.Slots.Pages.{store_pages_cases, Placed-append}
use theos.Zram.Slots.Valid.{IsValid, Stored, Stored-of_Placed}

-- `store` behind the search for the class: all pages are full, so a new one takes the payload.
store_new_lem :
    (a : ZsAllocator) (ci : ℕ) (pool : SizeClassPool) (b : List ℕ)
    → IsValid a
    → get_elem? a.classes ci ≡ some pool
    → length b ≤ pool.slot_size
    → (h : ZsHandle) × (a' : ZsAllocator) × (store_new a ci pool pool.zspages b ≡ done (ok h, a'))
      × Stored a a' b h
unfolding store_new Page.new
store_new_lem a ci pool b v found fits =
    let w = v.pools ci pool found in
    let (pos, small) = class_bounds ci pool.slot_size w.class_size in
    let room = class_room pool.slot_size small in
    let fresh = new-IsValid pool.slot_size pool.pages_per_zspage pos (rw w.page_count room) in
    elim (allocate_cases (Page.new pool.slot_size pool.pages_per_zspage) b fresh fits) [
      | inl (full, _) ↦ absurd (cc (full, (new-free_list pool.slot_size pool.pages_per_zspage).1))
      | inr (s, g, page, run, r) ↦ (
        handle ci (length pool.zspages, s, g),
        set_pool a ci pool (pool.zspages ++ page ∷ []),
        rw run,
        Stored-of_Placed a ci pool _ b (length pool.zspages) s g v found
            (Placed-append pool.zspages w.pages refl r),
      )
    ]

module _ (a : ZsAllocator) (ci : ℕ) (pool : SizeClassPool) (b : List ℕ)
    (class : size_class_index (length b) ≡ some ci) (found : get_elem? a.classes ci ≡ some pool)
    (pages : List Page.ZsPage) where
  store-some :
      (slot : ℕ × ℕ × ℕ)
      → store_pages 0 pool.zspages b ≡ done (some slot, pages)
      → store a b ≡ done (ok (handle ci slot), set_pool a ci pool pages)
  unfolding store
  store-some slot run = rw (class, index, found, run)

  store-none :
      store_pages 0 pool.zspages b ≡ done (none, pages) → store a b ≡ store_new a ci pool pages b
  unfolding store
  store-none run = rw (class, index, found, run)

-- A payload of up to a page is stored without a panic or an error. The allocator stays well
-- formed, the handle was not live before and stands for the payload (unless that is empty), and
-- every live handle keeps its bytes.
pub store_lem :
    (a : ZsAllocator) (b : List ℕ)
    → IsValid a
    → length b ≤ page_size
    → (h : ZsHandle) × (a' : ZsAllocator) × (store a b ≡ done (ok h, a')) × Stored a a' b h
store_lem a b v small = elim (size_class_cases (length b)) [
  | inl (large, _) ↦ absurd (omega arith)
  | inr (_, ci, size, class, first) ↦
      let (pool, found) =
        get_elem?-some_bound a.classes ci
          (omega (arith, v.class_count, get_elem?_bound size_classes ci first.at)) in
      let w = v.pools ci pool found in
      let fits : length b ≤ pool.slot_size = ground (arith, w.class_size, first.at, first.fits) in
      elim (store_pages_cases pool.slot_size 0 pool.zspages b w.pages fits) [
        | inr (k, j, s, g, pages, e, run, r) ↦
            let j-eq : j ≡ k = omega arith in
            (
              handle ci (k, s, g),
              set_pool a ci pool pages,
              store-some a ci pool b class found pages (k, s, g) (rw (← j-eq) run),
              Stored-of_Placed a ci pool pages b k s g v found r,
            )
        | inl run ↦
            let (h, a', stored, s) = store_new_lem a ci pool b v found fits in
            (h, a', store-none a ci pool b class found pool.zspages run ∙ stored, s)
      ]
]

-- A longer payload is refused, and nothing changes.
pub store_too_large :
    (a : ZsAllocator) (b : List ℕ)
    → page_size < length b
    → store a b ≡ done (err object_too_large, a)
unfolding store
store_too_large a b large = elim (size_class_cases (length b)) [
  | inl (_, class) ↦ rw class
  | inr (small, _, _, _, _) ↦ absurd (omega arith)
]
