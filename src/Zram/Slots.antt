-- ===== src/Zram/Slots.antt =====
-- kernel/zram.rs, `SizeClassPool` and `ZsAllocator`: a pool of `ZsPage`s for each size class, and
-- handles that name a slot in one of them.
pub mod Pages
pub mod Valid
pub mod Store
pub mod Load
use theos.Base.{
  ℕ, ◌+◌, List, [], ◌∷◌, ◌++◌, map, Option, none, some, Exec, done, panic, ◌>>=◌, Result,
}
use theos.Base.{ok, err, try, and_then, ok_or, index, length, get_elem?, set}
use theos.Zram.Types.{
  page_size, size_classes, size_class_index, pages_per_zspage, ZramError, object_too_large,
  invalid_handle, ZsHandle, ZsStats,
}
use theos.Zram.Page
use theos.Zram.Page.{ZsPage}

pub record SizeClassPool : Type 0 where
  pub slot_size : ℕ
  pub pages_per_zspage : ℕ
  pub zspages : List ZsPage

pub record ZsAllocator : Type 0 where
  pub classes : List SizeClassPool

unfoldable pub new_pool : ℕ → SizeClassPool
new_pool slot_size = record {
  slot_size = slot_size;
  pages_per_zspage = pages_per_zspage slot_size;
  zspages = [];
}

unfoldable pub new : ZsAllocator
new = record { classes = map new_pool size_classes }

-- The loop of `store` over the pages of a class, which stops at the first that has a slot: the
-- page's index, the slot and the generation.
unfoldable pub store_pages : ℕ → List ZsPage → List ℕ → Exec (Option (ℕ × ℕ × ℕ) × List ZsPage)
store_pages i [] bytes = done (none, [])
store_pages i (p ∷ ps) bytes = do
  (slot, p') ← Page.allocate p bytes
  elim slot [
    | some (s, g) ↦ done (some (i, s, g), p' ∷ ps)
    | none ↦ store_pages (i + 1) ps bytes >>= λ r. done (r.0, p' ∷ r.1)
  ]

abbrev pub set_pool : ZsAllocator → ℕ → SizeClassPool → List ZsPage → ZsAllocator
set_pool a ci pool pages = record { classes = set a.classes ci (record pool { zspages = pages }) }

abbrev pub handle : ℕ → ℕ × ℕ × ℕ → ZsHandle
handle ci (pi, s, g) = record { class_index = ci; page_index = pi; slot_index = s; generation = g }

-- The end of `store`: a new page, of which the payload takes the first slot.
unfoldable pub store_new :
    ZsAllocator
    → ℕ
    → SizeClassPool
    → List ZsPage
    → List ℕ
    → Exec (Result ZramError ZsHandle × ZsAllocator)
store_new a ci pool pages bytes = do
  (slot, page) ← Page.allocate (Page.new pool.slot_size pool.pages_per_zspage) bytes
  elim slot [
    | none ↦ done (err object_too_large, set_pool a ci pool pages)
    | some (s, g) ↦
        done (ok (handle ci (length pages, s, g)), set_pool a ci pool (pages ++ page ∷ []))
  ]

unfoldable pub store : ZsAllocator → List ℕ → Exec (Result ZramError ZsHandle × ZsAllocator)
unfolding store_new
store a bytes = try (ok_or (size_class_index (length bytes)) object_too_large) a λ ci. do
  pool ← index a.classes ci
  (found, pages) ← store_pages 0 pool.zspages bytes
  elim found [
    | some slot ↦ done (ok (handle ci slot), set_pool a ci pool pages)
    | none ↦ store_new a ci pool pages bytes
  ]

-- `classes.get(class_index).and_then(|pool| pool.zspages.get(page_index))`
abbrev pub page_of : ZsAllocator → ZsHandle → Option ZsPage
page_of a h = elim (get_elem? a.classes h.class_index) [
  | none ↦ none
  | some pool ↦ get_elem? pool.zspages h.page_index
]

unfoldable pub load : ZsAllocator → ZsHandle → Exec (Result ZramError (List ℕ))
load a h =
    and_then (ok_or (page_of a h) invalid_handle) λ page. Page.read page h.slot_index h.generation

-- The page behind `get_mut` written back.
abbrev pub set_page : ZsAllocator → ZsHandle → ZsPage → ZsAllocator
set_page a h page = elim (get_elem? a.classes h.class_index) [
  | none ↦ a
  | some pool ↦ set_pool a h.class_index pool (set pool.zspages h.page_index page)
]

unfoldable pub free : ZsAllocator → ZsHandle → Exec (Result ZramError (Unit {0}) × ZsAllocator)
free a h =
    try (ok_or (page_of a h) invalid_handle) a
      λ page. do (r, page') ← Page.free page h.slot_index h.generation; done (r, set_page a h page')

add_page : ZsStats → ZsPage → ZsStats
add_page s p = record {
  zspages = s.zspages + 1;
  used_slots = s.used_slots + p.used_slots;
  capacity_bytes = s.capacity_bytes + Page.capacity_bytes p;
  stored_bytes = s.stored_bytes + Page.used_bytes p;
}

add_pages : ZsStats → List ZsPage → ZsStats
add_pages s [] = s
add_pages s (p ∷ ps) = add_pages (add_page s p) ps

add_pools : ZsStats → List SizeClassPool → ZsStats
add_pools s [] = s
add_pools s (c ∷ cs) = add_pools (add_pages s c.zspages) cs

unfoldable pub stats : ZsAllocator → ZsStats
unfolding add_page add_pages add_pools
stats a =
    add_pools (record { zspages = 0; used_slots = 0; capacity_bytes = 0; stored_bytes = 0 })
      a.classes
