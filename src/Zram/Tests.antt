-- ===== src/Zram/Tests.antt =====
-- Runs of kernel/zram.rs, and its theorems at concrete inputs. The codec writes a page of zeros
-- as one byte and any other page as it is behind a marker.
use theos.Base.{ℕ, zero, suc, ◌≡◌, refl, ◌⊎◌, arith}
use theos.Base.{
  List, [], ◌∷◌, Option, none, some, length, replicate, Bool, true, ◌&&◌, ◌==◌, if◌then◌else◌,
}
use theos.Base.{done, ok, err}
use theos.Base.Maps
use theos.Zram.Types.{
  missing_page, page_index_out_of_range, object_too_large, invalid_handle, ZsHandle,
  size_class_index, nonzero_generation, next_generation, pages_per_zspage,
}
use theos.Zram.Page
use theos.Zram.Page.Valid as PageValid
use theos.Zram.Slots
use theos.Zram.Slots.Valid as SlotsValid
use theos.Zram.Slots.Store.{store_lem, store_too_large}
use theos.Zram.Slots.Load.{free_lem, Released}
use theos.Zram.Device
use theos.Zram.Device.{Lz4Block, IsLossless, ZramDevice}
use theos.Zram.Device.Valid.{IsValid, new-IsValid_lem}
use theos.Zram.Device.Store.{store_page_lem, Updated}
use theos.Zram.Device.Refine.{
  Call, store, load, invalidate, Reply, page, finished, failed, run, run-promises, promises,
  promise, Store, Models,
}
use theos.Zram.Device.Refine
use theos.Zram.Device.Empty.{store_page_empty}
use theos.Zram.Swap
use theos.Zram.Swap.{load-Models}

abbrev all_zero : List ℕ → Bool
all_zero [] = true
all_zero (b ∷ bs) = b == 0 && all_zero bs

abbrev squeeze : List ℕ → List ℕ
squeeze p = if all_zero p then 1 ∷ [] else 0 ∷ p

abbrev expand : List ℕ → ℕ → Option (List ℕ)
expand [] n = none
expand (zero ∷ bs) n = some bs
expand (suc m ∷ bs) n = some (replicate n 0)

abbrev codec : Lz4Block
codec = record { compress = squeeze; decompress = expand }

replicate_zeros : (p : List ℕ) → all_zero p ≡ true → replicate (length p) 0 ≡ p
replicate_zeros [] e = refl
replicate_zeros (b ∷ bs) e = ground (arith, replicate_zeros bs)

codec-IsLossless : IsLossless codec
codec-IsLossless = record {
  not_empty = λ p. ground arith;
  restores = λ p small. ground (arith, replicate_zeros p);
}

abbrev zeros : List ℕ
zeros = replicate 100 0

abbrev bytes : List ℕ
bytes = 1 ∷ 2 ∷ 3 ∷ []

program : Unit {0}
unfolding Device.new Device.store_page Device.load_page Device.invalidate_page Device.encode
    Device.decode Slots.new Slots.new_pool Slots.store Slots.store_pages Slots.store_new Slots.load
    Slots.free Page.new Page.allocate Page.read Page.free Page.is_stale Maps.get Maps.insert
    Maps.remove size_class_index pages_per_zspage nonzero_generation next_generation run Refine.step
program = tt

abbrev calls : List Call
calls =
    load 1
    ∷ store 1 bytes
    ∷ load 1
    ∷ store 1 zeros
    ∷ load 1
    ∷ store 9 bytes
    ∷ invalidate 1
    ∷ load 1
    ∷ []

session :
    run codec (Device.new 4) calls
    ≡ done (
        failed missing_page
        ∷ finished
        ∷ page bytes
        ∷ finished
        ∷ page zeros
        ∷ failed page_index_out_of_range
        ∷ finished
        ∷ failed missing_page
        ∷ [])
unfolding program
session = refl

run-promises_example : run codec (Device.new 4) calls ≡ done (promises 4 (λ _. none) calls)
run-promises_example = run-promises codec 4 calls codec-IsLossless (omega arith)

abbrev empty : ZramDevice
empty = Device.new 4

empty_max : empty.max_pages ≡ 4
empty_max = (unfold Device.new in refl)

store_page_lem_example :
    (d' : ZramDevice) × (Device.store_page codec empty 2 bytes ≡ done (ok tt, d'))
    × Updated codec empty d' 2 bytes
store_page_lem_example =
    store_page_lem codec codec-IsLossless empty 2 bytes (new-IsValid_lem codec 4)
      (omega (arith, empty_max)) (omega arith) (omega arith)

abbrev filled : ZramDevice
filled = store_page_lem_example.0

filled-IsValid : IsValid codec filled
filled-IsValid = store_page_lem_example.2.valid

absent : Maps.get empty.pages 0 ≡ none
absent = (unfold Device.new Maps.get in refl)

store_page_empty_example :
    (d' : ZramDevice) × (Device.store_page codec empty 0 [] ≡ done (ok tt, d'))
    × (Device.load_page codec d' 0 ≡ done (err invalid_handle, d'))
    × ((d'' : ZramDevice) × (Device.invalidate_page d' 0 ≡ done (err invalid_handle, d''))
        × (d''.allocator ≡ d'.allocator))
store_page_empty_example =
    store_page_empty codec empty 0 codec-IsLossless (new-IsValid_lem codec 4)
      (omega (arith, empty_max)) absent

store_lem_example :
    (h : ZsHandle) × (a' : Slots.ZsAllocator) × (Slots.store Slots.new bytes ≡ done (ok h, a'))
    × SlotsValid.Stored Slots.new a' bytes h
store_lem_example = store_lem Slots.new bytes SlotsValid.new-IsValid_lem (omega arith)

abbrev stored : Slots.ZsAllocator
stored = store_lem_example.1

abbrev ticket : ZsHandle
ticket = store_lem_example.0

free_lem_example :
    ((b : List ℕ) × (a' : Slots.ZsAllocator) × SlotsValid.Holds stored ticket b
      × (Slots.free stored ticket ≡ done (ok tt, a'))
      × Released stored a' ticket)
    ⊎ (((b : List ℕ) → ¬ SlotsValid.Holds stored ticket b)
        × (Slots.free stored ticket ≡ done (err invalid_handle, stored)))
free_lem_example = free_lem stored ticket store_lem_example.3.valid

abbrev slab : Page.ZsPage
slab = Page.new 64 1

slab-IsValid : PageValid.IsValid slab
slab-IsValid = PageValid.new-IsValid 64 1 (omega arith) (omega arith)

slab_size : slab.slot_size ≡ 64
slab_size = (unfold Page.new in refl)

store_too_large_example :
    Slots.store Slots.new (replicate 4097 0) ≡ done (err object_too_large, Slots.new)
store_too_large_example = store_too_large Slots.new (replicate 4097 0) (omega arith)

new-Models : Models codec empty 4 (λ _. none)
new-Models = record {
  valid = new-IsValid_lem codec 4;
  same_max = empty_max;
  has = λ i p e. cc;
  lacks = λ i e. (unfold Device.new Maps.get in refl);
}

load-Models_example :
    (b : ZramDevice) × (Swap.load codec (record { backend = empty; hits = 0; misses = 5 }) 3
      ≡ done (err missing_page, record { backend = b; hits = 0; misses = 6 }))
load-Models_example =
    load-Models codec (record { backend = empty; hits = 0; misses = 5 }) 4 (λ _. none) 3 new-Models
