-- ===== src/Zram/Page.antt =====
-- kernel/zram.rs, `ZsPage`: slots of one size in one buffer, a free list, and a generation number
-- for each slot that tells a stale handle from a live one.
-- The free list's head is the back of the vector.
pub mod Valid
pub mod Write
pub mod Free
use theos.Base.{
  ℕ, zero, suc, ◌+◌, ◌-◌, ◌*◌, ◌/◌, max, List, [], ◌∷◌, Option, none, some, Bool, true, false,
}
use theos.Base.{Exec, done, panic, ◌>>=◌, Result, ok, err, index, assign, slice, write, length}
use theos.Base.{replicate, ltb, leb, ◌==◌, if◌then◌else◌, not}
use theos.Zram.Types.{page_size, ZramError, invalid_handle, next_generation}

pub record ZsPage : Type 0 where
  pub slot_size : ℕ
  pub pages_per_zspage : ℕ
  pub storage : List ℕ
  pub slot_lengths : List ℕ
  pub slot_generations : List ℕ
  pub free_list : List ℕ
  pub used_slots : ℕ

-- `i, i + 1, …`, `n` numbers.
abbrev pub range : ℕ → ℕ → List ℕ
range i zero = []
range i (suc n) = i ∷ range (i + 1) n

unfoldable pub new : ℕ → ℕ → ZsPage
new slot_size pages =
    let bytes = page_size * pages in
    let slots = max (bytes / slot_size) 1 in
    record {
      slot_size = slot_size;
      pages_per_zspage = pages;
      storage = replicate bytes 0;
      slot_lengths = replicate slots 0;
      slot_generations = replicate slots 0;
      free_list = range 0 slots;
      used_slots = 0;
    }

-- `allocate` behind the test of the length, with the popped slot and the rest of the free list.
abbrev pub allocate_slot : ZsPage → List ℕ → ℕ → List ℕ → Exec (Option (ℕ × ℕ) × ZsPage)
allocate_slot p bytes slot rest = do
  old ← index p.slot_generations slot
  let generation = next_generation old
  generations ← assign p.slot_generations slot generation
  lengths ← assign p.slot_lengths slot (length bytes)
  storage ← write p.storage (slot * p.slot_size) bytes
  done (
    some (slot, generation),
    record p {
      storage = storage;
      slot_lengths = lengths;
      slot_generations = generations;
      free_list = rest;
      used_slots = p.used_slots + 1;
    },
  )

unfoldable pub allocate : ZsPage → List ℕ → Exec (Option (ℕ × ℕ) × ZsPage)
allocate p bytes =
    if ltb p.slot_size (length bytes)
    then done (none, p)
    else (elim p.free_list [ [] ↦ done (none, p) | slot ∷ rest ↦ allocate_slot p bytes slot rest ])

-- The guard that `read` and `free` share; `||` does not look at the later tests.
unfoldable pub is_stale : ZsPage → ℕ → ℕ → Exec Bool
is_stale p slot generation = if leb (length p.slot_lengths) slot then done true else (do
  current ← index p.slot_generations slot
  if not (current == generation)
      then done true
      else (index p.slot_lengths slot >>= λ len. done (len == 0)))

unfoldable pub read : ZsPage → ℕ → ℕ → Exec (Result ZramError (List ℕ))
unfolding is_stale
read p slot generation = do
  stale ← is_stale p slot generation
  if stale then done (err invalid_handle) else (do
    len ← index p.slot_lengths slot
    bytes ← slice p.storage (slot * p.slot_size) len
    done (ok bytes))

unfoldable pub free : ZsPage → ℕ → ℕ → Exec (Result ZramError (Unit {0}) × ZsPage)
unfolding is_stale
free p slot generation = do
  stale ← is_stale p slot generation
  if stale then done (err invalid_handle, p) else (do
    lengths ← assign p.slot_lengths slot 0
    old ← index p.slot_generations slot
    generations ← assign p.slot_generations slot (next_generation old)
    done (
      ok tt,
      record p {
        slot_lengths = lengths;
        slot_generations = generations;
        free_list = slot ∷ p.free_list;
        used_slots = p.used_slots - 1;
      },
    ))

abbrev pub sum : List ℕ → ℕ
sum [] = 0
sum (x ∷ xs) = x + sum xs

unfoldable pub used_bytes : ZsPage → ℕ
used_bytes p = sum p.slot_lengths

unfoldable pub capacity_bytes : ZsPage → ℕ
capacity_bytes p = p.pages_per_zspage * page_size
