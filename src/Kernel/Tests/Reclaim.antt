-- ===== src/Kernel/Tests/Reclaim.antt =====
-- A pager over a memory of two frames, with a page taken and brought back, and what comes when no frame is free.
use theos.Base.{
  zero, suc, ◌+◌, ◌⊎◌, Result, ℕ, ◌≡◌, refl, ap, ◌∙◌, arith, List, [], ◌∷◌, ◌++◌, length, take,
  take-append, subst, ==_self, replicate, length-take, length-append, length-replicate, Option,
  some, none, ok, err, done, ◌==◌, if◌then◌else◌, true,
}
use theos.Base.Maps.{get, insert}
use theos.Zram.Types.{page_size}
use theos.Zram.Device.{Lz4Block, IsLossless}
use theos.Kernel.Reclaim.{
  deadlock, allocate_and_map_page, reclaim_one, is_resident, ReclaimPager, ReclaimEntry, resident,
  compressed, Vm, new, allocate_region, allocate_pages, reclaim_page, handle_page_fault,
}
use theos.Kernel.Reclaim.Valid.{IsVm, Contents, Holds, new-Holds, page_at}
use theos.Kernel.Reclaim.Taken.{Taking, took, refused, reclaim_page_lem}
use theos.Kernel.Reclaim.Restored.{Restoring, handle_page_fault_lem}
use theos.Kernel.Reclaim.Grown.{Grows, allocate_region-Grows}
use theos.Kernel.Reclaim.Found.{TakesOne, reclaim_one_lem}
use theos.Kernel.Frames.{VmError}
use theos.Kernel.Reclaim.Calls.{
  Call, allocate, reclaim, reclaim_next, fault, fill_page, run, step, AllUntouched, Stuck,
}
use theos.Kernel.Reclaim.Runs.{run-Keeps, stored_kept}

-- A codec that only marks a block.
abbrev unmark : List ℕ → ℕ → Option (List ℕ)
unmark [] n = none
unmark (b ∷ bytes) n = some bytes

abbrev pub codec : Lz4Block
codec = record { compress = λ page. 0 ∷ page; decompress = unmark }

pub codec-IsLossless : IsLossless codec
codec-IsLossless = record { not_empty = λ page. omega arith; restores = λ page small. refl }

-- How many frames are free, and the bytes of the pages.
abbrev pub Memory : Type 0
Memory = ℕ × (ℕ → List ℕ)

abbrev pub one_frame : Memory → Result VmError (Option ℕ) × Memory
one_frame (zero, bytes) = (ok none, (zero, bytes))
one_frame (suc n, bytes) = (ok (some 4096), (n, bytes))

one_frame-other : (m : Memory) → (one_frame m).1.1 ≡ m.1
one_frame-other (zero, bytes) = refl
one_frame-other (suc n, bytes) = refl

-- The bytes and then zeros to the page's end.
unfoldable pub padded : List ℕ → List ℕ
padded bytes = take page_size (bytes ++ replicate page_size 0)

abbrev pub vm : Vm Memory
vm = record {
  try_allocate_frame = one_frame;
  map_existing_page = λ m p frame. (ok tt, m);
  unmap_page = λ m p. (ok 4096, m);
  deallocate_frame = λ m f. (ok tt, (m.0 + 1, m.1));
  read_page = λ m p. padded (m.1 p);
  write_page = λ m p bytes. (m.0, λ q. if p == q then bytes else m.1 q);
}

length-padded : (bytes : List ℕ) → length (padded bytes) ≡ page_size
unfolding padded
length-padded bytes = omega (
  arith,
  length-take page_size (bytes ++ replicate page_size 0),
  length-append bytes (replicate page_size 0),
  length-replicate {A = ℕ} page_size 0,
)

take_all : (bytes rest : List ℕ) (n : ℕ) → length bytes ≡ n → take n (bytes ++ rest) ≡ bytes
take_all bytes rest n e =
    subst (λ (k : ℕ). take k (bytes ++ rest) ≡ bytes) e (take-append bytes rest)

padded_full : (bytes : List ℕ) → length bytes ≡ page_size → padded bytes ≡ bytes
unfolding padded
padded_full bytes full = take_all bytes _ page_size full

pub vm-IsVm : IsVm vm
vm-IsVm = record {
  read_size = λ m p. length-padded (m.1 p);
  write_here = λ m p bytes full. ap padded (rw (==_self p) refl) ∙ padded_full bytes full;
  write_other = λ m p q bytes apart. ap padded (ground arith);
  try_other = λ m q. ap (λ bytes. padded (bytes q)) (one_frame-other m);
  map_other = λ m p frame q apart. refl;
  unmap_other = λ m p q apart. refl;
  unmap_refused = λ m p e denied. refl;
  free_other = λ m f q. refl;
  free_ok = λ m p f given. refl;
}

abbrev pub memory : Memory
memory = (2, λ p. [])

abbrev nothing : Contents
nothing p = none

growing : Grows vm codec nothing (allocate_region vm new memory 2)
growing = allocate_region-Grows vm codec new memory nothing 2 vm-IsVm (new-Holds vm codec memory)

abbrev first_calls : List Call
first_calls =
    allocate 2 ∷ fill_page (page_at 0) (replicate 4096 7) ∷ reclaim_next ∷ fault (page_at 0) ∷ []

run-Keeps_example :
    Stuck vm codec new memory first_calls
    ⊎ ((s' : ReclaimPager) × (m' : Memory) × (f' : Contents) × (run vm codec new memory first_calls
          ≡ done (some (s', m')))
        × Holds vm codec s' m' f'
        × ((p : ℕ) (bytes : List ℕ)
            → AllUntouched p first_calls
            → nothing p ≡ some bytes
            → f' p ≡ some bytes))
run-Keeps_example =
    run-Keeps vm codec new memory nothing first_calls vm-IsVm codec-IsLossless
      (new-Holds vm codec memory)

-- A pager with two pages in memory, of which the first is taken.
abbrev pub grown : ReclaimPager
grown = (allocate_region vm new memory 2).1.0

abbrev pub grown_memory : Memory
grown_memory = (allocate_region vm new memory 2).1.1

abbrev first_entry : ReclaimEntry
first_entry = record { page_index = 0; state = resident 4096 }

first_found : get grown.entries (page_at 0) ≡ some first_entry
unfolding get insert allocate_region allocate_pages allocate_and_map_page new
first_found = refl

first_resident : is_resident (get grown.entries (page_at 0)) ≡ true
unfolding get insert allocate_region allocate_pages allocate_and_map_page new
first_resident = refl

first-Taking :
    Taking vm codec growing.contents grown grown_memory
      (page_at 0)
      first_entry
      (reclaim_page vm codec grown grown_memory (page_at 0))
first-Taking =
    reclaim_page_lem vm vm-IsVm codec codec-IsLossless grown grown_memory growing.contents
      growing.holds (page_at 0) 4096 first_entry first_found refl

one_taken :
    (s' : ReclaimPager) × (m' : Memory) × Holds vm codec s' m' growing.contents
    × (get s'.entries (page_at 0) ≡ some (record first_entry { state = compressed }))
one_taken = elim first-Taking [
  | took s' m' e h at q ↦ (s', m', h, at)
  | refused x s' m' denied e h ↦ absurd (cc)
]

handle_page_fault_lem_example :
    Restoring vm codec growing.contents one_taken.0 one_taken.1
      (page_at 0)
      (record first_entry { state = compressed })
      (handle_page_fault vm codec one_taken.0 one_taken.1 (page_at 0))
handle_page_fault_lem_example =
    handle_page_fault_lem vm codec one_taken.0 one_taken.1 growing.contents (page_at 0)
      (record first_entry { state = compressed }) vm-IsVm one_taken.2 one_taken.3 refl

abbrev calls : List Call
calls = reclaim_next ∷ allocate 3 ∷ reclaim_next ∷ fault (page_at 0) ∷ reclaim (page_at 0) ∷ []

stored_kept_example :
    Stuck vm codec grown grown_memory (fill_page (page_at 0) (replicate page_size 7) ∷ calls)
    ⊎ ((s' : ReclaimPager) × (m' : Memory) × (f' : Contents) × (run vm codec grown grown_memory
            (fill_page (page_at 0) (replicate page_size 7) ∷ calls)
          ≡ done (some (s', m')))
        × Holds vm codec s' m' f'
        × (f' (page_at 0) ≡ some (replicate page_size 7)))
stored_kept_example =
    stored_kept vm codec grown grown_memory growing.contents calls (page_at 0)
      (replicate page_size 7) vm-IsVm codec-IsLossless growing.holds first_resident
      (length-replicate {A = ℕ} page_size 7) (tt, (tt, (tt, (tt, (tt, tt)))))

pub grown_runs : run vm codec new memory (allocate 2 ∷ []) ≡ done (some (grown, grown_memory))
unfolding run step allocate_region allocate_pages allocate_and_map_page new
grown_runs = refl

reclaim_one_lem_example :
    (f : Contents) × Holds vm codec grown grown_memory f
    × TakesOne vm codec f grown grown_memory (reclaim_one vm codec grown grown_memory)
reclaim_one_lem_example =
    reclaim_one_lem vm codec memory (allocate 2 ∷ []) grown grown_memory (page_at 0) vm-IsVm
      codec-IsLossless grown_runs first_resident

-- Without a free frame the call waits for its own lock, and no call behind it comes.
starved_run : run vm codec new (0, λ p. []) (allocate 1 ∷ reclaim_next ∷ []) ≡ done none
unfolding run step allocate_region allocate_pages allocate_and_map_page new
starved_run = refl

-- A frame that is given to the second page is missing for the third.
starved_third : (allocate_region vm new memory 3).0 ≡ err deadlock
unfolding allocate_region allocate_pages allocate_and_map_page new
starved_third = refl
