-- ===== src/Kernel/Reclaim.antt =====
-- `kernel/reclaim.rs`, the pager: pages of a region in virtual memory that are taken out of it, compressed,
-- and brought back by a fault. It is a client of Zram.Device and of the allocator of kernel/allocator.rs,
-- of which it has the interface `Vm`. A page is the number where it starts, a frame likewise.
-- Out of frames `allocate_frame` of kernel/allocator.rs calls the pager. The pager calls it with its own lock
-- held, which is not reentrant: then the call waits for ever, and that is the outcome `deadlock`.

pub mod Valid
pub mod Mapped
pub mod Changed
pub mod Taken
pub mod Restored
pub mod Grown
pub mod Starved
pub mod Steps
pub mod Calls
pub mod Runs
pub mod Queue
pub mod After
pub mod Progress
pub mod Found
use theos.Base.{
  ℕ, zero, suc, ◌+◌, ◌-◌, ◌*◌, List, [], ◌∷◌, ◌++◌, length, replicate, Bool, true, false, Option,
  none, some,
}
use theos.Base.{
  Exec, done, ◌>>=◌, Result, ok, err, try, attempt, map_err, leb, ltb, ◌==◌, if◌then◌else◌,
}
use theos.Base.Maps.{Map, get, insert}
use theos.Zram.Types.{page_size, ZramError, saturating_inc}
use theos.Zram.Device as Zram
use theos.Zram.Device.{Lz4Block, ZramDevice, store_page, load_page, invalidate_page}
use theos.Kernel.Frames.{VmError, containing_address}

abbrev pub reclaim_start : ℕ
reclaim_start = 0x555500000000

abbrev pub reclaim_max_pages : ℕ
reclaim_max_pages = 256

pub data ReclaimError : Type 0 where
  vm_error : VmError → ReclaimError
  zram_error : ZramError → ReclaimError
  out_of_virtual_space untracked_page already_reclaimed : ReclaimError

-- The frame of a resident page.
pub data EntryState : Type 0 where
  resident : ℕ → EntryState
  compressed : EntryState

pub record ReclaimEntry : Type 0 where
  pub page_index : ℕ
  pub state : EntryState

pub record ReclaimStats : Type 0 where
  pub allocated_pages : ℕ
  pub resident_pages : ℕ
  pub compressed_pages : ℕ
  pub reclaims : ℕ
  pub restored_faults : ℕ

pub record ReclaimPager : Type 0 where
  pub next_region_page : ℕ
  pub next_backend_page : ℕ
  pub entries : Map ReclaimEntry
  pub resident_queue : List ℕ
  pub backend : ZramDevice
  pub reclaims : ℕ
  pub restored_faults : ℕ

unfoldable pub new : ReclaimPager
new = record {
  next_region_page = 0;
  next_backend_page = 0;
  entries = [];
  resident_queue = [];
  backend = Zram.new reclaim_max_pages;
  reclaims = 0;
  restored_faults = 0;
}

-- Why a call has no good reply: an error, or that it waits for ever for the lock that its caller holds.
pub data Stop (E : Type 0) : Type 0 where
  fails : E → Stop E
  deadlock : Stop E

abbrev pub map_stop : {E F : Type 0} → (E → F) → Stop E → Stop F
map_stop f (fails e) = fails (f e)
map_stop f deadlock = deadlock

-- The allocator's calls on frames and page tables, and the bytes of a page that is mapped. `write_page` fills a
-- page.
pub record Vm (M : Type 0) : Type 0 where
  pub try_allocate_frame : M → Result VmError (Option ℕ) × M
  pub map_existing_page : M → ℕ → ℕ → Result VmError (Unit {0}) × M
  pub unmap_page : M → ℕ → Result VmError ℕ × M
  pub deallocate_frame : M → ℕ → Result VmError (Unit {0}) × M
  pub read_page : M → ℕ → List ℕ
  pub write_page : M → ℕ → List ℕ → M

-- The first one is dropped.
unfoldable pub remove_first : List ℕ → ℕ → List ℕ
remove_first [] page = []
remove_first (p ∷ ps) page = if p == page then ps else p ∷ remove_first ps page

abbrev pub remove_from_resident_queue : ReclaimPager → ℕ → ReclaimPager
remove_from_resident_queue s page = record s { resident_queue = remove_first s.resident_queue page }

abbrev pub push_back : ReclaimPager → ℕ → ReclaimPager
push_back s page = record s { resident_queue = s.resident_queue ++ page ∷ [] }

abbrev pub set_state : ReclaimPager → ℕ → ReclaimEntry → EntryState → ReclaimPager
set_state s page entry state = record s {
  entries = insert s.entries page (record entry { state = state });
}

-- A page that `allocate_region` has mapped.
abbrev pub add_page : ReclaimPager → ℕ → ℕ → ReclaimPager
add_page s page frame = record s {
  next_backend_page = s.next_backend_page + 1;
  entries =
      insert s.entries page (record { page_index = s.next_backend_page; state = resident frame });
  resident_queue = s.resident_queue ++ page ∷ [];
  next_region_page = s.next_region_page + 1;
}

-- The end of `reclaim_page`.
abbrev pub taken : ReclaimPager → ℕ → ReclaimEntry → ReclaimPager
taken s page entry =
    let s1 = remove_from_resident_queue (set_state s page entry compressed) page in
    record s1 { reclaims = saturating_inc s1.reclaims }

-- The end of `handle_page_fault`.
abbrev pub restored : ReclaimPager → ℕ → ReclaimEntry → ℕ → ReclaimPager
restored s page entry frame =
    let s1 =
      push_back (remove_from_resident_queue (set_state s page entry (resident frame)) page) page in
    record s1 { restored_faults = saturating_inc s1.restored_faults }

abbrev pub is_resident_state : EntryState → Bool
is_resident_state (resident frame) = true
is_resident_state compressed = false

abbrev pub is_resident : Option ReclaimEntry → Bool
is_resident none = false
is_resident (some entry) = is_resident_state entry.state

-- The bytes and then zeros to the page's end.
abbrev pub filled : List ℕ → List ℕ
filled bytes = bytes ++ replicate (page_size - length bytes) 0

module _ {M : Type 0} (vm : Vm M) where
  abbrev pub zero_page : M → ℕ → M
  zero_page m page = vm.write_page m page (replicate page_size 0)

  -- `allocate_frame` with the pager's lock held: without a free frame it calls `reclaim_one`, which takes the
  -- lock.
  abbrev pub frame_or_deadlock : Result VmError (Option ℕ) → Result (Stop VmError) ℕ
  frame_or_deadlock (ok (some frame)) = ok frame
  frame_or_deadlock (ok none) = err deadlock
  frame_or_deadlock (err e) = err (fails e)

  unfoldable pub allocate_and_map_page : M → ℕ → Result (Stop VmError) ℕ × M
  allocate_and_map_page m page =
      let t = vm.try_allocate_frame m in
      attempt (frame_or_deadlock t.0) t.1 λ frame.
        let p = vm.map_existing_page t.1 page frame in
        attempt (map_err fails p.0) p.1 λ _. (ok frame, p.1)

  -- The loop of `allocate_region`, with what is left of the count.
  unfoldable pub allocate_pages :
      ℕ → ℕ → ℕ → ReclaimPager → M → Result (Stop ReclaimError) (Unit {0}) × (ReclaimPager × M)
  allocate_pages zero page_offset base s m = (ok tt, (s, m))
  allocate_pages (suc n) page_offset base s m =
      let page = containing_address (base + page_offset * page_size) in
      let r = allocate_and_map_page m page in
      attempt (map_err (map_stop vm_error) r.0) (s, r.1)
        λ frame.
          allocate_pages n (page_offset + 1) base (add_page s page frame) (zero_page r.1 page)

  unfoldable pub allocate_region :
      ReclaimPager → M → ℕ → Result (Stop ReclaimError) ℕ × (ReclaimPager × M)
  allocate_region s m page_count =
      if ltb reclaim_max_pages (s.next_region_page + page_count)
      then (err (fails out_of_virtual_space), (s, m))
      else (let base = reclaim_start + s.next_region_page * page_size in
          let r = allocate_pages page_count 0 base s m in attempt r.0 r.1 λ _. (ok base, r.1))

  abbrev pub free_frame : M → ℕ → ℕ → Result VmError (Unit {0}) × M
  free_frame m unmapped frame =
      if unmapped == frame then vm.deallocate_frame m unmapped else (ok tt, m)

  -- `reclaim_page` behind the store in the backend.
  unfoldable pub unmap_entry :
      ReclaimPager → M → ℕ → ReclaimEntry → ℕ → Result ReclaimError (Unit {0}) × (ReclaimPager × M)
  unmap_entry s m page entry frame =
      let u = vm.unmap_page m page in
      attempt (map_err vm_error u.0) (s, u.1)
        λ unmapped.
          let f = free_frame u.1 unmapped frame in
          attempt (map_err vm_error f.0) (s, f.1) λ _. (ok tt, (taken s page entry, f.1))

  module _ (codec : Lz4Block) where
    unfoldable pub reclaim_entry :
        ReclaimPager
        → M
        → ℕ
        → ReclaimEntry
        → EntryState
        → Exec (Result ReclaimError (Unit {0}) × (ReclaimPager × M))
    reclaim_entry s m page entry compressed = done (err already_reclaimed, (s, m))
    reclaim_entry s m page entry (resident frame) =
        store_page codec s.backend entry.page_index (vm.read_page m page) >>= λ r.
        try (map_err zram_error r.0) (record s { backend = r.1 }, m)
          λ _. done (unmap_entry (record s { backend = r.1 }) m page entry frame)

    unfoldable pub reclaim_page :
        ReclaimPager → M → ℕ → Exec (Result ReclaimError (Unit {0}) × (ReclaimPager × M))
    reclaim_page s m addr =
        let page = containing_address addr in
        elim (get s.entries page) [
          | none ↦ done (err untracked_page, (s, m))
          | some entry ↦ reclaim_entry s m page entry entry.state
        ]

    abbrev pub found_one :
        Result ReclaimError (Unit {0}) × (ReclaimPager × M)
        → Result ReclaimError Bool × (ReclaimPager × M)
    found_one (ok _, sm) = (ok true, sm)
    found_one (err e, sm) = (err e, sm)

    -- The loop of `reclaim_one`: the front goes to the back, and a resident page is taken.
    unfoldable pub rotate :
        ℕ → ReclaimPager → M → Exec (Result ReclaimError Bool × (ReclaimPager × M))
    rotate zero s m = done (ok false, (s, m))
    rotate (suc n) s m = elim s.resident_queue [
      | [] ↦ done (ok false, (s, m))
      | page ∷ rest ↦
          let s1 = record s { resident_queue = rest ++ page ∷ [] } in
          elim (is_resident (get s.entries page)) [
            | true ↦ reclaim_page s1 m page >>= λ r. done (found_one r)
            | false ↦ rotate n s1 m
          ]
    ]

    abbrev pub reclaim_one : ReclaimPager → M → Exec (Result ReclaimError Bool × (ReclaimPager × M))
    reclaim_one s m = rotate (length s.resident_queue) s m

    -- `handle_page_fault` on a page that is compressed.
    unfoldable pub restore_entry :
        ReclaimPager
        → M
        → ℕ
        → ReclaimEntry
        → Exec (Result (Stop ReclaimError) Bool × (ReclaimPager × M))
    restore_entry s m page entry = load_page codec s.backend entry.page_index >>= λ l.
        let s1 = record s { backend = l.1 } in
        try (map_err (λ e. fails (zram_error e)) l.0) (s1, m)
          λ bytes.
            let r = allocate_and_map_page m page in
            try (map_err (map_stop vm_error) r.0) (s1, r.1)
              λ frame.
                let m1 = vm.write_page r.1 page (filled bytes) in
                invalidate_page s1.backend entry.page_index >>= λ i.
                let s2 = record s1 { backend = i.1 } in
                try (map_err (λ e. fails (zram_error e)) i.0) (s2, m1)
                  λ _. done (ok true, (restored s2 page entry frame, m1))

    unfoldable pub handle_page_fault :
        ReclaimPager → M → ℕ → Exec (Result (Stop ReclaimError) Bool × (ReclaimPager × M))
    handle_page_fault s m addr =
        let page = containing_address addr in
        elim (get s.entries page) [
          | none ↦ done (ok false, (s, m))
          | some entry ↦ elim (is_resident_state entry.state) [
            | true ↦ done (ok false, (s, m))
            | false ↦ restore_entry s m page entry
          ]
        ]

-- How many entries are resident, and how many are compressed.
unfoldable pub count_states : Map ReclaimEntry → ℕ × ℕ
count_states [] = (0, 0)
count_states ((page, entry) ∷ entries) =
    let (r, c) = count_states entries in
    if is_resident_state entry.state then (r + 1, c) else (r, c + 1)

unfoldable pub stats : ReclaimPager → ReclaimStats
stats s =
    let (r, c) = count_states s.entries in
    record {
      allocated_pages = length s.entries;
      resident_pages = r;
      compressed_pages = c;
      reclaims = s.reclaims;
      restored_faults = s.restored_faults;
    }
