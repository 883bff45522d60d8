-- ===== src/Kernel/Frames.antt =====
-- `kernel/allocator.rs`: the frames of the boot memory map, and the checks and errors around the page
-- tables. A frame is the number where it starts; sums of addresses are taken without overflow of 64
-- bits. The page tables of the crate x86_64 and the UEFI allocator are outside.
pub mod Walk
pub mod Requests
use theos.Base.{
  ℕ, zero, suc, ◌+◌, ◌-◌, ◌*◌, ◌/◌, max, Bool, true, false, List, [], ◌∷◌, ◌++◌, length, get_elem?,
  Option, none, some,
}
use theos.Base.{Result, ok, err, attempt, ok_or, ok_then, leb, ltb, if◌then◌else◌}

abbrev pub frame_size : ℕ
frame_size = 4096

pub record MemoryRegion : Type 0 where
  pub base : ℕ
  pub length : ℕ

pub record BootInfoFrameAllocator : Type 0 where
  pub regions : List MemoryRegion
  pub recycled : List ℕ
  pub current_entry : ℕ
  pub current_addr : ℕ

-- The entries of the firmware's map, of which the conventional memory is taken.
pub record MapEntry : Type 0 where
  pub is_conventional : Bool
  pub phys_start : ℕ
  pub page_count : ℕ

unfoldable pub usable_regions : List MapEntry → List MemoryRegion
usable_regions [] = []
usable_regions (e ∷ entries) =
    let rest = usable_regions entries in
    if e.is_conventional
    then record { base = e.phys_start; length = e.page_count * frame_size } ∷ rest
    else rest

abbrev pub init_from_regions : List MemoryRegion → BootInfoFrameAllocator
init_from_regions regions = record {
  regions = regions;
  recycled = [];
  current_entry = 0;
  current_addr = 0;
}

abbrev pub init_from_uefi : List MapEntry → BootInfoFrameAllocator
init_from_uefi entries = init_from_regions (usable_regions entries)

abbrev pub pop_behind : ℕ → Option (ℕ × List ℕ) → Option (ℕ × List ℕ)
pop_behind x none = some (x, [])
pop_behind x (some (y, ys)) = some (y, x ∷ ys)

-- `Vec::pop`: the last one, and those before it.
unfoldable pub pop : List ℕ → Option (ℕ × List ℕ)
pop [] = none
pop (x ∷ xs) = pop_behind x (pop xs)

-- `PhysFrame::containing_address`
abbrev pub containing_address : ℕ → ℕ
containing_address addr = addr / frame_size * frame_size

-- Where the next frame of a region would be: not before the region, and never at 0.
abbrev pub next_addr : ℕ → MemoryRegion → ℕ
next_addr current entry = max (max current entry.base) frame_size

-- The frame at `addr` of a region, and the walk behind it.
abbrev pub frame_at : BootInfoFrameAllocator → ℕ → Option ℕ × BootInfoFrameAllocator
frame_at s addr = (some (containing_address addr), record s { current_addr = addr + frame_size })

abbrev pub next_region : BootInfoFrameAllocator → BootInfoFrameAllocator
next_region s = record s { current_entry = suc s.current_entry; current_addr = 0 }

-- The region that the walk stands at, and what the regions behind it give.
abbrev pub from_region :
    BootInfoFrameAllocator
    → Option MemoryRegion
    → Option ℕ × BootInfoFrameAllocator
    → Option ℕ × BootInfoFrameAllocator
from_region s none rest = (none, s)
from_region s (some entry) rest =
    let addr = next_addr s.current_addr entry in
    if leb (addr + frame_size) (entry.base + entry.length) then frame_at s addr else rest

-- The loop over the regions that are left.
unfoldable pub walk_regions : ℕ → BootInfoFrameAllocator → Option ℕ × BootInfoFrameAllocator
walk_regions zero s = (none, s)
walk_regions (suc n) s =
    from_region s (get_elem? s.regions s.current_entry) (walk_regions n (next_region s))

abbrev pub recycled_or_new :
    BootInfoFrameAllocator → Option (ℕ × List ℕ) → Option ℕ × BootInfoFrameAllocator
recycled_or_new s (some (frame, rest)) = (some frame, record s { recycled = rest })
recycled_or_new s none = walk_regions (length s.regions - s.current_entry) s

unfoldable pub allocate_frame : BootInfoFrameAllocator → Option ℕ × BootInfoFrameAllocator
allocate_frame s = recycled_or_new s (pop s.recycled)

pub data VmError : Type 0 where
  runtime_not_initialized frame_allocation_failed page_already_mapped : VmError
  parent_entry_huge_page page_not_mapped : VmError

-- The statics of the module: the allocator behind its lock, and what `init_runtime` stores.
pub record Runtime : Type 0 where
  pub frame_allocator : Option BootInfoFrameAllocator
  pub physical_memory_offset : ℕ
  pub ready : Bool

abbrev pub init_runtime : Runtime → ℕ → BootInfoFrameAllocator → Runtime
init_runtime r offset frame_allocator = record {
  frame_allocator = some frame_allocator;
  physical_memory_offset = offset;
  ready = true;
}

abbrev pub memory_offset : Runtime → Result VmError ℕ
memory_offset r = if r.ready then ok r.physical_memory_offset else err runtime_not_initialized

unfoldable pub try_allocate_frame : Runtime → Result VmError (Option ℕ) × Runtime
try_allocate_frame r =
    attempt (ok_or r.frame_allocator runtime_not_initialized) r
      λ s. let (frame, s') = allocate_frame s in (ok frame, record r { frame_allocator = some s' })

-- `recycled.push(frame)`
abbrev pub recycle : BootInfoFrameAllocator → ℕ → BootInfoFrameAllocator
recycle s frame = record s { recycled = s.recycled ++ frame ∷ [] }

unfoldable pub deallocate_frame : Runtime → ℕ → Result VmError (Unit {0}) × Runtime
deallocate_frame r frame =
    attempt (ok_or r.frame_allocator runtime_not_initialized) r
      λ s. (ok tt, record r { frame_allocator = some (recycle s frame) })

-- The errors of the crate's mapper.
pub data MapToError : Type 0 where
  map_frame_allocation_failed map_parent_entry_huge_page : MapToError
  map_page_already_mapped : ℕ → MapToError

pub data UnmapError : Type 0 where
  unmap_parent_entry_huge_page unmap_page_not_mapped : UnmapError
  unmap_invalid_frame_address : ℕ → UnmapError

pub data FlagUpdateError : Type 0 where
  flags_page_not_mapped flags_parent_entry_huge_page : FlagUpdateError

abbrev pub map_error_to_vm : MapToError → VmError
map_error_to_vm map_frame_allocation_failed = frame_allocation_failed
map_error_to_vm map_parent_entry_huge_page = parent_entry_huge_page
map_error_to_vm (map_page_already_mapped page) = page_already_mapped

abbrev pub unmap_error_to_vm : UnmapError → VmError
unmap_error_to_vm unmap_parent_entry_huge_page = parent_entry_huge_page
unmap_error_to_vm unmap_page_not_mapped = page_not_mapped
unmap_error_to_vm (unmap_invalid_frame_address addr) = page_not_mapped

abbrev pub flag_update_error_to_vm : FlagUpdateError → VmError
flag_update_error_to_vm flags_parent_entry_huge_page = parent_entry_huge_page
flag_update_error_to_vm flags_page_not_mapped = page_not_mapped
