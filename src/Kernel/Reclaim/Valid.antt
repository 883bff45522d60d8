-- ===== src/Kernel/Reclaim/Valid.antt =====
-- What a pager stands for: the bytes of each of its pages, be they in memory or compressed.
use theos.Base.{
  ◌==◌, if◌then◌else◌, some_injective, ℕ, ◌+◌, ◌*◌, ◌<◌, ◌≤◌, ◌≡◌, ◌≢◌, refl, sym, ap, ◌∙◌, subst,
  arith, List, length, Option, none, some, ok, err,
}
use theos.Base.Maps.{Map, get}
use theos.Zram.Types.{page_size}
use theos.Zram.Device as Zram
use theos.Zram.Device.{Lz4Block, ZramDevice}
use theos.Zram.Device.Valid.{Contains, IsValid, new-IsValid_lem}
use theos.Kernel.Frames.{VmError}
use theos.Kernel.Reclaim.{
  ReclaimPager, ReclaimEntry, EntryState, resident, compressed, Vm, new, reclaim_start,
  reclaim_max_pages,
}

-- What the pager relies on: the pages do not share their bytes, a page that could not be taken out of memory
-- is as it was, and a frame that came from a page can be given back.
pub record IsVm {M : Type 0} (vm : Vm M) : Type 0 where
  pub read_size : (m : M) (p : ℕ) → length (vm.read_page m p) ≡ page_size
  pub write_here :
      (m : M) (p : ℕ) (bytes : List ℕ)
      → length bytes ≡ page_size
      → vm.read_page (vm.write_page m p bytes) p ≡ bytes
  pub write_other :
      (m : M) (p q : ℕ) (bytes : List ℕ)
      → p ≢ q
      → vm.read_page (vm.write_page m p bytes) q ≡ vm.read_page m q
  pub try_other : (m : M) (q : ℕ) → vm.read_page (vm.try_allocate_frame m).1 q ≡ vm.read_page m q
  pub map_other :
      (m : M) (p frame q : ℕ)
      → p ≢ q
      → vm.read_page (vm.map_existing_page m p frame).1 q ≡ vm.read_page m q
  pub unmap_other :
      (m : M) (p q : ℕ) → p ≢ q → vm.read_page (vm.unmap_page m p).1 q ≡ vm.read_page m q
  pub unmap_refused :
      (m : M) (p : ℕ) (e : VmError)
      → (vm.unmap_page m p).0 ≡ err e
      → vm.read_page (vm.unmap_page m p).1 p ≡ vm.read_page m p
  pub free_other : (m : M) (f q : ℕ) → vm.read_page (vm.deallocate_frame m f).1 q ≡ vm.read_page m q
  pub free_ok :
      (m : M) (p f : ℕ)
      → (vm.unmap_page m p).0 ≡ ok f
      → (vm.deallocate_frame (vm.unmap_page m p).1 f).0 ≡ ok tt

-- The bytes of the pages, by where they start.
abbrev pub Contents : Type 0
Contents = ℕ → Option (List ℕ)

abbrev pub with_page : Contents → ℕ → List ℕ → Contents
with_page f p bytes q = if p == q then some bytes else f q

pub with_page_self :
    (f : Contents) (p q : ℕ) (bytes : List ℕ) → p ≡ q → with_page f p bytes q ≡ some bytes
with_page_self f p q bytes same = ground (arith, same)

pub with_page_other :
    (f : Contents) (p q : ℕ) (bytes : List ℕ) → p ≢ q → with_page f p bytes q ≡ f q
with_page_other f p q bytes apart = ground arith

abbrev pub page_at : ℕ → ℕ
page_at n = reclaim_start + n * page_size

-- The books of a pager: every entry has a number of its own in the backend, and the places are given out
-- one after the other.
pub record Book (codec : Lz4Block) (backend : ZramDevice) (entries : Map ReclaimEntry)
    (region next : ℕ) : Type 0 where
  pub valid : IsValid codec backend
  pub max : backend.max_pages ≡ reclaim_max_pages
  pub indices :
      (p q : ℕ) (e e' : ReclaimEntry)
      → get entries p ≡ some e
      → get entries q ≡ some e'
      → p ≢ q
      → e.page_index ≢ e'.page_index
  pub fresh : (p : ℕ) (e : ReclaimEntry) → get entries p ≡ some e → e.page_index < next
  pub below : (p : ℕ) (e : ReclaimEntry) → get entries p ≡ some e → p < page_at region
  pub same_next : next ≡ region
  pub room : region ≤ reclaim_max_pages

module _ {M : Type 0} (vm : Vm M) (codec : Lz4Block) where
  -- A resident page has its bytes in memory, a compressed one in the backend.
  unfoldable pub Shows : ZramDevice → M → ℕ → ReclaimEntry → EntryState → List ℕ → Type 0
  Shows backend m p entry (resident frame) bytes = vm.read_page m p ≡ bytes
  Shows backend m p entry compressed bytes = Contains codec backend entry.page_index bytes

  pub record Page (backend : ZramDevice) (entries : Map ReclaimEntry) (m : M) (p : ℕ)
      (bytes : List ℕ) : Type 0 where
    pub entry : ReclaimEntry
    pub found : get entries p ≡ some entry
    pub full : length bytes ≡ page_size
    pub shows : Shows backend m p entry entry.state bytes

  -- The pager has exactly the pages of `f`, with their bytes.
  pub record Holds (s : ReclaimPager) (m : M) (f : Contents) : Type 0 where
    pub book : Book codec s.backend s.entries s.next_region_page s.next_backend_page
    pub page : (p : ℕ) (bytes : List ℕ) → f p ≡ some bytes → Page s.backend s.entries m p bytes
    pub known :
        (p : ℕ) (e : ReclaimEntry)
        → get s.entries p ≡ some e
        → (bytes : List ℕ) × (f p ≡ some bytes)

  -- A new pager has no pages, whatever is in memory.
  pub new-Holds : (m : M) → Holds new m (λ p. none)
  unfolding new get Zram.new
  new-Holds m = record {
    book = record {
      valid = new-IsValid_lem codec reclaim_max_pages;
      max = refl;
      indices = λ p q e e' at at' apart. cc;
      fresh = λ p e at. cc;
      below = λ p e at. cc;
      same_next = refl;
      room = omega arith;
    };
    page = λ p bytes e. cc;
    known = λ p e at. cc;
  }

  module _ (s : ReclaimPager) (m : M) (f : Contents) (h : Holds s m f) (p : ℕ)
      (entry : ReclaimEntry) (found : get s.entries p ≡ some entry) where
    -- What an entry shows.
    pub shown_bytes :
        (bs : List ℕ) × (f p ≡ some bs)
        × (length bs ≡ page_size)
        × Shows s.backend m p entry entry.state bs
    shown_bytes =
        let (bs, shown) = h.known p entry found in
        let w = h.page p bs shown in
        (
          bs,
          shown,
          w.full,
          subst (λ e. Shows s.backend m p e e.state bs)
              (some_injective w.entry entry (sym w.found ∙ found)) w.shows,
        )

    pub resident_bytes : (frame : ℕ) → entry.state ≡ resident frame → f p ≡ some (vm.read_page m p)
    unfolding Shows
    resident_bytes frame state =
        let (bs, shown, full, w) = shown_bytes in
        let there : vm.read_page m p ≡ bs = subst (λ st. Shows s.backend m p entry st bs) state w in
        shown ∙ ap some (sym there)

    pub compressed_bytes :
        entry.state ≡ compressed
        → (bs : List ℕ) × (f p ≡ some bs)
          × (length bs ≡ page_size)
          × Contains codec s.backend entry.page_index bs
    unfolding Shows
    compressed_bytes state =
        let (bs, shown, full, w) = shown_bytes in
        (bs, shown, full, subst (λ st. Shows s.backend m p entry st bs) state w)

    -- The number of an entry is one of the backend's.
    pub index_bound : entry.page_index < s.backend.max_pages
    index_bound =
        omega (arith, h.book.fresh p entry found, h.book.same_next, h.book.room, h.book.max)

  pub Shows-kept :
      (backend : ZramDevice) (m m' : M) (q : ℕ) (e : ReclaimEntry) (state : EntryState)
      (bytes : List ℕ)
      → vm.read_page m' q ≡ vm.read_page m q
      → Shows backend m q e state bytes
      → Shows backend m' q e state bytes
  unfolding Shows
  Shows-kept backend m m' q e (resident fr) bytes same w = same ∙ w
  Shows-kept backend m m' q e compressed bytes same w = w
