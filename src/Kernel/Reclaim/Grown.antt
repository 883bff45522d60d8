-- ===== src/Kernel/Reclaim/Grown.antt =====
-- `allocate_region` of kernel/reclaim.rs: the new pages are zeros, and the others are as they were.
use theos.Base.{
  ℕ, zero, suc, ◌+◌, ◌*◌, ◌≤◌, ◌<◌, ◌≡◌, ◌≢◌, inl, inr, refl, sym, ap, subst, none_not_some,
  some_injective, Option-cases, ◌∙◌, arith, List, some, none, replicate, length-replicate, Result,
  ok, err, attempt, map_err, result_cases, ℕ_discrete, lt→ltb, le→not-ltb, dec_lt,
}
use theos.Base.Maps.{get, get-insert_self, get-insert_other}
use theos.Zram.Types.{page_size}
use theos.Zram.Device.{Lz4Block}
use theos.Kernel.Frames.{containing_address}
use theos.Kernel.Reclaim.{
  ReclaimPager, ReclaimEntry, ReclaimError, Stop, map_stop, allocate_and_map_page, vm_error,
  resident, Vm, add_page, zero_page, allocate_pages, allocate_region, reclaim_max_pages,
}
use theos.Kernel.Reclaim.Mapped.{allocate_and_map_page-other}
use theos.Kernel.Reclaim.Changed.{Changed, Changed-Holds}
use theos.Kernel.Reclaim.Valid.{
  IsVm, Contents, with_page, with_page_self, with_page_other, Shows, Shows-kept, Holds, page_at,
}

abbrev pub zeros : List ℕ
zeros = replicate page_size 0

-- The pages of `f` are in `g` with the same bytes.
abbrev pub Extends : Contents → Contents → Type 0
Extends f g = (p : ℕ) (bytes : List ℕ) → f p ≡ some bytes → g p ≡ some bytes

module _ {M : Type 0} (vm : Vm M) (codec : Lz4Block) where
  -- A run of the allocation: what it answers, and the pages afterwards.
  pub record Grows {A : Type 0} (f : Contents) (run : A × (ReclaimPager × M)) : Type 0 where
    pub contents : Contents
    pub holds : Holds vm codec run.1.0 run.1.1 contents
    pub extends : Extends f contents
    pub zeroed : (p : ℕ) (bytes : List ℕ) → f p ≡ none → contents p ≡ some bytes → bytes ≡ zeros

module _ {M : Type 0} (vm : Vm M) (good : IsVm vm) (codec : Lz4Block) (s : ReclaimPager) (m : M)
    (f : Contents) (h : Holds vm codec s m f) where
  -- The next place has no page.
  next_free : (p : ℕ) (e : ReclaimEntry) → get s.entries p ≡ some e → page_at s.next_region_page ≢ p
  next_free p e at same = omega (arith, h.book.below p e at, same)

  -- A page that could not be mapped has no bytes to lose.
  denied-Holds : Holds vm codec s (allocate_and_map_page vm m (page_at s.next_region_page)).1 f
  denied-Holds = record {
    book = h.book;
    page = λ q bytes e.
        let w = h.page q bytes e in
        record {
          entry = w.entry;
          found = w.found;
          full = w.full;
          shows =
              Shows-kept vm codec s.backend m _ q w.entry w.entry.state bytes
                (allocate_and_map_page-other vm good m _ q (next_free q w.entry w.found)) w.shows;
        };
    known = h.known;
  }

  module _ (room : s.next_region_page < reclaim_max_pages) (frame : ℕ) where
    abbrev p : ℕ
    p = page_at s.next_region_page

    abbrev s1 : ReclaimPager
    s1 = add_page s p frame

    abbrev m1 : M
    m1 = zero_page vm (allocate_and_map_page vm m p).1 p

    abbrev new_entry : ReclaimEntry
    new_entry = record { page_index = s.next_backend_page; state = resident frame }

    add_page-Changed : Changed vm codec s s1 m m1 p new_entry zeros
    unfolding Shows
    add_page-Changed = record {
      valid = h.book.valid;
      max = h.book.max;
      here = get-insert_self s.entries p new_entry;
      there = λ q apart. get-insert_other s.entries p new_entry q apart;
      full = length-replicate {A = ℕ} page_size 0;
      shows = good.write_here _ p zeros (length-replicate {A = ℕ} page_size 0);
      reads = λ q apart.
          good.write_other _ p q zeros apart ∙ allocate_and_map_page-other vm good m p q apart;
      keeps = λ i bs apart c. c;
      own = λ q e apart at clash. omega (arith, h.book.fresh q e at, clash);
      index = omega arith;
      place = omega arith;
      backend_grows = omega arith;
      region_grows = omega arith;
      same_next = omega (arith, h.book.same_next);
      room = omega (arith, room);
    }

    add_page-Holds : Holds vm codec s1 m1 (with_page f p zeros)
    add_page-Holds = Changed-Holds vm codec s s1 m m1 f p new_entry zeros h add_page-Changed

    f_next : f p ≡ none
    f_next = elim (Option-cases (f p)) [
      | inl e ↦ e
      | inr (bytes, e) ↦ let w = h.page p bytes e in absurd (next_free p w.entry w.found refl)
    ]

    -- The pages of before are in place, and the new one is zeros.
    add_page-Grows :
        {A : Type 0} (run : A × (ReclaimPager × M))
        → Grows vm codec (with_page f p zeros) run
        → Grows vm codec f run
    add_page-Grows run g = record {
      contents = g.contents;
      holds = g.holds;
      extends = λ q bytes e. g.extends q bytes (elim (ℕ_discrete p q) [
        | yes same ↦ absurd (clash q bytes same e)
        | no apart ↦ with_page_other f p q zeros apart ∙ e
      ]);
      zeroed = λ q bytes absent e. elim (ℕ_discrete p q) [
        | yes same ↦
            some_injective bytes zeros (sym e ∙ g.extends q zeros (with_page_self f p q zeros same))
        | no apart ↦ g.zeroed q bytes (with_page_other f p q zeros apart ∙ absent) e
      ];
    }
      where
        clash : (q : ℕ) (bytes : List ℕ) → p ≡ q → f q ≡ some bytes → ⊥
        clash q bytes same e = none_not_some (f q) bytes (ap f (sym same) ∙ f_next) e

  -- A loop that has stopped before a page is mapped.
  still-Grows :
      {A : Type 0} (m' : M) (r : A) → Holds vm codec s m' f → Grows vm codec f (r, (s, m'))
  still-Grows m' r h' = record {
    contents = f;
    holds = h';
    extends = λ q bytes e. e;
    zeroed = λ q bytes absent e. absurd (none_not_some (f q) bytes absent e);
  }

-- The loop of the allocation, from the next place on.
allocate_pages-Grows :
    {M : Type 0} (vm : Vm M) (codec : Lz4Block) (n page_offset base : ℕ) (s : ReclaimPager) (m : M)
    (f : Contents)
    → IsVm vm
    → Holds vm codec s m f
    → base + page_offset * page_size ≡ page_at s.next_region_page
    → s.next_region_page + n ≤ reclaim_max_pages
    → Grows vm codec f (allocate_pages vm n page_offset base s m)
unfolding allocate_pages
allocate_pages-Grows vm codec zero page_offset base s m f good h place room =
    still-Grows vm good codec s m f h m (ok tt) h
allocate_pages-Grows {M} vm codec (suc n) page_offset base s m f good h place room =
    let aligned : containing_address (base + page_offset * page_size) ≡ page_at s.next_region_page =
      omega (arith, place) in
    subst
      (λ (p : ℕ). Grows vm codec f (
        attempt (map_err (map_stop vm_error) (allocate_and_map_page vm m p).0)
          (s, (allocate_and_map_page vm m p).1)
          (λ frame.
            allocate_pages vm n (page_offset + 1) base (add_page s p frame)
              (zero_page vm (allocate_and_map_page vm m p).1 p))))
      (sym aligned)
      (elim (result_cases (allocate_and_map_page vm m (page_at s.next_region_page)).0) [
        | inr (e, denied) ↦
            rw denied (still-Grows vm good codec s m f h _ _ (denied-Holds vm good codec s m f h))
        | inl (frame, given) ↦
            let small : s.next_region_page < reclaim_max_pages = omega (arith, room) in
            rw given (
              add_page-Grows vm good codec s m f h small frame _ (
                allocate_pages-Grows vm codec n (page_offset + 1) base _ _ _ good
                  (add_page-Holds vm good codec s m f h small frame) (omega (arith, place))
                  (omega (arith, room))))
      ])

-- The allocation of a region, whatever it answers: every page has the bytes it had, and a page that was not
-- there before is zeros. A region that does not fit the pager's places is refused, and nothing changes.
pub allocate_region-Grows :
    {M : Type 0} (vm : Vm M) (codec : Lz4Block) (s : ReclaimPager) (m : M) (f : Contents)
    (page_count : ℕ)
    → IsVm vm
    → Holds vm codec s m f
    → Grows vm codec f (allocate_region vm s m page_count)
unfolding allocate_region
allocate_region-Grows {M} vm codec s m f page_count good h =
    elim (dec_lt reclaim_max_pages (s.next_region_page + page_count)) [
      | yes past ↦
          rw (lt→ltb reclaim_max_pages (s.next_region_page + page_count) past)
            (still-Grows vm good codec s m f h m _ h)
      | no fits ↦
          let base = page_at s.next_region_page in
          let g =
            allocate_pages-Grows vm codec page_count 0 base s m f good h (omega arith)
              (omega (arith, fits)) in
          rw (le→not-ltb reclaim_max_pages (s.next_region_page + page_count) (omega (arith, fits)))
            (replied (allocate_pages vm page_count 0 base s m) base g)
    ]
  where
    replied :
        (r : Result (Stop ReclaimError) (Unit {0}) × (ReclaimPager × M)) (base : ℕ)
        → Grows vm codec f r
        → Grows vm codec f (attempt r.0 r.1 (λ _. (ok base, r.1)))
    replied (ok _, sm) base g = record {
      contents = g.contents;
      holds = g.holds;
      extends = g.extends;
      zeroed = g.zeroed;
    }
    replied (err e, sm) base g = record {
      contents = g.contents;
      holds = g.holds;
      extends = g.extends;
      zeroed = g.zeroed;
    }
