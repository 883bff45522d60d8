-- ===== src/Kernel/Reclaim/Changed.antt =====
-- What a step of the pager may do: one page changes its entry, its bytes or both, and the others are left
-- alone.
use theos.Base.{
  ℕ, ◌<◌, ◌≤◌, ◌≡◌, ◌≢◌, ◌⊎◌, inl, inr, sym, ap, ◌∙◌, subst, subst₂, some_injective, ℕ_discrete,
  arith, List, length, some,
}
use theos.Base.Maps.{get}
use theos.Zram.Types.{page_size}
use theos.Zram.Device.{Lz4Block}
use theos.Zram.Device.Valid.{Contains, IsValid}
use theos.Kernel.Reclaim.{
  ReclaimPager, ReclaimEntry, EntryState, resident, compressed, Vm, reclaim_max_pages,
}
use theos.Kernel.Reclaim.Valid.{
  Contents, with_page, with_page_self, with_page_other, page_at, Book, Shows, Page, Holds,
}

module _ {M : Type 0} (vm : Vm M) (codec : Lz4Block) where
  -- The page `p` has the entry and the bytes; the number of the entry is its own.
  pub record Changed (s s' : ReclaimPager) (m m' : M) (p : ℕ) (entry : ReclaimEntry)
      (bytes : List ℕ) : Type 0 where
    pub valid : IsValid codec s'.backend
    pub max : s'.backend.max_pages ≡ reclaim_max_pages
    pub here : get s'.entries p ≡ some entry
    pub there : (q : ℕ) → p ≢ q → get s'.entries q ≡ get s.entries q
    pub full : length bytes ≡ page_size
    pub shows : Shows vm codec s'.backend m' p entry entry.state bytes
    pub reads : (q : ℕ) → p ≢ q → vm.read_page m' q ≡ vm.read_page m q
    pub keeps :
        (i : ℕ) (bs : List ℕ)
        → entry.page_index ≢ i
        → Contains codec s.backend i bs
        → Contains codec s'.backend i bs
    pub own :
        (q : ℕ) (e : ReclaimEntry)
        → p ≢ q
        → get s.entries q ≡ some e
        → entry.page_index ≢ e.page_index
    pub index : entry.page_index < s'.next_backend_page
    pub place : p < page_at s'.next_region_page
    pub backend_grows : s.next_backend_page ≤ s'.next_backend_page
    pub region_grows : s.next_region_page ≤ s'.next_region_page
    pub same_next : s'.next_backend_page ≡ s'.next_region_page
    pub room : s'.next_region_page ≤ reclaim_max_pages

  Shows-other :
      (s s' : ReclaimPager) (m m' : M) (p q : ℕ) (entry e : ReclaimEntry) (state : EntryState)
      (bytes bs : List ℕ)
      → Changed s s' m m' p entry bytes
      → p ≢ q
      → entry.page_index ≢ e.page_index
      → Shows vm codec s.backend m q e state bs
      → Shows vm codec s'.backend m' q e state bs
  unfolding Shows
  Shows-other s s' m m' p q entry e (resident frame) bytes bs v apart other w = v.reads q apart ∙ w
  Shows-other s s' m m' p q entry e compressed bytes bs v apart other w =
      v.keeps e.page_index bs other w

  module _ (s s' : ReclaimPager) (m m' : M) (f : Contents) (p : ℕ) (entry : ReclaimEntry)
      (bytes : List ℕ) (h : Holds vm codec s m f) (v : Changed s s' m m' p entry bytes) where
    -- An entry afterwards is the changed one or one of before.
    entry_cases :
        (q : ℕ) (e : ReclaimEntry)
        → get s'.entries q ≡ some e
        → ((p ≡ q) × (e.page_index ≡ entry.page_index)) ⊎ ((p ≢ q) × (get s.entries q ≡ some e))
    entry_cases q e at = elim (ℕ_discrete p q) [
      | yes same ↦
          let it =
            some_injective entry e
              (sym v.here ∙ subst (λ x. get s'.entries x ≡ some e) (sym same) at) in
          inl (same, ap (λ x. x.page_index) (sym it))
      | no apart ↦ inr (apart, sym (v.there q apart) ∙ at)
    ]

    Moved-Book : Book codec s'.backend s'.entries s'.next_region_page s'.next_backend_page
    Moved-Book = record {
      valid = v.valid;
      max = v.max;
      indices = λ a b e e' at at' apart clash. elim (entry_cases a e at) [
        | inl (same, index) ↦ elim (entry_cases b e' at') [
          | inl (same', index') ↦ apart (sym same ∙ same')
          | inr (apart', old') ↦ v.own b e' apart' old' (sym index ∙ clash)
        ]
        | inr (apart', old) ↦ elim (entry_cases b e' at') [
          | inl (same', index') ↦ v.own a e apart' old (sym (clash ∙ index'))
          | inr (apart'', old') ↦ h.book.indices a b e e' old old' apart clash
        ]
      ];
      fresh = λ q e at. elim (entry_cases q e at) [
        | inl (same, index) ↦ omega (arith, index, v.index)
        | inr (apart, old) ↦ omega (arith, v.backend_grows, h.book.fresh q e old)
      ];
      below = λ q e at. elim (entry_cases q e at) [
        | inl (same, index) ↦ omega (arith, same, v.place)
        | inr (apart, old) ↦ omega (arith, v.region_grows, h.book.below q e old)
      ];
      same_next = v.same_next;
      room = v.room;
    }

    page_after :
        (q : ℕ) (bs : List ℕ)
        → with_page f p bytes q ≡ some bs
        → Page vm codec s'.backend s'.entries m' q bs
    page_after q bs e = elim (ℕ_discrete p q) [
      | yes same ↦
          subst₂ (Page vm codec s'.backend s'.entries m') same
            (some_injective bytes bs (sym (with_page_self f p q bytes same) ∙ e))
            (record { entry = entry; found = v.here; full = v.full; shows = v.shows })
      | no apart ↦
          let w = h.page q bs (sym (with_page_other f p q bytes apart) ∙ e) in
          record {
            entry = w.entry;
            found = v.there q apart ∙ w.found;
            full = w.full;
            shows =
                Shows-other s s' m m' p q entry w.entry w.entry.state bytes bs v apart
                  (v.own q w.entry apart w.found) w.shows;
          }
    ]

    -- The page has the bytes, and the others have theirs.
    pub Changed-Holds : Holds vm codec s' m' (with_page f p bytes)
    Changed-Holds = record {
      book = Moved-Book;
      page = page_after;
      known = λ q e at. elim (entry_cases q e at) [
        | inl (same, index) ↦ (bytes, with_page_self f p q bytes same)
        | inr (apart, old) ↦
            let (bs, shown) = h.known q e old in (bs, with_page_other f p q bytes apart ∙ shown)
      ];
    }

    -- The bytes may be those that the page has had.
    pub Changed-Holds_same : f p ≡ some bytes → Holds vm codec s' m' f
    Changed-Holds_same shown = record {
      book = Moved-Book;
      page = λ q bs e. page_after q bs (with_page_same q ∙ e);
      known =
          λ q e at. let (bs, e') = Changed-Holds.known q e at in (bs, sym (with_page_same q) ∙ e');
    }
      where
        with_page_same : (q : ℕ) → with_page f p bytes q ≡ f q
        with_page_same q = elim (ℕ_discrete p q) [
          | yes same ↦ with_page_self f p q bytes same ∙ sym shown ∙ ap f same
          | no apart ↦ with_page_other f p q bytes apart
        ]

  -- An entry that keeps its number, and the bytes of its page.
  pub record Moved (s s' : ReclaimPager) (m m' : M) (p : ℕ) (entry entry' : ReclaimEntry)
      (bytes : List ℕ) : Type 0 where
    pub valid : IsValid codec s'.backend
    pub max : s'.backend.max_pages ≡ reclaim_max_pages
    pub here : get s'.entries p ≡ some entry'
    pub there : (q : ℕ) → p ≢ q → get s'.entries q ≡ get s.entries q
    pub same_index : entry'.page_index ≡ entry.page_index
    pub shows : Shows vm codec s'.backend m' p entry' entry'.state bytes
    pub reads : (q : ℕ) → p ≢ q → vm.read_page m' q ≡ vm.read_page m q
    pub keeps :
        (i : ℕ) (bs : List ℕ)
        → entry.page_index ≢ i
        → Contains codec s.backend i bs
        → Contains codec s'.backend i bs
    pub same_region : s'.next_region_page ≡ s.next_region_page
    pub same_backend : s'.next_backend_page ≡ s.next_backend_page

  module _ (s s' : ReclaimPager) (m m' : M) (f : Contents) (p : ℕ) (entry entry' : ReclaimEntry)
      (bytes : List ℕ) (h : Holds vm codec s m f) (found : get s.entries p ≡ some entry)
      (v : Moved s s' m m' p entry entry' bytes) (full : length bytes ≡ page_size) where
    Moved-Changed : Changed s s' m m' p entry' bytes
    Moved-Changed = record {
      valid = v.valid;
      max = v.max;
      here = v.here;
      there = v.there;
      full = full;
      shows = v.shows;
      reads = v.reads;
      keeps = λ i bs apart. v.keeps i bs (λ clash. apart (v.same_index ∙ clash));
      own = λ q e apart at clash.
          h.book.indices p q entry e found at apart (sym v.same_index ∙ clash);
      index = omega (arith, v.same_index, v.same_backend, h.book.fresh p entry found);
      place = omega (arith, v.same_region, h.book.below p entry found);
      backend_grows = omega (arith, v.same_backend);
      region_grows = omega (arith, v.same_region);
      same_next = omega (arith, v.same_backend, v.same_region, h.book.same_next);
      room = omega (arith, v.same_region, h.book.room);
    }

    -- The pages' bytes are those of before.
    pub Moved-Holds : f p ≡ some bytes → Holds vm codec s' m' f
    Moved-Holds shown = Changed-Holds_same s s' m m' f p entry' bytes h Moved-Changed shown

    -- The page has new bytes.
    pub Moved-Holds_new : Holds vm codec s' m' (with_page f p bytes)
    Moved-Holds_new = Changed-Holds s s' m m' f p entry' bytes h Moved-Changed
