-- ===== src/Zram/Device/Store.antt =====
-- `ZramDevice::store_page` and `invalidate_page`.
use theos.Base.{ℕ, ◌≤◌, ◌<◌, ◌≡◌, ◌≢◌, refl, sym, ap, subst, ◌∙◌, ◌⊎◌, inl, inr, arith}
use theos.Base.{
  List, Option, none, some, length, done, ok, err, lt→not-leb, le→not-ltb, le→leb, lt→ltb,
  ℕ_discrete,
}
use theos.Base.Maps.{get, insert, get-insert}
use theos.Zram.Types.{page_size, page_index_out_of_range, page_too_large, saturating_inc, ZsHandle}
use theos.Zram.Slots
use theos.Zram.Slots.{ZsAllocator}
use theos.Zram.Slots.Valid
use theos.Zram.Slots.Store.{store_lem}
use theos.Zram.Slots.Load.{free_lem}
use theos.Zram.Device.{
  Lz4Block, IsLossless, ZramEntry, ZramDevice, encode, decode, store_page, free_replaced,
}
use theos.Zram.Device.Valid.{Stands, Contains, IsValid, decode-encode}

-- The allocator after a store and the release of the replaced entry.
record Replaced (a a' : ZsAllocator) (o : Option ZramEntry) (h : ZsHandle) (b : List ℕ)
    : Type 0 where
  valid : Valid.IsValid a'
  stored : Valid.Holds a' h b
  kept :
      (k : ZsHandle) (c : List ℕ)
      → ((old : ZramEntry) → o ≡ some old → old.handle ≢ k)
      → Valid.Holds a k c
      → Valid.Holds a' k c

free_replaced_lem :
    (a a₁ : ZsAllocator) (o : Option ZramEntry) (h : ZsHandle) (b : List ℕ)
    → Valid.Stored a a₁ b h
    → 0 < length b
    → ((old : ZramEntry) → o ≡ some old → (c : List ℕ) × Valid.Holds a old.handle c)
    → (a' : ZsAllocator) × (free_replaced a₁ o ≡ done a') × Replaced a a' o h b
free_replaced_lem a a₁ none h b s pos live = (
  a₁,
  refl,
  record { valid = s.valid; stored = s.stored pos; kept = λ k c apart held. s.kept k c held },
)
free_replaced_lem a a₁ (some old) h b s pos live =
    let (c, held) = live old refl in
    elim (free_lem a₁ old.handle s.valid) [
      | inr (dead, _) ↦ absurd (dead c (s.kept old.handle c held))
      | inl (_, a', _, run, r) ↦ (
        a',
        rw run,
        record {
          valid = r.valid;
          stored =
              r.kept h b (λ e. s.fresh c (subst (λ k. Valid.Holds a k c) e held)) (s.stored pos);
          kept = λ k d apart w. r.kept k d (apart old refl) (s.kept k d w);
        },
      )
    ]

-- `d'` is `d` with `page` under the number `i`.
pub record Updated (codec : Lz4Block) (d d' : ZramDevice) (i : ℕ) (page : List ℕ) : Type 0 where
  pub valid : IsValid codec d'
  pub here : Contains codec d' i page
  pub kept : (j : ℕ) (q : List ℕ) → i ≢ j → Contains codec d j q → Contains codec d' j q
  pub others : (j : ℕ) → i ≢ j → get d'.pages j ≡ get d.pages j
  pub same_max : d'.max_pages ≡ d.max_pages

module _ (codec : Lz4Block) (d : ZramDevice) (v : IsValid codec d) (i : ℕ) (page : List ℕ)
    (a' : ZsAllocator) (e : ZramEntry) (b : List ℕ)
    (r : Replaced d.allocator a' (get d.pages i) e.handle b)
    (fresh : (c : List ℕ) → ¬ Valid.Holds d.allocator e.handle c)
    (decodes : decode codec e.encoding e.original_len b ≡ ok page) where
  abbrev d' : ZramDevice
  d' = record d { allocator = a'; pages = insert d.pages i e; stores = saturating_inc d.stores }

  at_self : get d'.pages i ≡ some e
  at_self = get-insert d.pages i e i ∙ ground arith

  at_other : (j : ℕ) → i ≢ j → get d'.pages j ≡ get d.pages j
  at_other j apart = get-insert d.pages i e j ∙ ground arith

  Stands-self : Stands codec d' e page
  Stands-self = record { payload = b; live = r.stored; decodes = decodes }

  Stands-other :
      (j : ℕ) (f : ZramEntry) (q : List ℕ)
      → i ≢ j
      → get d.pages j ≡ some f
      → Stands codec d f q
      → Stands codec d' f q
  Stands-other j f q apart at s = record {
    payload = s.payload;
    live = r.kept f.handle s.payload (λ old here. v.apart i j old f here at apart) s.live;
    decodes = s.decodes;
  }

  not_new : (j : ℕ) (f : ZramEntry) → get d.pages j ≡ some f → e.handle ≢ f.handle
  not_new j f at same =
      let (q, s) = v.entries j f at in
      fresh s.payload (subst (λ k. Valid.Holds d.allocator k s.payload) (sym same) s.live)

  at_cases :
      (j : ℕ) (f : ZramEntry)
      → get d'.pages j ≡ some f
      → ((i ≡ j) × (f ≡ e)) ⊎ ((i ≢ j) × (get d.pages j ≡ some f))
  at_cases j f at = elim (ℕ_discrete i j) [
    | yes same ↦ inl (same, ground (arith, at_self, at, ap (get d'.pages) same))
    | no apart ↦ inr (apart, sym (at_other j apart) ∙ at)
  ]

  apart_handles :
      (j k : ℕ) (f g : ZramEntry)
      → get d'.pages j ≡ some f
      → get d'.pages k ≡ some g
      → j ≢ k
      → f.handle ≢ g.handle
  apart_handles j k f g at at' distinct same = elim (at_cases j f at) [
    | inl (ij, fe) ↦ elim (at_cases k g at') [
      | inl (ik, _) ↦ distinct (sym ij ∙ ik)
      | inr (_, old) ↦ not_new k g old (ap (λ (x : ZramEntry). x.handle) (sym fe) ∙ same)
    ]
    | inr (_, old) ↦ elim (at_cases k g at') [
      | inl (_, ge) ↦ not_new j f old (ap (λ (x : ZramEntry). x.handle) (sym ge) ∙ sym same)
      | inr (_, old') ↦ v.apart j k f g old old' distinct same
    ]
  ]

  updated : Updated codec d d' i page
  updated = record {
    valid = record {
      slots = r.valid;
      entries = λ j f at. elim (at_cases j f at) [
        | inl (_, same) ↦ (page, subst (λ x. Stands codec d' x page) (sym same) Stands-self)
        | inr (apart, old) ↦ let (q, s) = v.entries j f old in (q, Stands-other j f q apart old s)
      ];
      apart = apart_handles;
    };
    here = record { entry = e; found = at_self; stands = Stands-self };
    kept = λ j q apart c. record {
      entry = c.entry;
      found = at_other j apart ∙ c.found;
      stands = Stands-other j c.entry q apart c.found c.stands;
    };
    others = at_other;
    same_max = refl;
  }

module _ (codec : Lz4Block) (l : IsLossless codec) (d : ZramDevice) (i : ℕ) (page : List ℕ) where
  -- A page that is not empty and not too large is stored under a number in range: no panic, no
  -- error. The device then has it under that number, every other page is as it was, and the
  -- device stays well formed.
  pub store_page_lem :
      IsValid codec d
      → i < d.max_pages
      → 0 < length page
      → length page ≤ page_size
      → (d' : ZramDevice) × (store_page codec d i page ≡ done (ok tt, d'))
        × Updated codec d d' i page
  store_page_lem v range pos small =
      let (decodes, fits, payload_pos) = decode-encode codec page l small in
      let b = (encode codec page).1 in
      let (h, a₁, run, s) = store_lem d.allocator b v.slots fits in
      let (a', run', r) =
        free_replaced_lem d.allocator a₁ (get d.pages i) h b s (payload_pos pos)
          (λ old here. let (q, w) = v.entries i old here in (w.payload, w.live)) in
      let e : ZramEntry = record {
        handle = h;
        original_len = length page;
        stored_len = length b;
        encoding = (encode codec page).0;
      } in
      (_, returns a₁ a' h range small run run', updated codec d v i page a' e b r s.fresh decodes)
    where
      returns :
          (a₁ a' : ZsAllocator) (h : ZsHandle)
          → i < d.max_pages
          → length page ≤ page_size
          → Slots.store d.allocator (encode codec page).1 ≡ done (ok h, a₁)
          → free_replaced a₁ (get d.pages i) ≡ done a'
          → store_page codec d i page
            ≡ done (
              ok tt,
              record d {
                allocator = a';
                pages = insert d.pages i (record {
                  handle = h;
                  original_len = length page;
                  stored_len = length (encode codec page).1;
                  encoding = (encode codec page).0;
                });
                stores = saturating_inc d.stores;
              },
            )
      returns a₁ a' h range small run run' =
          unfold store_page in
          rw (lt→not-leb d.max_pages i range, le→not-ltb page_size (length page) small, run, run')

  -- A number out of range and a page that is too large are refused in this order, and nothing
  -- changes.
  pub store_page_refuses :
      ((d.max_pages ≤ i) → store_page codec d i page ≡ done (err page_index_out_of_range, d))
      × ((i < d.max_pages)
          → (page_size < length page)
          → store_page codec d i page ≡ done (err page_too_large, d))
  unfolding store_page
  store_page_refuses = (
    (λ h. rw (le→leb d.max_pages i h)),
    (λ h k. rw (lt→not-leb d.max_pages i h, lt→ltb page_size (length page) k)),
  )
