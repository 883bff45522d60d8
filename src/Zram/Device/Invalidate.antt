-- ===== src/Zram/Device/Invalidate.antt =====
-- `ZramDevice::invalidate_page`.
use theos.Base.{ℕ, ◌≡◌, ◌≢◌, refl, sym, ap, ◌∙◌, inl, inr, arith, List, none, some, done, ok}
use theos.Base.{Option-cases, ◌⊎◌, ℕ_discrete}
use theos.Base.Maps.{get, remove, get-remove}
use theos.Zram.Types.{saturating_inc}
use theos.Zram.Slots.{ZsAllocator}
use theos.Zram.Slots.Load.{free_lem, Released}
use theos.Zram.Device.{Lz4Block, ZramEntry, ZramDevice, invalidate_page}
use theos.Zram.Device.Valid.{Stands, Contains, IsValid}

-- `d'` is `d` without a page under the number `i`.
pub record Dropped (codec : Lz4Block) (d d' : ZramDevice) (i : ℕ) : Type 0 where
  pub valid : IsValid codec d'
  pub gone : get d'.pages i ≡ none
  pub kept : (j : ℕ) (q : List ℕ) → i ≢ j → Contains codec d j q → Contains codec d' j q
  pub others : (j : ℕ) → i ≢ j → get d'.pages j ≡ get d.pages j
  pub same_max : d'.max_pages ≡ d.max_pages

module _ (codec : Lz4Block) (d : ZramDevice) (v : IsValid codec d) (i : ℕ) (a' : ZsAllocator)
    (e : ZramEntry) (found : get d.pages i ≡ some e) (r : Released d.allocator a' e.handle) where
  abbrev d' : ZramDevice
  d' = record d {
    allocator = a';
    pages = remove d.pages i;
    invalidations = saturating_inc d.invalidations;
  }

  at_self : get d'.pages i ≡ none
  at_self = get-remove d.pages i i ∙ ground arith

  at_other : (j : ℕ) → i ≢ j → get d'.pages j ≡ get d.pages j
  at_other j apart = get-remove d.pages i j ∙ ground arith

  at_cases : (j : ℕ) (f : ZramEntry) → get d'.pages j ≡ some f → (i ≢ j) × (get d.pages j ≡ some f)
  at_cases j f at = elim (ℕ_discrete i j) [
    | yes same ↦ absurd (ground (arith, at_self, at, ap (get d'.pages) same))
    | no apart ↦ (apart, sym (at_other j apart) ∙ at)
  ]

  Stands-other :
      (j : ℕ) (f : ZramEntry) (q : List ℕ)
      → i ≢ j
      → get d.pages j ≡ some f
      → Stands codec d f q
      → Stands codec d' f q
  Stands-other j f q apart at s = record {
    payload = s.payload;
    live = r.kept f.handle s.payload (v.apart i j e f found at apart) s.live;
    decodes = s.decodes;
  }

  dropped : Dropped codec d d' i
  dropped = record {
    valid = record {
      slots = r.valid;
      entries = λ j f at.
          let (apart, old) = at_cases j f at in
          let (q, s) = v.entries j f old in (q, Stands-other j f q apart old s);
      apart = λ j k f g at at' distinct.
          v.apart j k f g (at_cases j f at).1 (at_cases k g at').1 distinct;
    };
    gone = at_self;
    kept = λ j q apart c. record {
      entry = c.entry;
      found = at_other j apart ∙ c.found;
      stands = Stands-other j c.entry q apart c.found c.stands;
    };
    others = at_other;
    same_max = refl;
  }

-- Invalidating never panics or fails on a well-formed device: the page is gone, every other page
-- is as it was, and the device stays well formed. Without such a page nothing changes.
pub invalidate_page_lem :
    (codec : Lz4Block) (d : ZramDevice) (i : ℕ)
    → IsValid codec d
    → ((get d.pages i ≡ none) × (invalidate_page d i ≡ done (ok tt, d)))
      ⊎ ((d' : ZramDevice) × (invalidate_page d i ≡ done (ok tt, d')) × Dropped codec d d' i)
unfolding invalidate_page
invalidate_page_lem codec d i v = elim (Option-cases (get d.pages i)) [
  | inl e ↦ inl (e, rw (e, invalidate_page))
  | inr (entry, e) ↦
      let (q, s) = v.entries i entry e in
      elim (free_lem d.allocator entry.handle v.slots) [
        | inr (dead, _) ↦ absurd (dead s.payload s.live)
        | inl (_, a', _, run, r) ↦
            inr (_, rw (e, invalidate_page, run), dropped codec d v i a' entry e r)
      ]
]
