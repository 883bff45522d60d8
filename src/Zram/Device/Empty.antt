-- ===== src/Zram/Device/Empty.antt =====
-- An empty page in `ZramDevice`: `ZsPage` takes a slot of length 0 for a free one.
use theos.Base.{ℕ, ◌<◌, ◌≡◌, refl, inl, inr, arith, [], none, some, done, ok, err}
use theos.Base.{lt→not-leb, ◌∙◌}
use theos.Base.Maps.{get, insert, remove, get-insert}
use theos.Zram.Types.{invalid_handle, raw, saturating_inc, ZsHandle}
use theos.Zram.Slots
use theos.Zram.Slots.{ZsAllocator}
use theos.Zram.Slots.Valid
use theos.Zram.Slots.Store.{store_lem}
use theos.Zram.Slots.Load.{load_cases, free_lem}
use theos.Zram.Device.{
  Lz4Block, IsLossless, ZramEntry, ZramDevice, encode, store_page, load_page, invalidate_page,
}
use theos.Zram.Device.Valid.{IsValid}

encode-empty : (codec : Lz4Block) → IsLossless codec → encode codec [] ≡ (raw, [])
unfolding encode
encode-empty codec l = ground (arith, l.not_empty [])

module _ (codec : Lz4Block) (d : ZramDevice) (i : ℕ) (h : ZsHandle) (a' : ZsAllocator) where
  abbrev entry : ZramEntry
  entry = record { handle = h; original_len = 0; stored_len = 0; encoding = raw }

  abbrev after : ZramDevice
  after = record d {
    allocator = a';
    pages = insert d.pages i entry;
    stores = saturating_inc d.stores;
  }

  stored :
      IsLossless codec
      → i < d.max_pages
      → get d.pages i ≡ none
      → Slots.store d.allocator [] ≡ done (ok h, a')
      → store_page codec d i [] ≡ done (ok tt, after)
  unfolding store_page
  stored l range absent run = rw (lt→not-leb d.max_pages i range, encode-empty codec l, run, absent)

  found : get after.pages i ≡ some entry
  found = get-insert d.pages i entry i ∙ ground arith

  loaded :
      Valid.Stored d.allocator a' [] h → load_page codec after i ≡ done (err invalid_handle, after)
  unfolding load_page
  loaded s = elim (load_cases a' h s.valid) [
    | inl (b, live, _) ↦ absurd (s.void refl b live)
    | inr (_, run) ↦ rw (found, run)
  ]

  dropped :
      Valid.Stored d.allocator a' [] h
      → (d'' : ZramDevice) × (invalidate_page after i ≡ done (err invalid_handle, d''))
        × (d''.allocator ≡ a')
  unfolding invalidate_page
  dropped s = elim (free_lem a' h s.valid) [
    | inl (b, _, live, _, _) ↦ absurd (s.void refl b live)
    | inr (_, run) ↦ (
      record after {
        allocator = a';
        pages = remove after.pages i;
        invalidations = saturating_inc d.invalidations;
      },
      rw (found, invalidate_page, run),
      refl,
    )
  ]

-- An empty page under a new number is reported as stored, but a load of it and its removal fail
-- with `invalid_handle`: its slot is never given back.
pub store_page_empty :
    (codec : Lz4Block) (d : ZramDevice) (i : ℕ)
    → IsLossless codec
    → IsValid codec d
    → i < d.max_pages
    → get d.pages i ≡ none
    → (d' : ZramDevice) × (store_page codec d i [] ≡ done (ok tt, d'))
      × (load_page codec d' i ≡ done (err invalid_handle, d'))
      × ((d'' : ZramDevice) × (invalidate_page d' i ≡ done (err invalid_handle, d''))
          × (d''.allocator ≡ d'.allocator))
store_page_empty codec d i l v range absent =
    let (h, a', run, s) = store_lem d.allocator [] v.slots (omega arith) in
    (
      after codec d i h a',
      stored codec d i h a' l range absent run,
      loaded codec d i h a' s,
      dropped codec d i h a' s,
    )
