-- ===== src/Zram/Device/Valid.antt =====
-- What a `ZramDevice` contains, and loads.
use theos.Base.{ℕ, ◌≤◌, ◌<◌, ◌≡◌, ◌≢◌, ap, ◌∙◌, inl, inr, arith}
use theos.Base.{List, none, some, length, done, ok, err, Result}
use theos.Base.Maps.{get}
use theos.Zram.Types.{page_size, missing_page, ZramError, saturating_inc}
use theos.Zram.Slots.Valid
use theos.Zram.Slots.Load.{load_cases}
use theos.Zram.Device.{Lz4Block, IsLossless, ZramEntry, ZramDevice, new, encode, decode, load_page}

-- The entry's handle is live, and its payload decodes to `page`.
pub record Stands (codec : Lz4Block) (d : ZramDevice) (e : ZramEntry) (page : List ℕ) : Type 0 where
  pub payload : List ℕ
  pub live : Valid.Holds d.allocator e.handle payload
  pub decodes : decode codec e.encoding e.original_len payload ≡ ok page

-- The device has `page` under the number `i`.
pub record Contains (codec : Lz4Block) (d : ZramDevice) (i : ℕ) (page : List ℕ) : Type 0 where
  pub entry : ZramEntry
  pub found : get d.pages i ≡ some entry
  pub stands : Stands codec d entry page

-- The allocator is well formed, every entry stands for a page, and no two entries share a handle.
pub record IsValid (codec : Lz4Block) (d : ZramDevice) : Type 0 where
  pub slots : Valid.IsValid d.allocator
  pub entries :
      (i : ℕ) (e : ZramEntry) → get d.pages i ≡ some e → (page : List ℕ) × Stands codec d e page
  pub apart :
      (i j : ℕ) (e f : ZramEntry)
      → get d.pages i ≡ some e
      → get d.pages j ≡ some f
      → i ≢ j
      → e.handle ≢ f.handle

pub new-IsValid_lem : (codec : Lz4Block) (n : ℕ) → IsValid codec (new n)
unfolding new get
new-IsValid_lem codec n = record {
  slots = Valid.new-IsValid_lem;
  entries = λ i e none_there. cc;
  apart = λ i j e f none_there other distinct. cc;
}

-- What is stored for a page fits a slot and decodes to the page; it is empty only for an empty page.
pub decode-encode :
    (codec : Lz4Block) (page : List ℕ)
    → IsLossless codec
    → length page ≤ page_size
    → (decode codec (encode codec page).0 (length page) (encode codec page).1 ≡ ok page)
      × (length (encode codec page).1 ≤ page_size)
      × (0 < length page → 0 < length (encode codec page).1)
unfolding decode encode
decode-encode codec page l small = ground (arith, l.not_empty page, l.restores page small)

module _ (codec : Lz4Block) (d : ZramDevice) (v : IsValid codec d) where
  -- Loading a page that the device has returns it and counts the load.
  pub load-Contains :
      (i : ℕ) (page : List ℕ)
      → Contains codec d i page
      → load_page codec d i ≡ done (ok page, record d { loads = saturating_inc d.loads })
  unfolding load_page
  load-Contains i page c = elim (load_cases d.allocator c.entry.handle v.slots) [
    | inr (dead, _) ↦ absurd (dead c.stands.payload c.stands.live)
    | inl (b, live, run) ↦
        rw (c.found, run)
          (ap
            (λ (r : Result ZramError (List ℕ)).
              done (r, record d { loads = saturating_inc d.loads }))
            (ap (decode codec c.entry.encoding c.entry.original_len) (
                Valid.Holds_unique d.allocator c.entry.handle b c.stands.payload live c.stands.live)
              ∙ c.stands.decodes))
  ]

  -- Loading a page that it does not have is refused, and changes nothing.
  pub load-missing :
      (i : ℕ) → get d.pages i ≡ none → load_page codec d i ≡ done (err missing_page, d)
  unfolding load_page
  load-missing i e = rw e

-- The count of loads says nothing of the pages.
module _ (codec : Lz4Block) (d : ZramDevice) (n : ℕ) where
  pub loads-Contains :
      (i : ℕ) (page : List ℕ)
      → Contains codec d i page
      → Contains codec (record d { loads = n }) i page
  loads-Contains i page c = record {
    entry = c.entry;
    found = c.found;
    stands = record {
      payload = c.stands.payload;
      live = c.stands.live;
      decodes = c.stands.decodes;
    };
  }

  pub loads-IsValid : IsValid codec d → IsValid codec (record d { loads = n })
  loads-IsValid v = record {
    slots = v.slots;
    entries = λ i e at.
        let (p, s) = v.entries i e at in
        (p, record { payload = s.payload; live = s.live; decodes = s.decodes });
    apart = v.apart;
  }
