-- ===== src/Zram/Device.antt =====
-- kernel/zram.rs, `ZramDevice`: pages by number, each compressed or raw in the slot allocator.
-- `lz4_flex::block` is not in this repository: its two functions are the record `Lz4Block`.
-- A page is its list of bytes.
pub mod Valid
pub mod Store
pub mod Invalidate
pub mod Refine
pub mod Empty
use theos.Base.{
  ℕ, ◌+◌, ◌<◌, ◌≤◌, ◌≡◌, List, [], ◌∷◌, Option, none, some, Bool, true, false, ◌&&◌, Exec, done,
  panic, ◌>>=◌,
}
use theos.Base.{Result, ok, err, try, ok_or, length, ltb, leb, if◌then◌else◌}
use theos.Base.Maps.{Map, get, insert, remove}
use theos.Zram.Types.{
  page_size, ZramError, page_index_out_of_range, page_too_large, missing_page, decompression_failed,
  ZramEncoding, raw, lz4, ZsHandle, ZsStats, saturating_inc,
}
use theos.Zram.Slots
use theos.Zram.Slots.{ZsAllocator}

-- `compress(page)` and `decompress(payload, original_len).ok()`.
pub record Lz4Block : Type 0 where
  pub compress : List ℕ → List ℕ
  pub decompress : List ℕ → ℕ → Option (List ℕ)

-- What the LZ4 block format promises: a block is not empty, and decompressing it with the
-- original length gives the original bytes.
pub record IsLossless (codec : Lz4Block) : Type 0 where
  pub not_empty : (page : List ℕ) → 0 < length (codec.compress page)
  pub restores :
      (page : List ℕ)
      → length page ≤ page_size
      → codec.decompress (codec.compress page) (length page) ≡ some page

pub record ZramEntry : Type 0 where
  pub handle : ZsHandle
  pub original_len : ℕ
  pub stored_len : ℕ
  pub encoding : ZramEncoding

pub record ZramDevice : Type 0 where
  pub max_pages : ℕ
  pub allocator : ZsAllocator
  pub pages : Map ZramEntry
  pub stores : ℕ
  pub loads : ℕ
  pub invalidations : ℕ

pub record ZramStats : Type 0 where
  pub stores : ℕ
  pub loads : ℕ
  pub invalidations : ℕ
  pub compressed_pages : ℕ
  pub raw_pages : ℕ
  pub logical_bytes : ℕ
  pub stored_bytes : ℕ
  pub allocator : ZsStats

unfoldable pub new : ℕ → ZramDevice
new max_pages = record {
  max_pages = max_pages;
  allocator = Slots.new;
  pages = [];
  stores = 0;
  loads = 0;
  invalidations = 0;
}

module _ (codec : Lz4Block) where
  -- The choice of the encoding, and what is stored.
  unfoldable pub encode : List ℕ → ZramEncoding × List ℕ
  encode page =
      let compressed = codec.compress page in
      if ltb (length compressed) (length page) && leb (length compressed) page_size
      then (lz4, compressed)
      else (raw, page)

  unfoldable pub decode : ZramEncoding → ℕ → List ℕ → Result ZramError (List ℕ)
  decode raw original_len payload = ok payload
  decode lz4 original_len payload =
      ok_or (codec.decompress payload original_len) decompression_failed

-- `let _ = self.allocator.free(old_entry.handle)` for a replaced entry.
abbrev pub free_replaced : ZsAllocator → Option ZramEntry → Exec ZsAllocator
free_replaced a none = done a
free_replaced a (some old) = Slots.free a old.handle >>= λ r. done r.1

module _ (codec : Lz4Block) where
  unfoldable pub store_page :
      ZramDevice → ℕ → List ℕ → Exec (Result ZramError (Unit {0}) × ZramDevice)
  store_page d i page =
      if leb d.max_pages i
      then done (err page_index_out_of_range, d)
      else (if ltb page_size (length page)
          then done (err page_too_large, d)
          else (let (encoding, payload) = encode codec page in
              Slots.store d.allocator payload >>= λ r.
              try r.0 (record d { allocator = r.1 })
                (λ handle. free_replaced r.1 (get d.pages i) >>= λ a. done (
                  ok tt,
                  record d {
                    allocator = a;
                    pages = insert d.pages i (record {
                      handle = handle;
                      original_len = length page;
                      stored_len = length payload;
                      encoding = encoding;
                    });
                    stores = saturating_inc d.stores;
                  },
                ))))

  unfoldable pub load_page : ZramDevice → ℕ → Exec (Result ZramError (List ℕ) × ZramDevice)
  load_page d i = try (ok_or (get d.pages i) missing_page) d λ entry.
      Slots.load d.allocator entry.handle >>= λ r. try r d (λ payload. done (
        decode codec entry.encoding entry.original_len payload,
        record d { loads = saturating_inc d.loads },
      ))

unfoldable pub invalidate_page : ZramDevice → ℕ → Exec (Result ZramError (Unit {0}) × ZramDevice)
invalidate_page d i = elim (get d.pages i) [
  | none ↦ done (ok tt, d)
  | some entry ↦ Slots.free d.allocator entry.handle >>= λ r. done (
    r.0,
    record d {
      allocator = r.1;
      pages = remove d.pages i;
      invalidations = saturating_inc d.invalidations;
    },
  )
]

count_entry : ZramStats → ZramEntry → ZramStats
count_entry s e =
    let t = record s {
      logical_bytes = s.logical_bytes + e.original_len;
      stored_bytes = s.stored_bytes + e.stored_len;
    } in
    elim e.encoding [
      | raw ↦ record t { raw_pages = t.raw_pages + 1 }
      | lz4 ↦ record t { compressed_pages = t.compressed_pages + 1 }
    ]

count_entries : ZramStats → Map ZramEntry → ZramStats
count_entries s [] = s
count_entries s ((i, e) ∷ m) = count_entries (count_entry s e) m

unfoldable pub stats : ZramDevice → ZramStats
unfolding count_entry count_entries
stats d =
    count_entries
      (record {
        stores = d.stores;
        loads = d.loads;
        invalidations = d.invalidations;
        compressed_pages = 0;
        raw_pages = 0;
        logical_bytes = 0;
        stored_bytes = 0;
        allocator = Slots.stats d.allocator;
      })
      d.pages
