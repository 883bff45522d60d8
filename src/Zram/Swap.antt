-- ===== src/Zram/Swap.antt =====
-- kernel/zram.rs, `ZswapCache`: a `ZramDevice` by swap slot that counts hits and misses.
use theos.Base.{ℕ, ◌≡◌, inl, inr, arith, List, none, some, Exec, done, ◌>>=◌}
use theos.Base.{Result, ok, err, Option-cases, ok_or}
use theos.Zram.Types.{ZramError, missing_page, saturating_inc}
use theos.Zram.Device
use theos.Zram.Device.{Lz4Block, ZramDevice, ZramStats}
use theos.Zram.Device.Refine.{Store, Models}
use theos.Zram.Device.Valid.{load-Contains, load-missing}

pub record ZswapCache : Type 0 where
  pub backend : ZramDevice
  pub hits : ℕ
  pub misses : ℕ

pub record ZswapStats : Type 0 where
  pub hits : ℕ
  pub misses : ℕ
  pub backend : ZramStats

unfoldable pub new : ℕ → ZswapCache
new max_slots = record { backend = Device.new max_slots; hits = 0; misses = 0 }

module _ (codec : Lz4Block) where
  unfoldable pub store : ZswapCache → ℕ → List ℕ → Exec (Result ZramError (Unit {0}) × ZswapCache)
  store c slot page =
      Device.store_page codec c.backend slot page >>= λ r. done (r.0, record c { backend = r.1 })

  -- `load` behind the backend's answer.
  abbrev pub count_load :
      ZswapCache → Result ZramError (List ℕ) → Result ZramError (List ℕ) × ZswapCache
  count_load c (ok page) = (ok page, record c { hits = saturating_inc c.hits })
  count_load c (err e) = (err e, record c { misses = saturating_inc c.misses })

  unfoldable pub load : ZswapCache → ℕ → Exec (Result ZramError (List ℕ) × ZswapCache)
  load c slot = Device.load_page codec c.backend slot >>= λ r.
      done (count_load (record c { backend = r.1 }) r.0)

unfoldable pub invalidate : ZswapCache → ℕ → Exec (Result ZramError (Unit {0}) × ZswapCache)
invalidate c slot =
    Device.invalidate_page c.backend slot >>= λ r. done (r.0, record c { backend = r.1 })

unfoldable pub stats : ZswapCache → ZswapStats
stats c = record { hits = c.hits; misses = c.misses; backend = Device.stats c.backend }

-- A load over a device that models a store: a page in the store is returned and counted as a hit
-- (up to the counter's limit), any other slot is a miss; exactly one of the counters is touched.
pub load-Models :
    (codec : Lz4Block) (c : ZswapCache) (max : ℕ) (f : Store) (slot : ℕ)
    → Models codec c.backend max f
    → (b : ZramDevice) × (load codec c slot
        ≡ done (
          ok_or (f slot) missing_page,
          record {
            backend = b;
            hits = elim (f slot) [ none ↦ c.hits | some _ ↦ saturating_inc c.hits ];
            misses = elim (f slot) [ none ↦ saturating_inc c.misses | some _ ↦ c.misses ];
          },
        ))
unfolding load
load-Models codec c max f slot m = elim (Option-cases (f slot)) [
  | inl e ↦
      (c.backend, rw (load-missing codec c.backend m.valid slot (m.lacks slot e)) (ground arith))
  | inr (p, e) ↦ (
    record c.backend { loads = saturating_inc c.backend.loads },
    rw (load-Contains codec c.backend m.valid slot p (m.has slot p e)) (ground arith),
  )
]
