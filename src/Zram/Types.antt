-- ===== src/Zram/Types.antt =====
-- kernel/zram.rs: constants, size classes and the data types that the parts share.
use theos.Base.{ℕ, List, [], ◌∷◌, Option, none, some, ltb, leb, ◌==◌, if◌then◌else◌}
use theos.Base.{◌+◌, ◌^◌, ◌%◌, ◌-◌}

abbrev pub page_size : ℕ
page_size = 4096

abbrev pub size_classes : List ℕ
size_classes =
    64 ∷ 96 ∷ 128 ∷ 160 ∷ 192 ∷ 256 ∷ 320 ∷ 512 ∷ 768 ∷ 1024 ∷ 1536 ∷ 2048 ∷ 3072 ∷ 4096 ∷ []

pub record ZsHandle : Type 0 where
  pub class_index : ℕ
  pub page_index : ℕ
  pub slot_index : ℕ
  pub generation : ℕ

pub data ZramEncoding : Type 0 where
  raw lz4 : ZramEncoding

pub data ZramError : Type 0 where
  page_index_out_of_range page_too_large object_too_large invalid_handle : ZramError
  missing_page decompression_failed : ZramError

pub record ZsStats : Type 0 where
  pub zspages : ℕ
  pub used_slots : ℕ
  pub capacity_bytes : ℕ
  pub stored_bytes : ℕ

-- `iter().position(|class| *class >= size)`
abbrev pub position_ge : ℕ → List ℕ → Option ℕ
position_ge size [] = none
position_ge size (c ∷ cs) =
    if leb size c
    then some 0
    else (elim (position_ge size cs) [ none ↦ none | some i ↦ some (i + 1) ])

unfoldable pub size_class_index : ℕ → Option ℕ
size_class_index size = position_ge size size_classes

unfoldable pub pages_per_zspage : ℕ → ℕ
pages_per_zspage slot_size = if leb slot_size 512 then 1 else (if leb slot_size 2048 then 2 else 4)

unfoldable pub nonzero_generation : ℕ → ℕ
nonzero_generation generation = if generation == 0 then 1 else generation

-- `nonzero_generation(g.wrapping_add(1))`, on 32 bits.
unfoldable pub next_generation : ℕ → ℕ
unfolding nonzero_generation
next_generation g = nonzero_generation ((g + 1) % 2 ^ 32)

-- `n.saturating_add(1)` on 64 bits.
abbrev pub saturating_inc : ℕ → ℕ
saturating_inc n = if ltb n (2 ^ 64 - 1) then n + 1 else n
