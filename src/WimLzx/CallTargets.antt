-- ===== src/WimLzx/CallTargets.antt =====
-- `decode_e8` of lib/wim_lzx/lib.rs: the targets of calls, turned back from absolute to relative. Its
-- only caller passes the offset 0. A number of 32 bits is its two's complement.
use theos.Base.{
  ℕ, zero, suc, ◌+◌, ◌-◌, ◌*◌, ◌/◌, ◌%◌, true, false, ◌||◌, List, [], ◌∷◌, length, overwrite,
}
use theos.Base.{ltb, leb, ◌==◌, if◌then◌else◌}
use theos.WimLzx.Table.{nth}

abbrev pub e8_file_size : ℕ
e8_file_size = 12000000

abbrev pub max_e8_offset : ℕ
max_e8_offset = 0x3fffffff

abbrev pub i32_size : ℕ
i32_size = 4294967296

abbrev pub i32_half : ℕ
i32_half = 2147483648

abbrev pub le_i32 : ℕ → ℕ → ℕ → ℕ → ℕ
le_i32 b0 b1 b2 b3 = b0 + 256 * b1 + 65536 * b2 + 16777216 * b3

abbrev pub to_le_i32 : ℕ → List ℕ
to_le_i32 n = n % 256 ∷ n / 256 % 256 ∷ n / 65536 % 256 ∷ n / 16777216 % 256 ∷ []

-- The target, from a place `here`: not negative and under the file's size, or negative by not more than `here`.
abbrev pub relative : ℕ → ℕ → ℕ
relative here absolute =
    if ltb absolute i32_half
    then (if ltb absolute e8_file_size then (absolute + i32_size - here) % i32_size else absolute)
    else (if leb (i32_size - absolute) here then absolute + e8_file_size - i32_size else absolute)

-- A call's target in the four bytes from `i` on, which stands at `here` in the file.
abbrev pub turn_back : List ℕ → ℕ → ℕ → List ℕ
turn_back buffer i here =
    let absolute =
      le_i32 (nth buffer i) (nth buffer (i + 1)) (nth buffer (i + 2)) (nth buffer (i + 3)) in
    overwrite buffer i (to_le_i32 (relative here absolute))

-- The loop moves on by one byte at least, and runs on the number of bytes.
unfoldable pub decode_loop : ℕ → ℕ → ℕ → List ℕ → List ℕ
decode_loop zero offset i buffer = buffer
decode_loop (suc fuel) offset i buffer = elim (leb (i + 10) (length buffer)) [
  | false ↦ buffer
  | true ↦ elim (nth buffer i == 0xe8) [
    | true ↦ decode_loop fuel offset (i + 5) (turn_back buffer (i + 1) (offset + i))
    | false ↦ decode_loop fuel offset (i + 1) buffer
  ]
]

unfoldable pub decode_e8 : List ℕ → ℕ → List ℕ
decode_e8 buffer offset =
    if ltb max_e8_offset offset || ltb (length buffer) 10
    then buffer
    else decode_loop (length buffer) offset 0 buffer
