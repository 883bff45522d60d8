-- ===== src/WimLzx/Table.antt =====
-- `build_table` of lib/wim_lzx/lib.rs. The arrays of 17 numbers are indexed by code lengths, which are
-- at most 16.
use theos.Base.{
  ℕ, zero, suc, ◌+◌, ◌-◌, ◌*◌, ◌/◌, ◌%◌, ◌^◌, max, true, false, List, [], ◌∷◌, replicate, set,
  Option, none, some,
}
use theos.Base.{Exec, done, ◌>>=◌, ltb, leb, ◌==◌, if◌then◌else◌, write, index, assign}
use theos.WimLzx.{Huffman, table_bits, table_size, max_tree_path_len}

-- `xs[i]`, for an index inside the array.
abbrev pub nth : List ℕ → ℕ → ℕ
nth [] i = 0
nth (x ∷ xs) zero = x
nth (x ∷ xs) (suc i) = nth xs i

-- The code lengths counted, and the greatest of them; none for one that is too great.
unfoldable pub count_lens : List ℕ → List ℕ → ℕ → Option (List ℕ × ℕ)
count_lens [] count longest = some (count, longest)
count_lens (cl ∷ codelens) count longest =
    let rest = count_lens codelens (set count cl (nth count cl + 1)) (max longest cl) in
    if ltb max_tree_path_len cl then none else rest

-- The loop over the lengths from `i` on: the first code of each, and the code behind the last.
unfoldable pub first_codes : ℕ → ℕ → ℕ → List ℕ → List ℕ → ℕ × List ℕ
first_codes zero i code count first = (code, first)
first_codes (suc n) i code count first =
    first_codes n (i + 1) (2 * code + nth count i) count (set first i (2 * code))

-- `core..512` of the table points into the tables behind it.
unfoldable pub point_extra : ℕ → ℕ → List ℕ → List ℕ
point_extra zero core table = table
point_extra (suc n) core table = set (point_extra n core table) (core + n) n

abbrev pub empty_table : ℕ → Huffman
empty_table longest = record { extra = []; maxbits = longest; table = replicate table_size 0 }

-- The table before the codes are put in.
unfoldable pub prepare : ℕ → List ℕ → Huffman
prepare longest first =
    if ltb table_bits longest
    then (let core = nth first (table_bits + 1) / 2 in
        let nextra = table_size - core in
        record {
          extra = replicate nextra (replicate (2 ^ (longest - table_bits)) 0);
          maxbits = longest;
          table = point_extra nextra core (replicate table_size 0);
        })
    else empty_table longest

-- `cl << LEN_SHIFT | i`, for a symbol under 512.
abbrev pub code_value : ℕ → ℕ → ℕ
code_value cl i = cl * 512 + i

-- A code in all the places that start with it.
unfoldable pub put_code : Huffman → ℕ → ℕ → ℕ → Exec Huffman
put_code h cl code value =
    if leb cl table_bits
    then (write h.table (code * 2 ^ (table_bits - cl)) (replicate (2 ^ (table_bits - cl)) value)
        >>= λ table. done (record h { table = table }))
    else (index h.table (code / 2 ^ (cl - table_bits)) >>= λ extra_index.
        index h.extra extra_index >>= λ row.
        let suffix = code % 2 ^ (cl - table_bits) in
        write row (suffix * 2 ^ (h.maxbits - cl)) (replicate (2 ^ (h.maxbits - cl)) value)
        >>= λ row. assign h.extra extra_index row >>= λ extra. done (record h { extra = extra }))

unfoldable pub put_codes : List ℕ → ℕ → List ℕ → Huffman → Exec Huffman
put_codes [] i first h = done h
put_codes (cl ∷ codelens) i first h = elim (cl == 0) [
  | true ↦ put_codes codelens (i + 1) first h
  | false ↦ put_code h cl (nth first cl) (code_value cl i) >>= λ h.
      put_codes codelens (i + 1) (set first cl (nth first cl + 1)) h
]

abbrev pub no_lengths : List ℕ
no_lengths = replicate 17 0

unfoldable pub build_table : List ℕ → Exec (Option Huffman)
build_table codelens = elim (count_lens codelens no_lengths 0) [
  | none ↦ done none
  | some (count, longest) ↦
      if longest == 0
      then done (some (empty_table 0))
      else (let (code, first) = first_codes longest 1 0 count no_lengths in
          if code == 2 ^ longest
          then (put_codes codelens 0 first (prepare longest first) >>= λ h. done (some h))
          else done none)
]
