-- ===== src/WimLzx/Trees.antt =====
-- The code lengths of lib/wim_lzx/lib.rs: `read_tree`, `read_block_header` and `read_trees`. The loop of
-- `read_tree` moves on by one length at least, and runs on the number of lengths.
use theos.Base.{
  ℕ, zero, suc, ◌+◌, ◌-◌, ◌*◌, ◌%◌, Bool, true, false, List, [], ◌∷◌, ◌++◌, length, replicate, set,
  take, drop, overwrite, Option, none, some,
}
use theos.Base.{Exec, done, ◌>>=◌, ok, err, ltb, leb, ◌==◌, if◌then◌else◌, index, slice}
use theos.WimLzx.{Decoder, corrupt, Outcome, ◌>>!◌, Huffman, main_code_split, max_block_size}
use theos.WimLzx.Table.{build_table}
use theos.WimLzx.Reader.{get_bits, get_code, ensure_at_least}

-- `build_table(...).ok_or(Error::Corrupt)?`
abbrev pub table_of : Decoder → List ℕ → Outcome Huffman
table_of d codelens = build_table codelens >>= λ made. elim made [
  | none ↦ done (err corrupt, d)
  | some h ↦ done (ok h, d)
]

-- `n` numbers of `bits` bits.
unfoldable pub read_lens : ℕ → ℕ → Decoder → Outcome (List ℕ)
read_lens zero bits d = done (ok [], d)
read_lens (suc n) bits d =
    get_bits d bits >>! λ len d. read_lens n bits d >>! λ lens d. done (ok (len % 256 ∷ lens), d)

-- `lens[i..i + n].fill(v)`, refused when it does not fit.
abbrev pub fill_lens : Decoder → List ℕ → ℕ → ℕ → ℕ → Outcome (List ℕ)
fill_lens d lens i n v =
    if ltb (length lens) (i + n)
    then done (err corrupt, d)
    else done (ok (overwrite lens i (replicate n v)), d)

-- A code of the pretree for the lengths from `i` on: the lengths, and how many of them are done. The
-- length at `i`, which is at most 16, is counted down by the code, modulo 17.
abbrev pub tree_step : Huffman → List ℕ → ℕ → ℕ → Decoder → Outcome (List ℕ × ℕ)
tree_step pretree lens i c d =
    if leb c 16
    then (index lens i >>= λ len. done (ok (set lens i ((len + 17 - c) % 17), 1), d))
    else (if c == 17
        then (get_bits d 4 >>! λ n d.
            fill_lens d lens i (n + 4) 0 >>! λ lens d. done (ok (lens, n + 4), d))
        else (if c == 18
            then (get_bits d 5 >>! λ n d.
                fill_lens d lens i (n + 20) 0 >>! λ lens d. done (ok (lens, n + 20), d))
            else (if c == 19
                then (get_bits d 1 >>! λ n d.
                    if ltb (length lens) (i + (n + 4))
                    then done (err corrupt, d)
                    else (get_code d pretree >>! λ delta d.
                        if ltb 16 (delta % 256)
                        then done (err corrupt, d)
                        else (index lens i >>= λ len.
                            fill_lens d lens i (n + 4) ((len + 17 - delta % 256) % 17) >>! λ lens d.
                            done (ok (lens, n + 4), d))))
                else done (err corrupt, d))))

unfoldable pub tree_loop : ℕ → Huffman → List ℕ → ℕ → Decoder → Outcome (List ℕ)
tree_loop zero pretree lens i d = done (ok lens, d)
tree_loop (suc fuel) pretree lens i d = elim (ltb i (length lens)) [
  | false ↦ done (ok lens, d)
  | true ↦ get_code d pretree >>! λ c d.
      tree_step pretree lens i (c % 256) d >>! λ x d. tree_loop fuel pretree x.0 (i + x.1) d
]

unfoldable pub read_tree : Decoder → List ℕ → Outcome (List ℕ)
read_tree d lens = read_lens 20 4 d >>! λ pretree_len d.
    table_of d pretree_len >>! λ pretree d. tree_loop (length lens) pretree lens 0 d

abbrev pub le_u16_of_u32 : List ℕ → ℕ → Exec ℕ
le_u16_of_u32 bytes off =
    slice bytes off 4 >>= λ word. index word 0 >>= λ b0. index word 1 >>= λ b1. done (b0 + b1 * 256)

abbrev pub verbatim_block : ℕ
verbatim_block = 1

abbrev pub aligned_offset_block : ℕ
aligned_offset_block = 2

abbrev pub uncompressed_block : ℕ
uncompressed_block = 3

-- The pad byte of an uncompressed block of odd size.
abbrev pub skip_pad : Decoder → Outcome (Unit {0})
skip_pad d =
    if d.unaligned
    then (ensure_at_least d 1 >>! λ _ d.
        done (ok tt, record d { byte_offset = d.byte_offset + 1; unaligned = false }))
    else done (ok tt, d)

abbrev pub read_size : Decoder → ℕ → Outcome ℕ
read_size d full =
    if full == 0
    then (get_bits d 16 >>! λ size d.
        if ltb max_block_size size then done (err corrupt, d) else done (ok size, d))
    else done (ok max_block_size, d)

abbrev pub read_offsets : Decoder → Outcome (Unit {0})
read_offsets d = get_bits d (if d.bit_count == 0 then 16 else d.bit_count) >>! λ _ d.
    ensure_at_least d 12 >>! λ _ d. le_u16_of_u32 d.input d.byte_offset >>= λ r0.
    le_u16_of_u32 d.input (d.byte_offset + 4) >>= λ r1.
    le_u16_of_u32 d.input (d.byte_offset + 8) >>= λ r2.
    done (ok tt, record d { lru = r0 ∷ r1 ∷ r2 ∷ []; byte_offset = d.byte_offset + 12 })

abbrev pub check_type : Decoder → ℕ → Outcome (Unit {0})
check_type d block_type =
    if block_type == verbatim_block
    then done (ok tt, d)
    else (if block_type == aligned_offset_block
        then done (ok tt, d)
        else (if block_type == uncompressed_block then read_offsets d else done (err corrupt, d)))

unfoldable pub read_block_header : Decoder → Outcome (ℕ × ℕ)
read_block_header d = skip_pad d >>! λ _ d. get_bits d 3 >>! λ block_type d.
    get_bits d 1 >>! λ full d. read_size d full >>! λ block_size d.
    check_type d block_type >>! λ _ d. done (ok (block_type, block_size), d)

abbrev pub read_aligned_tree : Decoder → Bool → Outcome (Option Huffman)
read_aligned_tree d false = done (ok none, d)
read_aligned_tree d true =
    read_lens 8 3 d >>! λ lens d. table_of d lens >>! λ h d. done (ok (some h), d)

unfoldable pub read_trees : Decoder → Bool → Outcome (Huffman × (Huffman × Option Huffman))
read_trees d read_aligned = read_aligned_tree d read_aligned >>! λ aligned d.
    read_tree d (take main_code_split d.mainlens) >>! λ prefix d.
    let d : Decoder = record d { mainlens = prefix ++ drop main_code_split d.mainlens } in
    read_tree d (drop main_code_split d.mainlens) >>! λ suffix d.
    let d : Decoder = record d { mainlens = take main_code_split d.mainlens ++ suffix } in
    table_of d d.mainlens >>! λ main d. read_tree d d.lenlens >>! λ lens d.
    let d : Decoder = record d { lenlens = lens } in
    table_of d lens >>! λ length_tree d. done (ok (main, (length_tree, aligned)), d)
