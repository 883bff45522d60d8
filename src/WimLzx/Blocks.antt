-- ===== src/WimLzx/Blocks.antt =====
-- The blocks of lib/wim_lzx/lib.rs: `read_compressed_block`, `read_block` and `decompress`. The loop over a block's bytes
-- moves on with each code, and runs on the block's size; the loop over the blocks runs on fuel.
use theos.Base.{
  ℕ, zero, suc, ◌+◌, ◌-◌, ◌*◌, ◌/◌, ◌%◌, true, false, ◌||◌, List, [], ◌∷◌, length, set, Option,
  none, some,
}
use theos.Base.{
  Exec, done, panic, ◌>>=◌, Result, ok, err, ltb, leb, ◌==◌, if◌then◌else◌, index, assign, slice,
  write,
}
use theos.WimLzx.{
  Decoder, new, Error, corrupt, chunk_too_large, in_payload, eof, Outcome, ◌>>!◌, Huffman,
  window_size,
}
use theos.WimLzx.Table.{nth}
use theos.WimLzx.Reader.{get_bits, get_code, available, u16_size}
use theos.WimLzx.Trees.{read_block_header, read_trees, uncompressed_block, aligned_offset_block}
use theos.WimLzx.CallTargets.{decode_e8}

abbrev pub footer_bits : List ℕ
footer_bits =
    0 ∷ 0 ∷ 0 ∷ 0 ∷ 1 ∷ 1 ∷ 2 ∷ 2 ∷ 3 ∷ 3 ∷ 4 ∷ 4 ∷ 5 ∷ 5 ∷ 6 ∷ 6 ∷ 7 ∷ 7 ∷ 8 ∷ 8 ∷ 9 ∷ 9 ∷ 10 ∷ 10
    ∷ 11 ∷ 11 ∷ 12 ∷ 12 ∷ 13 ∷ 13 ∷ 14 ∷ []

abbrev pub base_position : List ℕ
base_position =
    0 ∷ 1 ∷ 2 ∷ 3 ∷ 4 ∷ 6 ∷ 8 ∷ 12 ∷ 16 ∷ 24 ∷ 32 ∷ 48 ∷ 64 ∷ 96 ∷ 128 ∷ 192 ∷ 256 ∷ 384 ∷ 512 ∷ 768
    ∷ 1024 ∷ 1536 ∷ 2048 ∷ 3072 ∷ 4096 ∷ 6144 ∷ 8192 ∷ 12288 ∷ 16384 ∷ 24576 ∷ 32768 ∷ []

-- A match's length is two more than its code says, which a code of the length tree can raise.
abbrev pub read_matchlen : Decoder → Huffman → ℕ → Outcome ℕ
read_matchlen d hlength main =
    let short = (main - 256) % 8 in
    if short == 7
    then (get_code d hlength >>! λ more d. done (ok (short + more + 2), d))
    else done (ok (short + 2), d)

-- The verbatim and the aligned bits of an offset. The product by 8 is u16.
abbrev pub offset_bits_of : Decoder → Option Huffman → ℕ → Outcome (ℕ × ℕ)
offset_bits_of d haligned offset_bits =
    if offset_bits == 0 then done (ok (0, 0), d) else (elim haligned [
      | none ↦ get_bits d offset_bits >>! λ verbatim d. done (ok (verbatim, 0), d)
      | some aligned ↦
          if leb 3 offset_bits
          then (get_bits d (offset_bits - 3) >>! λ verbatim d.
              get_code d aligned >>! λ low d. done (ok (verbatim * 8, low), d))
          else (get_bits d offset_bits >>! λ verbatim d. done (ok (verbatim, 0), d))
    ])

-- The offset from the recent ones, or from its slot's bits; the recent offsets with it in front.
abbrev pub read_offset : Decoder → Option Huffman → ℕ → Outcome ℕ
read_offset d haligned slot =
    if ltb slot 3
    then (let offset = nth d.lru slot in
        done (ok offset, record d { lru = set (set d.lru slot (nth d.lru 0)) 0 offset }))
    else (offset_bits_of d haligned (nth footer_bits slot) >>! λ bits d.
        let offset = (nth base_position slot + bits.0 + bits.1 + u16_size - 2) % u16_size in
        done (ok offset, record d { lru = offset ∷ nth d.lru 0 ∷ nth d.lru 1 ∷ [] }))

-- The copy, byte by byte, so that it may run into what it writes.
unfoldable pub copy_match : ℕ → ℕ → ℕ → List ℕ → Exec (List ℕ)
copy_match zero i matchoffset window = done window
copy_match (suc n) i matchoffset window = index window (i - matchoffset) >>= λ b.
    assign window i b >>= λ window. copy_match n (i + 1) matchoffset window

abbrev pub write_match : Decoder → ℕ → ℕ → ℕ → ℕ → Outcome ℕ
write_match d i end_at matchlen matchoffset =
    if (matchoffset == 0 || ltb i matchoffset) || ltb end_at (i + matchlen)
    then done (err corrupt, d)
    else (copy_match matchlen i matchoffset d.window >>= λ window.
        done (ok matchlen, record d { window = window }))

-- One code of the main tree: how many bytes it stands for.
abbrev pub read_symbol : Huffman → Huffman → Option Huffman → ℕ → ℕ → Decoder → Outcome ℕ
read_symbol hmain hlength haligned i end_at d = get_code d hmain >>! λ main d.
    if ltb main 256
    then (assign d.window i main >>= λ window. done (ok 1, record d { window = window }))
    else (let slot = (main - 256) / 8 in
        if leb (length footer_bits) slot
        then done (err corrupt, d)
        else (read_matchlen d hlength main >>! λ matchlen d.
            read_offset d haligned slot >>! λ matchoffset d.
            write_match d i end_at matchlen matchoffset))

unfoldable pub symbol_loop : ℕ → Huffman → Huffman → Option Huffman → ℕ → ℕ → Decoder → Outcome ℕ
symbol_loop zero hmain hlength haligned i end_at d = done (ok i, d)
symbol_loop (suc fuel) hmain hlength haligned i end_at d = elim (ltb i end_at) [
  | false ↦ done (ok i, d)
  | true ↦ read_symbol hmain hlength haligned i end_at d >>! λ n d.
      symbol_loop fuel hmain hlength haligned (i + n) end_at d
]

unfoldable pub read_compressed_block :
    Decoder → ℕ → ℕ → Huffman → Huffman → Option Huffman → Outcome ℕ
read_compressed_block d start end_at hmain hlength haligned =
    symbol_loop (end_at - start) hmain hlength haligned start end_at d >>! λ i d.
    done (ok (i - start), d)

abbrev pub read_payload : Decoder → ℕ → ℕ → Outcome ℕ
read_payload d start size =
    let d : Decoder = record d { unaligned = if size % 2 == 1 then true else d.unaligned } in
    if ltb (available d) size
    then done (err (eof in_payload d), d)
    else (slice d.input d.byte_offset size >>= λ bytes. write d.window start bytes >>= λ window.
        done (ok size, record d { window = window; byte_offset = d.byte_offset + size }))

abbrev pub enter_block : Decoder → ℕ → ℕ → ℕ → Decoder
enter_block d start block_type size = record d {
  current_block_start = start;
  current_block_type = block_type;
  current_block_size = size;
}

unfoldable pub read_block : Decoder → ℕ → Outcome ℕ
read_block d start = read_block_header d >>! λ header d.
    let d = enter_block d start header.0 header.1 in
    if header.0 == uncompressed_block
    then read_payload d start header.1
    else (read_trees d (header.0 == aligned_offset_block) >>! λ trees d.
        read_compressed_block d start (start + header.1) trees.0 trees.1.0 trees.1.1)

-- What comes after a block: the rest, as a function of what is written by then.
abbrev pub after_block :
    Outcome ℕ
    → (ℕ → Decoder → Option (Exec (Result Error Decoder)))
    → Option (Exec (Result Error Decoder))
after_block panic rest = some panic
after_block (done (err e, d)) rest = some (done (err e))
after_block (done (ok n, d)) rest = rest n d

-- `none` when the fuel is used up.
unfoldable pub block_loop : ℕ → ℕ → ℕ → Decoder → Option (Exec (Result Error Decoder))
block_loop zero size written d = none
block_loop (suc fuel) size written d = elim (ltb written size) [
  | false ↦ some (done (ok d))
  | true ↦ after_block (read_block d written) (λ n d. block_loop fuel size (written + n) d)
]

-- A block takes four bits of the input at least.
abbrev pub block_fuel : List ℕ → ℕ
block_fuel chunk = 8 * length chunk + 1

abbrev pub finish : ℕ → Exec (Result Error Decoder) → Exec (Result Error (List ℕ))
finish size panic = panic
finish size (done (err e)) = done (err e)
finish size (done (ok d)) = slice d.window 0 size >>= λ output. done (ok (decode_e8 output 0))

abbrev pub finish_loop :
    ℕ → Option (Exec (Result Error Decoder)) → Option (Exec (Result Error (List ℕ)))
finish_loop size none = none
finish_loop size (some end_state) = some (finish size end_state)

unfoldable pub decompress : List ℕ → ℕ → Option (Exec (Result Error (List ℕ)))
decompress chunk size =
    if ltb window_size size
    then some (done (err (chunk_too_large size)))
    else finish_loop size (block_loop (block_fuel chunk) size 0 (new chunk))
