-- ===== src/WimLzx/BlockSpending.antt =====
-- What reading a block takes of the input, lib/wim_lzx/lib.rs: four bits at least.
use theos.Base.{
  ℕ, zero, suc, ◌+◌, ◌-◌, ◌/◌, ◌≤◌, arith, length, Option, none, some, ltb, leb, ◌==◌, assign,
  slice, write,
}
use theos.WimLzx.{Decoder, Huffman}
use theos.WimLzx.Blocks.{
  read_matchlen, offset_bits_of, read_offset, copy_match, write_match, read_symbol, symbol_loop,
  read_compressed_block, read_payload, enter_block, read_block, footer_bits,
}
use theos.WimLzx.Spending.{
  budget, Spent, spent, failed, if-Spent, elim-Spent, then-Spent, and-Spent, get_code-Spent,
}
use theos.WimLzx.Table.{nth}
use theos.WimLzx.Trees.{uncompressed_block}
use theos.WimLzx.TreeSpending.{bits_kept, read_trees-Spent, read_block_header-Spent}

module _ (k m : ℕ) where
  read_matchlen-Spent :
      (d : Decoder) (t : Huffman) (main : ℕ) → budget d + k ≤ m → Spent k m (read_matchlen d t main)
  read_matchlen-Spent d t main h =
      search (spent, failed, if-Spent, then-Spent k k m, get_code-Spent k m) depth 20 fits 4000

  offset_bits_of-Spent :
      (d : Decoder) (aligned : Option Huffman) (n : ℕ)
      → budget d + k ≤ m
      → Spent k m (offset_bits_of d aligned n)
  offset_bits_of-Spent d none n h =
      search (spent, failed, if-Spent, then-Spent k k m, get_code-Spent k m, bits_kept k m) depth 20
        fits 4000
  offset_bits_of-Spent d (some t) n h =
      search (spent, failed, if-Spent, then-Spent k k m, get_code-Spent k m, bits_kept k m) depth 20
        fits 4000

  read_offset-Spent :
      (d : Decoder) (aligned : Option Huffman) (slot : ℕ)
      → budget d + k ≤ m
      → Spent k m (read_offset d aligned slot)
  unfolding budget
  read_offset-Spent d aligned slot h = if-Spent (ltb slot 3) (spent _ _ h) (
      then-Spent k k m _ _ (offset_bits_of-Spent d aligned (nth footer_bits slot) h)
        λ bits d h. spent _ _ h)

  write_match-Spent :
      (d : Decoder) (i end_at matchlen matchoffset : ℕ)
      → budget d + k ≤ m
      → Spent k m (write_match d i end_at matchlen matchoffset)
  unfolding budget
  write_match-Spent d i end_at matchlen matchoffset h =
      if-Spent _ (failed _ _)
        (and-Spent (copy_match matchlen i matchoffset d.window) λ window. spent _ _ h)

  read_symbol-Spent :
      (hmain hlength : Huffman) (haligned : Option Huffman) (i end_at : ℕ) (d : Decoder)
      → budget d + k ≤ m
      → Spent k m (read_symbol hmain hlength haligned i end_at d)
  unfolding budget
  read_symbol-Spent hmain hlength haligned i end_at d h =
      then-Spent k k m _ _ (get_code-Spent k m d hmain h) λ main d h.
        if-Spent (ltb main 256) (and-Spent (assign d.window i main) λ window. spent _ _ h) (
          if-Spent (leb (length footer_bits) ((main - 256) / 8)) (failed _ _) (
            then-Spent k k m _ _ (read_matchlen-Spent d hlength main h) λ matchlen d h.
              then-Spent k k m _ _ (read_offset-Spent d haligned ((main - 256) / 8) h)
                λ matchoffset d h. write_match-Spent d i end_at matchlen matchoffset h))

  symbol_loop-Spent :
      (fuel : ℕ) (hmain hlength : Huffman) (haligned : Option Huffman) (i end_at : ℕ) (d : Decoder)
      → budget d + k ≤ m
      → Spent k m (symbol_loop fuel hmain hlength haligned i end_at d)
  unfolding symbol_loop
  symbol_loop-Spent zero hmain hlength haligned i end_at d h = spent _ _ h
  symbol_loop-Spent (suc fuel) hmain hlength haligned i end_at d h =
      elim-Spent (ltb i end_at)
        (then-Spent k k m _ _ (read_symbol-Spent hmain hlength haligned i end_at d h)
          λ n d h. symbol_loop-Spent fuel hmain hlength haligned (i + n) end_at d h)
        (spent _ _ h)

  read_payload-Spent :
      (d : Decoder) (start size : ℕ) → budget d + k ≤ m → Spent k m (read_payload d start size)
  unfolding budget
  read_payload-Spent d start size h = if-Spent _ (failed _ _) (
      and-Spent (slice d.input d.byte_offset size)
        λ bytes. and-Spent (write d.window start bytes) λ window. spent _ _ (omega (arith, h)))

pub read_block-Spent :
    (k m : ℕ) (d : Decoder) (start : ℕ) → budget d + k ≤ m → Spent (k + 4) m (read_block d start)
unfolding read_block read_compressed_block budget
read_block-Spent k m d start h =
    let j = k + 4 in
    then-Spent j j m _ _ (read_block_header-Spent k m d h) λ header d h.
      if-Spent (header.0 == uncompressed_block)
        (read_payload-Spent j m (enter_block d start header.0 header.1) start header.1 h)
        (then-Spent j j m _ _ (read_trees-Spent j m (enter_block d start header.0 header.1) _ h)
          λ trees d h.
            then-Spent j j m _ _
              (symbol_loop-Spent j m _ trees.0 trees.1.0 trees.1.1 start (start + header.1) d h)
              λ i d h. spent _ _ h)
