-- ===== src/WimLzx/TreeSpending.antt =====
-- What the headers and the trees of a block take of the input, lib/wim_lzx/lib.rs.
use theos.Base.{
  ℕ, zero, suc, ◌+◌, ◌%◌, ◌≤◌, arith, Bool, true, false, List, length, Option, none, some, done, ok,
  err, ltb,
}
use theos.WimLzx.{Decoder, corrupt, Outcome, Huffman}
use theos.WimLzx.Table.{build_table}
use theos.WimLzx.Reader.{get_bits, ensure_at_least}
use theos.WimLzx.Trees.{
  table_of, read_lens, fill_lens, tree_step, tree_loop, read_tree, skip_pad, read_size,
  read_offsets, check_type, le_u16_of_u32, read_block_header, read_aligned_tree, read_trees,
}
use theos.WimLzx.Spending.{
  budget, Spent, spent, failed, if-Spent, elim-Spent, then-Spent, and-Spent, weaken, get_bits-Spent,
  get_code-Spent,
}

module _ (k m : ℕ) where
  pub ensure_at_least-Spent :
      (d : Decoder) (bytes : ℕ) → budget d + k ≤ m → Spent k m (ensure_at_least d bytes)
  unfolding ensure_at_least
  ensure_at_least-Spent d bytes h = if-Spent _ (failed _ _) (spent _ _ h)

  pub bits_kept : (d : Decoder) (n : ℕ) → budget d + k ≤ m → Spent k m (get_bits d n)
  bits_kept d n h = weaken (omega arith) (get_bits-Spent k m n d h)

  pub table_of-Spent :
      (d : Decoder) (lens : List ℕ) → budget d + k ≤ m → Spent k m (table_of d lens)
  table_of-Spent d lens h = and-Spent (build_table lens) made
    where
      made :
          (o : Option Huffman)
          → Spent k m (elim o as (λ _. Outcome Huffman) [
            | none ↦ done (err corrupt, d)
            | some t ↦ done (ok t, d)
          ])
      made none = failed _ _
      made (some t) = spent _ _ h

  pub read_lens-Spent :
      (n bits : ℕ) (d : Decoder) → budget d + k ≤ m → Spent k m (read_lens n bits d)
  unfolding read_lens
  read_lens-Spent zero bits d h = spent _ _ h
  read_lens-Spent (suc n) bits d h =
      then-Spent k k m _ _ (bits_kept d bits h)
        λ len d h. then-Spent k k m _ _ (read_lens-Spent n bits d h) λ lens d h. spent _ _ h

  pub fill_lens-Spent :
      (d : Decoder) (lens : List ℕ) (i n v : ℕ)
      → budget d + k ≤ m
      → Spent k m (fill_lens d lens i n v)
  fill_lens-Spent d lens i n v h = if-Spent _ (failed _ _) (spent _ _ h)

  pub tree_step-Spent :
      (t : Huffman) (lens : List ℕ) (i c : ℕ) (d : Decoder)
      → budget d + k ≤ m
      → Spent k m (tree_step t lens i c d)
  tree_step-Spent t lens i c d h =
      search
        (
          spent,
          failed,
          if-Spent,
          then-Spent k k m,
          and-Spent,
          bits_kept,
          get_code-Spent k m,
          fill_lens-Spent,
        )
        depth 40 fits 8000

  pub tree_loop-Spent :
      (fuel : ℕ) (t : Huffman) (lens : List ℕ) (i : ℕ) (d : Decoder)
      → budget d + k ≤ m
      → Spent k m (tree_loop fuel t lens i d)
  unfolding tree_loop
  tree_loop-Spent zero t lens i d h = spent _ _ h
  tree_loop-Spent (suc fuel) t lens i d h =
      elim-Spent (ltb i (length lens))
        (then-Spent k k m _ _ (get_code-Spent k m d t h) λ c d h.
          then-Spent k k m _ _ (tree_step-Spent t lens i (c % 256) d h)
            λ x d h. tree_loop-Spent fuel t x.0 (i + x.1) d h)
        (spent _ _ h)

  pub read_tree-Spent :
      (d : Decoder) (lens : List ℕ) → budget d + k ≤ m → Spent k m (read_tree d lens)
  unfolding read_tree
  read_tree-Spent d lens h = then-Spent k k m _ _ (read_lens-Spent 20 4 d h) λ pretree_len d h.
      then-Spent k k m _ _ (table_of-Spent d pretree_len h)
        λ t d h. tree_loop-Spent (length lens) t lens 0 d h

  pub skip_pad-Spent : (d : Decoder) → budget d + k ≤ m → Spent k m (skip_pad d)
  unfolding budget
  skip_pad-Spent d h =
      if-Spent d.unaligned
        (then-Spent k k m _ _ (ensure_at_least-Spent d 1 h) λ a d h. spent _ _ (omega (arith, h)))
        (spent _ _ h)

  pub read_size-Spent : (d : Decoder) (full : ℕ) → budget d + k ≤ m → Spent k m (read_size d full)
  read_size-Spent d full h =
      search (spent, failed, if-Spent, then-Spent k k m, bits_kept) depth 20 fits 4000

  pub read_offsets-Spent : (d : Decoder) → budget d + k ≤ m → Spent k m (read_offsets d)
  unfolding budget
  read_offsets-Spent d h = then-Spent k k m _ _ (bits_kept d _ h) λ _ d h.
      then-Spent k k m _ _ (ensure_at_least-Spent d 12 h) λ _ d h.
        and-Spent (le_u16_of_u32 d.input d.byte_offset) λ r0.
          and-Spent (le_u16_of_u32 d.input (d.byte_offset + 4)) λ r1.
            and-Spent (le_u16_of_u32 d.input (d.byte_offset + 8)) λ r2. spent _ _ (omega (arith, h))

  pub check_type-Spent :
      (d : Decoder) (block_type : ℕ) → budget d + k ≤ m → Spent k m (check_type d block_type)
  check_type-Spent d block_type h =
      search (spent, failed, if-Spent, read_offsets-Spent) depth 20 fits 4000

  pub read_aligned_tree-Spent :
      (d : Decoder) (b : Bool) → budget d + k ≤ m → Spent k m (read_aligned_tree d b)
  read_aligned_tree-Spent d false h = spent _ _ h
  read_aligned_tree-Spent d true h =
      then-Spent k k m _ _ (read_lens-Spent 8 3 d h)
        λ lens d h. then-Spent k k m _ _ (table_of-Spent d lens h) λ t d h. spent _ _ h

  pub read_trees-Spent : (d : Decoder) (b : Bool) → budget d + k ≤ m → Spent k m (read_trees d b)
  unfolding read_trees budget
  read_trees-Spent d b h = then-Spent k k m _ _ (read_aligned_tree-Spent d b h) λ aligned d h.
      then-Spent k k m _ _ (read_tree-Spent d _ h) λ prefix d h.
        then-Spent k k m _ _ (read_tree-Spent _ _ h) λ suffix d h.
          then-Spent k k m _ _ (table_of-Spent _ _ h) λ main d h.
            then-Spent k k m _ _ (read_tree-Spent d _ h)
              λ lens d h. then-Spent k k m _ _ (table_of-Spent _ _ h) λ length_tree d h. spent _ _ h

pub read_block_header-Spent :
    (k m : ℕ) (d : Decoder) → budget d + k ≤ m → Spent (k + 4) m (read_block_header d)
unfolding read_block_header
read_block_header-Spent k m d h = then-Spent k (k + 4) m _ _ (skip_pad-Spent k m d h) λ _ d h.
    then-Spent (k + 3) (k + 4) m _ _ (get_bits-Spent k m 3 d h) λ block_type d h.
      then-Spent (k + 4) (k + 4) m _ _ (weaken (omega arith) (get_bits-Spent (k + 3) m 1 d h))
        λ full d h.
          then-Spent (k + 4) (k + 4) m _ _ (read_size-Spent (k + 4) m d full h) λ size d h.
            then-Spent (k + 4) (k + 4) m _ _ (check_type-Spent (k + 4) m d block_type h)
              λ _ d h. spent _ _ h
