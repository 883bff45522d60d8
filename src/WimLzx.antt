-- ===== src/WimLzx.antt =====
-- `lib/wim_lzx/lib.rs`: the constants, the errors, and the decoder's state.
pub mod Table
pub mod Reader
pub mod Trees
pub mod Blocks
pub mod CallTargets
pub mod Spending
pub mod TreeSpending
pub mod BlockSpending
pub mod Termination
mod Tests
use theos.Base.{ℕ, Bool, false, List, [], ◌∷◌, replicate, Exec, done, panic, Result, ok, err}

abbrev pub main_code_count : ℕ
main_code_count = 496

abbrev pub main_code_split : ℕ
main_code_split = 256

abbrev pub len_code_count : ℕ
len_code_count = 249

abbrev pub table_bits : ℕ
table_bits = 9

abbrev pub table_size : ℕ
table_size = 512

abbrev pub max_block_size : ℕ
max_block_size = 32768

abbrev pub window_size : ℕ
window_size = 32768

abbrev pub max_tree_path_len : ℕ
max_tree_path_len = 16

-- Where the input ended: the texts that the code gives.
pub data Context : Type 0 where
  in_input_buffer in_get_bits in_code_tail in_payload : Context

pub data Error : Type 0 where
  corrupt : Error
  unexpected_eof : Context → (byte_offset bit_count block_start block_type block_size : ℕ) → Error
  chunk_too_large : ℕ → Error

pub record Huffman : Type 0 where
  pub extra : List (List ℕ)
  pub maxbits : ℕ
  pub table : List ℕ

-- `bit_count` is u8, `bit_buffer` u32, and the numbers of `lru` u16.
pub record Decoder : Type 0 where
  pub input : List ℕ
  pub byte_offset : ℕ
  pub bit_count : ℕ
  pub bit_buffer : ℕ
  pub unaligned : Bool
  pub lru : List ℕ
  pub mainlens : List ℕ
  pub lenlens : List ℕ
  pub window : List ℕ
  pub current_block_start : ℕ
  pub current_block_type : ℕ
  pub current_block_size : ℕ

unfoldable pub new : List ℕ → Decoder
new input = record {
  input = input;
  byte_offset = 0;
  bit_count = 0;
  bit_buffer = 0;
  unaligned = false;
  lru = 1 ∷ 1 ∷ 1 ∷ [];
  mainlens = replicate main_code_count 0;
  lenlens = replicate len_code_count 0;
  window = replicate window_size 0;
  current_block_start = 0;
  current_block_type = 0;
  current_block_size = 0;
}

abbrev pub eof : Context → Decoder → Error
eof context d =
    unexpected_eof context d.byte_offset d.bit_count d.current_block_start d.current_block_type
      d.current_block_size

-- A method of the decoder: its result and the state behind it, or a panic.
abbrev pub Outcome {ℓ} : Type ℓ → Type ℓ
Outcome A = Exec (Result Error A × Decoder)

-- `self.method(...)?`
infixl 5 ◌>>!◌
abbrev pub ◌>>!◌ {ℓ κ} :
    {A : Type ℓ} {B : Type κ} → Outcome A → (A → Decoder → Outcome B) → Outcome B
done (ok a, d) >>! k = k a d
done (err e, d) >>! k = done (err e, d)
panic >>! k = panic
