-- ===== src/WimLzx/Reader.antt =====
-- The bits of lib/wim_lzx/lib.rs: `try_feed`, `get_bits` and `get_code`. The next bit is the top one of
-- the buffer's 32; a shift by `n` is a product with or a quotient by 2 to the `n`.
use theos.Base.{
  ℕ, ◌+◌, ◌-◌, ◌*◌, ◌/◌, ◌%◌, ◌^◌, Bool, true, false, length, get_elem?, Option, none, some,
}
use theos.Base.{Exec, done, panic, ◌>>=◌, Result, ok, err, ltb, leb, ◌==◌, if◌then◌else◌, index}
use theos.Base.Bits.{bit_or}
use theos.WimLzx.{
  Decoder, Error, corrupt, in_input_buffer, in_get_bits, in_code_tail, eof, Outcome, Huffman,
  table_bits, max_tree_path_len,
}

abbrev pub u32_size : ℕ
u32_size = 4294967296

abbrev pub u16_size : ℕ
u16_size = 65536

-- `self.input.len().saturating_sub(self.byte_offset)`
abbrev pub available : Decoder → ℕ
available d = length d.input - d.byte_offset

unfoldable pub ensure_at_least : Decoder → ℕ → Outcome (Unit {0})
ensure_at_least d bytes =
    if ltb (available d) bytes then done (err (eof in_input_buffer d), d) else done (ok tt, d)

-- Two bytes more in the buffer, behind the bits that are there. The shift by `16 - bit_count` panics
-- when that is negative.
abbrev pub feed_word : Decoder → Option ℕ → Option ℕ → Exec (Bool × Decoder)
feed_word d none hi = panic
feed_word d (some lo) none = panic
feed_word d (some lo) (some hi) =
    if ltb 16 d.bit_count
    then panic
    else done (
      true,
      record d {
        bit_buffer = bit_or d.bit_buffer ((hi * 256 + lo) * 2 ^ (16 - d.bit_count) % u32_size);
        bit_count = d.bit_count + 16;
        byte_offset = d.byte_offset + 2;
      },
    )

unfoldable pub try_feed : Decoder → Exec (Bool × Decoder)
try_feed d =
    if ltb (available d) 2
    then done (false, d)
    else feed_word d (get_elem? d.input d.byte_offset) (get_elem? d.input (d.byte_offset + 1))

-- `n` bits fewer in the buffer.
abbrev pub shift_out : Decoder → ℕ → Decoder
shift_out d n = record d {
  bit_buffer = d.bit_buffer * 2 ^ n % u32_size;
  bit_count = d.bit_count - n;
}

-- The count of bits that falls below 0 panics.
abbrev pub take_bits : Decoder → ℕ → Outcome ℕ
take_bits d n =
    if ltb d.bit_count n
    then panic
    else done (ok (d.bit_buffer / 2 ^ (32 - n) % u16_size), shift_out d n)

unfoldable pub get_bits : Decoder → ℕ → Outcome ℕ
get_bits d n =
    if n == 0
    then done (ok 0, d)
    else (if ltb d.bit_count n
        then (try_feed d >>= λ fed.
            if fed.0 then take_bits fed.1 n else done (err (eof in_get_bits fed.1), fed.1))
        else take_bits d n)

-- What the tables have for the bits at the top of the buffer.
unfoldable pub look_up : Huffman → ℕ → Exec (Result Error ℕ)
look_up h bit_buffer = index h.table (bit_buffer / 2 ^ (32 - table_bits)) >>= λ code.
    if ltb code 512
    then (if leb h.maxbits table_bits
        then done (err corrupt)
        else (let suffix =
              bit_buffer * 2 ^ table_bits % u32_size / 2 ^ (32 - (h.maxbits - table_bits)) in
            index h.extra code >>= λ row. index row suffix >>= λ code. done (ok code)))
    else done (ok code)

-- As many bits fewer as the code has, and the symbol.
abbrev pub take_code : Decoder → ℕ → Outcome ℕ
take_code d code =
    let n = code / 512 in
    if ltb d.bit_count n
    then done (err (eof in_code_tail d), d)
    else done (ok (code % 512), shift_out d n)

abbrev pub found_code : Decoder → Exec (Result Error ℕ) → Outcome ℕ
found_code d panic = panic
found_code d (done (err e)) = done (err e, d)
found_code d (done (ok code)) = take_code d code

abbrev pub get_fed_code : Decoder → Huffman → Outcome ℕ
get_fed_code d h = found_code d (look_up h d.bit_buffer)

unfoldable pub get_code : Decoder → Huffman → Outcome ℕ
get_code d h =
    if h.maxbits == 0
    then done (err corrupt, d)
    else (if ltb d.bit_count max_tree_path_len
        then (try_feed d >>= λ fed. get_fed_code fed.1 h)
        else get_fed_code d h)
