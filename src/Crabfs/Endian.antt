-- ===== src/Crabfs/Endian.antt =====
-- Numbers in a byte buffer, `lib/crabfs/endian.rs`. A buffer is a list of bytes; an index or a range
-- that leaves it panics.
pub mod Words
pub mod Layout
pub mod Rows
pub mod Total
use theos.Base.{◌⊎◌, arith, ◌≤◌, ◌<◌, ◌≡◌, refl, lt→ltb, le→not-ltb}
use theos.Base.{ℕ, zero, suc, ◌+◌, ◌*◌, ◌/◌, ◌%◌, List, [], ◌∷◌, length, replicate}
use theos.Base.{Exec, done, panic, ◌>>=◌, Result, ok, err, index, write, ltb, ◌==◌, if◌then◌else◌}
use theos.Crabfs.Error.{ParseError, buffer_too_small}

abbrev pub Buffer : Type 0
Buffer = List ℕ

-- One more than the largest number that fits in `n` bytes.
abbrev pub bound : ℕ → ℕ
bound zero = 1
bound (suc n) = 256 * bound n

abbrev pub to_le_bytes : ℕ → ℕ → List ℕ
to_le_bytes zero v = []
to_le_bytes (suc n) v = v % 256 ∷ to_le_bytes n (v / 256)

abbrev pub from_le_bytes : List ℕ → ℕ
from_le_bytes [] = 0
from_le_bytes (b ∷ bs) = b + 256 * from_le_bytes bs

abbrev pub reverse_onto : List ℕ → List ℕ → List ℕ
reverse_onto [] acc = acc
reverse_onto (b ∷ bs) acc = reverse_onto bs (b ∷ acc)

abbrev pub to_be_bytes : ℕ → ℕ → List ℕ
to_be_bytes n v = reverse_onto (to_le_bytes n v) []

abbrev pub from_be_bytes : List ℕ → ℕ
from_be_bytes bs = from_le_bytes (reverse_onto bs [])

-- `[bytes[off], bytes[off + 1], ...]`, `n` of them.
unfoldable pub bytes_at : Buffer → ℕ → ℕ → Exec (List ℕ)
bytes_at bytes off zero = done []
bytes_at bytes off (suc n) =
    index bytes off >>= λ b. bytes_at bytes (suc off) n >>= λ bs. done (b ∷ bs)

unfoldable pub require_len : Buffer → ℕ → Result ParseError (Unit {0})
require_len bytes min_len =
    if ltb (length bytes) min_len then err (buffer_too_small min_len (length bytes)) else ok tt

unfoldable pub be_u16 : Buffer → ℕ → Exec ℕ
be_u16 bytes off = bytes_at bytes off 2 >>= λ bs. done (from_be_bytes bs)

unfoldable pub be_u32 : Buffer → ℕ → Exec ℕ
be_u32 bytes off = bytes_at bytes off 4 >>= λ bs. done (from_be_bytes bs)

unfoldable pub be_u64 : Buffer → ℕ → Exec ℕ
be_u64 bytes off = bytes_at bytes off 8 >>= λ bs. done (from_be_bytes bs)

unfoldable pub le_u32 : Buffer → ℕ → Exec ℕ
le_u32 bytes off = bytes_at bytes off 4 >>= λ bs. done (from_le_bytes bs)

-- A store into the buffer: `bytes[off..off + size].copy_from_slice(payload)`.
pub data Put : Type 0 where
  put : (off size : ℕ) (payload : List ℕ) → Put

abbrev pub put_byte : ℕ → ℕ → Put
put_byte off val = put off 1 (val ∷ [])

abbrev pub put_be16 : ℕ → ℕ → Put
put_be16 off val = put off 2 (to_be_bytes 2 val)

abbrev pub put_be32 : ℕ → ℕ → Put
put_be32 off val = put off 4 (to_be_bytes 4 val)

abbrev pub put_be64 : ℕ → ℕ → Put
put_be64 off val = put off 8 (to_be_bytes 8 val)

abbrev pub put_le32 : ℕ → ℕ → Put
put_le32 off val = put off 4 (to_le_bytes 4 val)

-- `bytes[off..off + size].fill(val)`
abbrev pub fill : ℕ → ℕ → ℕ → Put
fill off size val = put off size (replicate size val)

-- The payload must have the size of the range.
unfoldable pub apply : Put → Buffer → Exec Buffer
apply (put off size payload) bytes =
    if length payload == size then write bytes off payload else panic

-- One store after another.
unfoldable pub apply_all : List Put → Buffer → Exec Buffer
apply_all [] bytes = done bytes
apply_all (p ∷ ps) bytes = apply p bytes >>= apply_all ps

pub require_len_lem : (bytes : Buffer) (n : ℕ) → n ≤ length bytes → require_len bytes n ≡ ok tt
unfolding require_len
require_len_lem bytes n h = rw (le→not-ltb (length bytes) n h) refl

pub require_len_short :
    (bytes : Buffer) (n : ℕ)
    → length bytes < n
    → require_len bytes n ≡ err (buffer_too_small n (length bytes))
unfolding require_len
require_len_short bytes n h = rw (lt→ltb (length bytes) n h) refl

pub length_cases : (bytes : Buffer) (n : ℕ) → (length bytes < n) ⊎ (n ≤ length bytes)
length_cases bytes n = ground arith
