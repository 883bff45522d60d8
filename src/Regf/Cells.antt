-- ===== src/Regf/Cells.antt =====
-- The reads of lib/regf/lib.rs: numbers, ranges and cells. Sums of offsets are taken without overflow.
use theos.Base.{ℕ, ◌+◌, ◌-◌, ◌*◌, List, length, take, drop, ◌||◌}
use theos.Base.{Exec, done, ◌>>=◌, Result, ok, err, ◌>>?◌, index, slice, ltb, leb, if◌then◌else◌}
use theos.Regf.{Error, invalid_hive, unexpected_eof}

unfoldable pub read_bytes : List ℕ → ℕ → ℕ → Result Error (List ℕ)
read_bytes input offset len =
    if leb (offset + len) (length input)
    then ok (take len (drop offset input))
    else err unexpected_eof

unfoldable pub read_u16 : List ℕ → ℕ → Exec (Result Error ℕ)
read_u16 input offset = done (read_bytes input offset 2) >>? λ bytes.
    index bytes 0 >>= λ b0. index bytes 1 >>= λ b1. done (ok (b0 + 256 * b1))

unfoldable pub read_u32 : List ℕ → ℕ → Exec (Result Error ℕ)
read_u32 input offset = done (read_bytes input offset 4) >>? λ bytes. index bytes 0 >>= λ b0.
    index bytes 1 >>= λ b1. index bytes 2 >>= λ b2.
    index bytes 3 >>= λ b3. done (ok (b0 + 256 * b1 + 65536 * b2 + 16777216 * b3))

-- `read_i32(...).unsigned_abs()`, of the two's complement.
abbrev pub unsigned_abs : ℕ → ℕ
unsigned_abs n = if ltb n 2147483648 then n else 4294967296 - n

-- The bytes of a cell behind its size.
unfoldable pub cell_payload : List ℕ → ℕ → Exec (Result Error (List ℕ))
cell_payload bytes rel_offset =
    let start_at = 0x1000 + rel_offset in
    read_u32 bytes start_at >>? λ raw.
    let cell_size = unsigned_abs raw in
    if ltb cell_size 4
    then done (err invalid_hive)
    else (if ltb (length bytes) (start_at + cell_size) || ltb (start_at + cell_size) (start_at + 4)
        then done (err unexpected_eof)
        else (slice bytes (start_at + 4) (cell_size - 4) >>= λ payload. done (ok payload)))
