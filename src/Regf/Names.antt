-- ===== src/Regf/Names.antt =====
-- The names of lib/regf/lib.rs: `decode_ascii` and `decode_utf16le`, with the decoder of Rust's library.
use theos.Base.{ℕ, ◌+◌, ◌-◌, ◌*◌, ◌%◌, List, [], ◌∷◌, length, Bool, ◌&&◌, Option, none, some}
use theos.Base.{Result, err, ok_or, ltb, leb, ◌==◌, if◌then◌else◌}
use theos.Regf.{Error, unsupported_encoding, Text}

-- Each byte is a code point.
abbrev pub decode_ascii : List ℕ → Text
decode_ascii bytes = bytes

-- `chunks_exact(2)` of little-endian numbers.
unfoldable pub units : List ℕ → List ℕ
units [] = []
units (b ∷ []) = []
units (lo ∷ hi ∷ bytes) = (lo + 256 * hi) ∷ units bytes

abbrev pub is_high : ℕ → Bool
is_high u = leb 0xd800 u && ltb u 0xdc00

abbrev pub is_low : ℕ → Bool
is_low u = leb 0xdc00 u && ltb u 0xe000

abbrev pub cons_char : ℕ → Option Text → Option Text
cons_char c none = none
cons_char c (some cs) = some (c ∷ cs)

-- `char::decode_utf16`: a surrogate that is not half of a pair is an error.
unfoldable pub decode_units : List ℕ → Option Text
decode_units [] = some []
decode_units (u ∷ []) = if is_high u then none else (if is_low u then none else some (u ∷ []))
decode_units (u ∷ w ∷ us) =
    let single = decode_units (w ∷ us) in
    let pair = decode_units us in
    if is_high u
    then (if is_low w then cons_char (0x10000 + (u - 0xd800) * 1024 + (w - 0xdc00)) pair else none)
    else (if is_low u then none else cons_char u single)

unfoldable pub decode_utf16le : List ℕ → Result Error Text
decode_utf16le bytes =
    if length bytes % 2 == 0
    then ok_or (decode_units (units bytes)) unsupported_encoding
    else err unsupported_encoding
