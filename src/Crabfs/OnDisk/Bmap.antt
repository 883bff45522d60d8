-- ===== src/Crabfs/OnDisk/Bmap.antt =====
-- A packed extent: `lib/crabfs/on_disk/bmap.rs` reads it, `lib/crabfs/pack.rs` writes it. A shift or a
-- mask of low bits is a quotient, a remainder or a product modulo the width.
use theos.Base.{ℕ, List, [], ◌∷◌, ◌+◌, ◌*◌, ◌/◌, ◌%◌, ◌<◌, ◌≤◌, ◌≡◌, refl, length, arith, ap, ◌∙◌}
use mathlib.Core.Path.{ap₂}
use theos.Base.{Exec, done, ◌>>=◌, Result, ok, and_then, inl, inr}
use theos.Base.Bits.{bit_or, bit_or-shl}
use theos.Crabfs.Error.{ParseError}
use theos.Crabfs.Endian.{Buffer, Put, put_be64, be_u64, apply_all, require_len, length_cases}
use theos.Crabfs.Endian.{require_len_lem, require_len_short}
use theos.Crabfs.Endian.Layout.{Fits, after, within, spares, stored, Sized, apply_all_lem}
use theos.Crabfs.Endian.Layout.{be_u64-after, length-after}
use theos.Crabfs.Endian.Total.{IsTotal, done-IsTotal, then-IsTotal, be_u64-IsTotal}

pub record BmapExtent : Type 0 where
  pub state : ℕ
  pub startoff : ℕ
  pub startblock : ℕ
  pub blockcount : ℕ

abbrev size : ℕ
size = 16

-- The fields of the two words.
abbrev pub unpack : ℕ → ℕ → BmapExtent
unpack x0 x1 = record {
  state = x0 / 9223372036854775808;
  startoff = x0 % 9223372036854775808 / 512;
  startblock = bit_or (x0 % 512 * 8796093022208) (x1 / 2097152);
  blockcount = x1 % 2097152;
}

unfoldable pub parse : Buffer → Exec (Result ParseError BmapExtent)
parse bytes =
    and_then (require_len bytes size)
      λ _. be_u64 bytes 0 >>= λ x0. be_u64 bytes 8 >>= λ x1. done (ok (unpack x0 x1))

abbrev pub extent_stores : ℕ → ℕ → ℕ → List Put
extent_stores startoff startblock blockcount =
    put_be64 0 (bit_or (startoff * 512 % 18446744073709551616) (startblock / 8796093022208 % 512))
    ∷ put_be64 8 (bit_or (startblock % 8796093022208 * 2097152) blockcount)
    ∷ []

unfoldable pub serialize_bmap_extent : Buffer → ℕ → ℕ → ℕ → Exec Buffer
serialize_bmap_extent out startoff startblock blockcount =
    apply_all (extent_stores startoff startblock blockcount) out

module _ (startoff startblock blockcount : ℕ) (o : startoff < 18014398509481984)
    (b : startblock < 4503599627370496) (c : blockcount < 2097152) where
  first_word :
      bit_or (startoff * 512 % 18446744073709551616) (startblock / 8796093022208 % 512)
      ≡ startoff * 512 + startblock / 8796093022208
  first_word =
      ap₂ bit_or (omega arith) (omega arith)
      ∙ bit_or-shl 9 startoff (startblock / 8796093022208) (omega arith)
      ∙ omega arith

  second_word :
      bit_or (startblock % 8796093022208 * 2097152) blockcount
      ≡ startblock % 8796093022208 * 2097152 + blockcount
  second_word =
      ap (λ x. bit_or x blockcount) (omega arith)
      ∙ bit_or-shl 21 (startblock % 8796093022208) blockcount (omega arith)
      ∙ omega arith

  unpack_words :
      (x0 x1 : ℕ)
      → x0 ≡ startoff * 512 + startblock / 8796093022208
      → x1 ≡ startblock % 8796093022208 * 2097152 + blockcount
      → unpack x0 x1 ≡ record {
        state = 0;
        startoff = startoff;
        startblock = startblock;
        blockcount = blockcount;
      }
  unpack_words x0 x1 e f = rw (the_state, the_offset, the_block, the_count) refl
    where
      the_state : x0 / 9223372036854775808 ≡ 0
      the_state = omega arith

      the_offset : x0 % 9223372036854775808 / 512 ≡ startoff
      the_offset = omega arith

      the_block : bit_or (x0 % 512 * 8796093022208) (x1 / 2097152) ≡ startblock
      the_block =
          ap (λ x. bit_or x (x1 / 2097152)) (omega arith)
          ∙ bit_or-shl 43 (x0 % 512) (x1 / 2097152) (omega arith)
          ∙ omega arith

      the_count : x1 % 2097152 ≡ blockcount
      the_count = omega arith

  -- An extent whose offset has 54 bits, whose block has 52 and whose length has 21 is read back from
  -- the 16 bytes that are written for it, with the state 0.
  pub parse-serialize_bmap_extent :
      (out : Buffer)
      → 16 ≤ length out
      → (serialize_bmap_extent out startoff startblock blockcount >>= parse)
        ≡ done (
            ok (record {
              state = 0;
              startoff = startoff;
              startblock = startblock;
              blockcount = blockcount;
            }))
  unfolding serialize_bmap_extent parse within stored Sized spares
  parse-serialize_bmap_extent out h =
      let f : Fits 16 (extent_stores startoff startblock blockcount) out = record {
        inside = refl;
        sized = (refl, (refl, tt));
        room = h;
      } in
      rw
        (
          apply_all_lem f,
          require_len_lem (after (extent_stores startoff startblock blockcount) out) 16
              (omega (arith, length-after (extent_stores startoff startblock blockcount) out)),
          be_u64-after f 0 _ (omega (arith, first_word)) refl refl,
          be_u64-after f 8 _ (omega (arith, second_word)) refl refl,
        )
        (ap (λ e. done (ok e)) (unpack_words _ _ first_word second_word))

-- `BmapExtent::parse` returns on every buffer.
pub parse-IsTotal : (bytes : Buffer) → IsTotal (parse bytes)
unfolding parse
parse-IsTotal bytes = elim (length_cases bytes 16) [
  | inl short ↦ rw (require_len_short bytes 16 short) (done-IsTotal _)
  | inr h ↦
      rw (require_len_lem bytes 16 h)
        (search (done-IsTotal, then-IsTotal, be_u64-IsTotal bytes h) depth 20)
]
