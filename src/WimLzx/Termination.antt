-- ===== src/WimLzx/Termination.antt =====
-- `decompress` of lib/wim_lzx/lib.rs comes to an end, with as many bytes as it was asked for.
use theos.Base.{
  ℕ, zero, suc, ◌+◌, ◌≤◌, ◌<◌, ◌≡◌, ◌≢◌, refl, sym, ◌∙◌, arith, Bool, true, false, Bool-cases, inl,
  inr, List, length, take, length-take, length-overwrite, Option, none, some, Exec, done, panic,
  Result, ok, err, ltb, leb, ◌==◌, if◌then◌else◌,
}
use theos.WimLzx.{Decoder, new, Error, chunk_too_large, Outcome, window_size}
use theos.WimLzx.Table.{nth}
use theos.WimLzx.CallTargets.{decode_loop, decode_e8, turn_back}
use theos.WimLzx.Blocks.{
  read_block, block_loop, after_block, block_fuel, finish, finish_loop, decompress,
}
use theos.WimLzx.Spending.{budget, Spent, spent, failed, stuck}
use theos.WimLzx.BlockSpending.{read_block-Spent}

after_block-ends :
    (m : ℕ) (x : Outcome ℕ) (rest : ℕ → Decoder → Option (Exec (Result Error Decoder)))
    → Spent 4 m x
    → ((n : ℕ) (d : Decoder) → budget d + 4 ≤ m → rest n d ≢ none)
    → after_block x rest ≢ none
after_block-ends m x rest (spent n d h) next = next n d h
after_block-ends m x rest (failed e d) next = λ q. cc
after_block-ends m x rest stuck next = λ q. cc

elim-ends :
    {A : Type 0} (b : Bool) {x y : Option A}
    → x ≢ none
    → y ≢ none
    → (elim b as (λ _. Option A) [ true ↦ x | false ↦ y ]) ≢ none
elim-ends true h h' = h
elim-ends false h h' = h'

block_loop-ends :
    (fuel size written : ℕ) (d : Decoder) → budget d < fuel → block_loop fuel size written d ≢ none
unfolding block_loop
block_loop-ends zero size written d h = absurd (omega arith)
block_loop-ends (suc fuel) size written d h =
    elim-ends (ltb written size)
      (after_block-ends (budget d) (read_block d written)
        (λ n d. block_loop fuel size (written + n) d)
        (read_block-Spent 0 (budget d) d written (omega arith))
        (λ n d' h'. block_loop-ends fuel size (written + n) d' (omega (arith, h, h'))))
      (λ q. cc)

finish_loop-ends :
    (size : ℕ) (o : Option (Exec (Result Error Decoder))) → o ≢ none → finish_loop size o ≢ none
finish_loop-ends size none h = absurd (h refl)
finish_loop-ends size (some x) h = λ q. cc

if-ends :
    {A : Type 0} (b : Bool) {x y : Option A} → x ≢ none → y ≢ none → (if b then x else y) ≢ none
if-ends true h h' = h
if-ends false h h' = h'

new-budget : (chunk : List ℕ) → budget (new chunk) < block_fuel chunk
unfolding budget new
new-budget chunk = omega arith

-- The decompression of any chunk to any size comes to an end, with its bytes, with an error or in a panic:
-- the loop over the blocks never runs out of the fuel, eight turns for a byte of the chunk and one more. Blocks of no bytes are
-- among those that it reads.
pub decompress-ends : (chunk : List ℕ) (size : ℕ) → decompress chunk size ≢ none
unfolding decompress
decompress-ends chunk size =
    if-ends (ltb window_size size) (λ q. cc)
      (finish_loop-ends size (block_loop (block_fuel chunk) size 0 (new chunk))
        (block_loop-ends (block_fuel chunk) size 0 (new chunk) (new-budget chunk)))

elim-length :
    {A : Type 0} (n : ℕ) (b : Bool) (x y : List A)
    → length x ≡ n
    → length y ≡ n
    → length (elim b as (λ _. List A) [ true ↦ x | false ↦ y ]) ≡ n
elim-length n true x y h h' = h
elim-length n false x y h h' = h'

-- The target of a call takes the place of what stood there.
length-decode_loop :
    (fuel offset i : ℕ) (buffer : List ℕ)
    → length (decode_loop fuel offset i buffer) ≡ length buffer
unfolding decode_loop
length-decode_loop zero offset i buffer = refl
length-decode_loop (suc fuel) offset i buffer =
    let n = length buffer in
    elim-length n (leb (i + 10) n) _ _
      (elim-length n (nth buffer i == 0xe8) _ _
        (length-decode_loop fuel offset (i + 5) (turn_back buffer (i + 1) (offset + i))
          ∙ length-overwrite buffer (i + 1) _)
        (length-decode_loop fuel offset (i + 1) buffer))
      refl

length-decode_e8 : (buffer : List ℕ) (offset : ℕ) → length (decode_e8 buffer offset) ≡ length buffer
unfolding decode_e8
length-decode_e8 buffer offset = ground (arith, length-decode_loop (length buffer) offset 0 buffer)

finish-length :
    (size : ℕ) (x : Exec (Result Error Decoder)) (output : List ℕ)
    → finish size x ≡ done (ok output)
    → length output ≡ size
finish-length size panic output e = cc
finish-length size (done (err x)) output e = cc
finish-length size (done (ok d)) output e = elim (Bool-cases (leb (0 + size) (length d.window))) [
  | inl inside ↦ of_slice inside (rw inside at e)
  | inr outside ↦ absurd (of_panic (rw outside at e))
]
  where
    of_slice :
        leb (0 + size) (length d.window) ≡ true
        → ◌≡◌ {A = Exec (Result Error (List ℕ))}
            (done (ok (decode_e8 (take size d.window) 0)))
            (done (ok output))
        → length output ≡ size
    of_slice inside e' =
        let same : decode_e8 (take size d.window) 0 ≡ output = cc in
        rw (sym same, length-decode_e8, length-take) (ground arith)

    of_panic : ◌≡◌ {A = Exec (Result Error (List ℕ))} panic (done (ok output)) → ⊥
    of_panic e' = cc

-- What a decompression gives, when it gives something, is as long as it was asked for, and was asked
-- for no more than the window.
pub decompress-length :
    (chunk : List ℕ) (size : ℕ) (output : List ℕ)
    → decompress chunk size ≡ some (done (ok output))
    → (length output ≡ size) × (size ≤ window_size)
unfolding decompress
decompress-length chunk size output e = elim (Bool-cases (ltb window_size size)) [
  | inl large ↦ absurd (too_large (rw large at e))
  | inr fits ↦
      (of_loop (block_loop (block_fuel chunk) size 0 (new chunk)) (rw fits at e), ground arith)
]
  where
    too_large :
        ◌≡◌ {A = Option (Exec (Result Error (List ℕ)))}
          (some (done (err (chunk_too_large size))))
          (some (done (ok output)))
        → ⊥
    too_large e' = cc

    of_loop :
        (o : Option (Exec (Result Error Decoder)))
        → finish_loop size o ≡ some (done (ok output))
        → length output ≡ size
    of_loop none e' = cc
    of_loop (some x) e' = finish-length size x output cc
