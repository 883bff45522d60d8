-- ===== src/WimLzx/Spending.antt =====
-- What the methods of the decoder of lib/wim_lzx/lib.rs take of the input.
use theos.Base.{
  ℕ, zero, suc, ◌+◌, ◌-◌, ◌*◌, ◌/◌, suc_not_zero, ◌≤◌, ◌≡◌, arith, Bool, true, false, Bool-cases,
  inl, inr, length, Option, none, some, Exec, done, panic, ◌>>=◌, Result, ok, err, ltb, ◌==◌,
  if◌then◌else◌,
}
use theos.WimLzx.{Decoder, Error, Outcome, ◌>>!◌, Huffman, eof, in_get_bits}
use theos.WimLzx.Reader.{
  available, try_feed, feed_word, take_bits, get_bits, look_up, take_code, found_code, get_fed_code,
  get_code,
}

-- The bits that are left, in the buffer and behind it.
unfoldable pub budget : Decoder → ℕ
budget d = 8 * available d + d.bit_count

-- A call after which, if it succeeds, the bits that are left and `k` more are at most `m`.
pub data Spent {A : Type 0} (k m : ℕ) : Outcome A → Type 0 where
  spent : (a : A) (d : Decoder) → budget d + k ≤ m → Spent k m (done (ok a, d))
  failed : (e : Error) (d : Decoder) → Spent k m (done (err e, d))
  stuck : Spent k m panic

module _ {A : Type 0} where
  pub done-Spent : {k m : ℕ} (a : A) (d : Decoder) → budget d + k ≤ m → Spent k m (done (ok a, d))
  done-Spent a d h = spent a d h

  pub err-Spent : {k m : ℕ} (e : Error) (d : Decoder) → Spent {A = A} k m (done (err e, d))
  err-Spent e d = failed e d

  pub weaken : {k j m : ℕ} {x : Outcome A} → k ≤ j → Spent j m x → Spent k m x
  weaken h (spent a d h') = spent a d (omega (arith, h, h'))
  weaken h (failed e d) = failed e d
  weaken h stuck = stuck

  pub if-Spent :
      {k m : ℕ} (b : Bool) {x y : Outcome A}
      → Spent k m x
      → Spent k m y
      → Spent k m (if b then x else y)
  if-Spent true h h' = h
  if-Spent false h h' = h'

module _ {A : Type 0} where
  pub elim-Spent :
      {k m : ℕ} (b : Bool) {x y : Outcome A}
      → Spent k m x
      → Spent k m y
      → Spent k m (elim b as (λ _. Outcome A) [ true ↦ x | false ↦ y ])
  elim-Spent true h h' = h
  elim-Spent false h h' = h'

module _ {A B : Type 0} where
  pub then-Spent :
      (j k m : ℕ) (x : Outcome A) (f : A → Decoder → Outcome B)
      → Spent j m x
      → ((a : A) (d : Decoder) → budget d + j ≤ m → Spent k m (f a d))
      → Spent k m (x >>! f)
  then-Spent j k m x f (spent a d h) next = next a d h
  then-Spent j k m x f (failed e d) next = failed e d
  then-Spent j k m x f stuck next = stuck

  -- What may panic on the way.
  pub and-Spent :
      {k m : ℕ} (x : Exec A) {f : A → Outcome B} → ((a : A) → Spent k m (f a)) → Spent k m (x >>= f)
  and-Spent (done a) next = next a
  and-Spent panic next = stuck

data Fed (d : Decoder) : Exec (Bool × Decoder) → Type 0 where
  not_fed : Fed d (done (false, d))
  fed : (d' : Decoder) → budget d' ≡ budget d → Fed d (done (true, d'))
  fed_panic : Fed d panic

feed_word-Fed : (d : Decoder) (lo hi : Option ℕ) → 2 ≤ available d → Fed d (feed_word d lo hi)
unfolding budget
feed_word-Fed d none hi h = fed_panic
feed_word-Fed d (some lo) none h = fed_panic
feed_word-Fed d (some lo) (some hi) h = elim (Bool-cases (ltb 16 d.bit_count)) [
  | inl full ↦ rw full fed_panic
  | inr room ↦ rw room (fed _ (after d h))
]
  where
    after :
        (d : Decoder)
        → 2 ≤ available d
        → 8 * (length d.input - (d.byte_offset + 2)) + (d.bit_count + 16)
          ≡ 8 * (length d.input - d.byte_offset) + d.bit_count
    after d h = omega (arith, h)

try_feed-Fed : (d : Decoder) → Fed d (try_feed d)
unfolding try_feed
try_feed-Fed d = elim (Bool-cases (ltb (available d) 2)) [
  | inl short ↦ rw short not_fed
  | inr enough ↦ rw enough (feed_word-Fed d _ _ (ground arith))
]

take_bits-Spent : (k m n : ℕ) (d : Decoder) → budget d + k ≤ m → Spent (k + n) m (take_bits d n)
unfolding budget
take_bits-Spent k m n d h = elim (Bool-cases (ltb d.bit_count n)) [
  | inl short ↦ rw short stuck
  | inr enough ↦ rw enough (spent _ _ (ground arith))
]

bits_behind_feed-Spent :
    (k m n : ℕ) (d : Decoder)
    → budget d + k ≤ m
    → (x : Exec (Bool × Decoder)) → Fed d x
    → Spent (k + n) m (
        x >>= λ fed. if fed.0 then take_bits fed.1 n else done (err (eof in_get_bits fed.1), fed.1))
bits_behind_feed-Spent k m n d h x not_fed = failed _ _
bits_behind_feed-Spent k m n d h x (fed d' same) = take_bits-Spent k m n d' (omega (arith, same, h))
bits_behind_feed-Spent k m n d h x fed_panic = stuck

pub get_bits-Spent : (k m n : ℕ) (d : Decoder) → budget d + k ≤ m → Spent (k + n) m (get_bits d n)
unfolding get_bits
get_bits-Spent k m zero d h = spent 0 d (omega (arith, h))
get_bits-Spent k m (suc n) d h = rw suc_not_zero (
    if-Spent (ltb d.bit_count (suc n))
      (bits_behind_feed-Spent k m (suc n) d h (try_feed d) (try_feed-Fed d))
      (take_bits-Spent k m (suc n) d h))

take_code-Spent : (k m code : ℕ) (d : Decoder) → budget d + k ≤ m → Spent k m (take_code d code)
unfolding budget
take_code-Spent k m code d h =
    if-Spent (ltb d.bit_count (code / 512)) (failed _ _) (spent _ _ (omega (arith, h)))

get_code_behind_feed-Spent :
    (k m : ℕ) (d : Decoder) (h : Huffman) → budget d + k ≤ m → Spent k m (get_fed_code d h)
get_code_behind_feed-Spent k m d h b = looked (look_up h d.bit_buffer)
  where
    looked : (x : Exec (Result Error ℕ)) → Spent k m (found_code d x)
    looked panic = stuck
    looked (done (err e)) = failed e d
    looked (done (ok code)) = take_code-Spent k m code d b

code_behind_feed-Spent :
    (k m : ℕ) (d : Decoder) (h : Huffman)
    → budget d + k ≤ m
    → (x : Exec (Bool × Decoder)) → Fed d x
    → Spent k m (x >>= λ fed. get_fed_code fed.1 h)
code_behind_feed-Spent k m d h b x not_fed = get_code_behind_feed-Spent k m d h b
code_behind_feed-Spent k m d h b x (fed d' same) =
    get_code_behind_feed-Spent k m d' h (omega (arith, same, b))
code_behind_feed-Spent k m d h b x fed_panic = stuck

pub get_code-Spent :
    (k m : ℕ) (d : Decoder) (h : Huffman) → budget d + k ≤ m → Spent k m (get_code d h)
unfolding get_code
get_code-Spent k m d h b = if-Spent (h.maxbits == 0) (failed _ _) (
    if-Spent (ltb d.bit_count 16) (code_behind_feed-Spent k m d h b (try_feed d) (try_feed-Fed d))
      (get_code_behind_feed-Spent k m d h b))
