-- ===== src/Kernel/Vfs/Mounted/Waiting.antt =====
-- The waits of `read` and `write` of kernel/vfs.rs on an end of a pipe come to an end.
use theos.Base.{
  ℕ, zero, suc, ◌+◌, ◌≤◌, ◌<◌, ◌≡◌, inl, inr, refl, ap, ◌∙◌, arith, Bool, true, false, Bool-cases,
  Option, some, Exec, done, panic, ◌>>=◌, Result, ok, err,
}
use theos.Kernel.Vfs.{Vfs, VfsError, would_block}
use theos.Kernel.Vfs.Mounted.{is_would_block, retry}

-- The call came back, and would have blocked.
abbrev pub waits : {A S : Type 0} → Exec (Result VfsError A × S) → Bool
waits panic = false
waits (done (ok a, s)) = false
waits (done (err e, s)) = is_would_block e

-- The reply of a call that is the last one.
abbrev pub answer :
    {A S : Type 0} → Exec (Result VfsError A × S) → Exec (Option (Result VfsError A) × S)
answer r = r >>= λ x. done (some x.0, x.1)

-- The file system after `k` waits behind `turn` ones.
unfoldable pub after_waits : (ℕ → Option Vfs → Option Vfs) → ℕ → ℕ → Option Vfs → Option Vfs
after_waits yields turn zero s = s
after_waits yields turn (suc k) s = after_waits yields (turn + 1) k (yields turn s)

module _ {A : Type 0} (call : Option Vfs → Exec (Result VfsError A × Option Vfs))
    (yields : ℕ → Option Vfs → Option Vfs) where
  retry-last :
      (n turn : ℕ) (s : Option Vfs)
      → waits (call s) ≡ false
      → retry call yields (suc n) turn s ≡ answer (call s)
  unfolding retry
  retry-last n turn s h = on_result (call s) h
    where
      on_result :
          (r : Exec (Result VfsError A × Option Vfs))
          → waits r ≡ false
          → (r >>= λ x. elim x.0 [
            | ok a ↦ done (some (ok a), x.1)
            | err e ↦ elim (is_would_block e) [
              | true ↦ retry call yields n (turn + 1) (yields turn x.1)
              | false ↦ done (some (err e), x.1)
            ]
          ])
            ≡ answer r
      on_result panic h = refl
      on_result (done (ok a, s')) h = refl
      on_result (done (err e, s')) h =
          let other : is_would_block e ≡ false = h in
          ap
            (λ b. elim b [
              | true ↦ retry call yields n (turn + 1) (yields turn s')
              | false ↦ done (some (err e), s')
            ])
            other

  retry-next :
      (n turn : ℕ) (s : Option Vfs)
      → call s ≡ done (err would_block, s)
      → retry call yields (suc n) turn s ≡ retry call yields n (turn + 1) (yields turn s)
  unfolding retry
  retry-next n turn s e = rw (e, retry) refl

  module _
      (leaves : (s : Option Vfs) → waits (call s) ≡ true → call s ≡ done (err would_block, s)) where
    -- The call is made again until it would not block, and that is its reply.
    pub retry-ends :
        (k n turn : ℕ) (s : Option Vfs)
        → k < n
        → waits (call (after_waits yields turn k s)) ≡ false
        → (j : ℕ) × (j ≤ k)
          × (waits (call (after_waits yields turn j s)) ≡ false)
          × (retry call yields n turn s ≡ answer (call (after_waits yields turn j s)))
    unfolding after_waits
    retry-ends k zero turn s fuel h = absurd (omega (arith, fuel))
    retry-ends zero (suc n) turn s fuel h = (0, omega arith, h, retry-last n turn s h)
    retry-ends (suc k) (suc n) turn s fuel h = elim (Bool-cases (waits (call s))) [
      | inr over ↦ (0, omega arith, over, retry-last n turn s over)
      | inl wait ↦
          let (j, early, free, e) =
            retry-ends k n (turn + 1) (yields turn s) (omega (arith, fuel)) h in
          (suc j, omega (arith, early), free, retry-next n turn s (leaves s wait) ∙ e)
    ]
