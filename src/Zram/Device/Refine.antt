-- ===== src/Zram/Device/Refine.antt =====
-- The device refines a partial map from page numbers to pages, under any sequence of calls.
use theos.Base.{ℕ, ◌<◌, ◌≡◌, refl, ◌∙◌, inl, inr, arith, subst, subst₂}
use theos.Base.{
  List, [], ◌∷◌, Option, none, some, length, done, ok, err, ◌>>=◌, Result, Exec, ltb, leb,
  if◌then◌else◌, ◌==◌, ℕ_discrete, dec_lt,
}
use theos.Base.{le→leb, lt→not-leb, lt→ltb, le→not-ltb, Option-cases}
use theos.Base.Maps.{get}
use theos.Zram.Types.{
  page_size, missing_page, page_index_out_of_range, page_too_large, ZramError, saturating_inc,
}
use theos.Zram.Device.{
  Lz4Block, IsLossless, ZramDevice, new, store_page, load_page, invalidate_page,
}
use theos.Zram.Device.Valid.{
  Contains, IsValid, new-IsValid_lem, load-Contains, load-missing, loads-Contains, loads-IsValid,
}
use theos.Zram.Device.Store.{store_page_lem, store_page_refuses, Updated}
use theos.Zram.Device.Invalidate.{invalidate_page_lem, Dropped}

pub data Call : Type 0 where
  store : ℕ → List ℕ → Call
  load : ℕ → Call
  invalidate : ℕ → Call

pub data Reply : Type 0 where
  page : List ℕ → Reply
  finished : Reply
  failed : ZramError → Reply

-- The abstract store: pages by number.
abbrev pub Store : Type 0
Store = ℕ → Option (List ℕ)

abbrev pub update : Store → ℕ → Option (List ℕ) → Store
update f i o j = if i == j then o else f j

-- What a call promises on the abstract store.
abbrev pub promise : ℕ → Store → Call → Reply × Store
promise max f (store i p) =
    if leb max i
    then (failed page_index_out_of_range, f)
    else (if ltb page_size (length p)
        then (failed page_too_large, f)
        else (finished, update f i (some p)))
promise max f (load i) = elim (f i) [ none ↦ (failed missing_page, f) | some p ↦ (page p, f) ]
promise max f (invalidate i) = (finished, update f i none)

abbrev pub promises : ℕ → Store → List Call → List Reply
promises max f [] = []
promises max f (c ∷ cs) = (promise max f c).0 ∷ promises max (promise max f c).1 cs

abbrev pub reply : Result ZramError (Unit {0}) → Reply
reply (ok _) = finished
reply (err e) = failed e

abbrev pub reply_page : Result ZramError (List ℕ) → Reply
reply_page (ok p) = page p
reply_page (err e) = failed e

module _ (codec : Lz4Block) where
  -- A call on the device.
  unfoldable pub step : ZramDevice → Call → Exec (Reply × ZramDevice)
  step d (store i p) = store_page codec d i p >>= λ r. done (reply r.0, r.1)
  step d (load i) = load_page codec d i >>= λ r. done (reply_page r.0, r.1)
  step d (invalidate i) = invalidate_page d i >>= λ r. done (reply r.0, r.1)

  unfoldable pub run : ZramDevice → List Call → Exec (List Reply)
  run d [] = done []
  run d (c ∷ cs) = step d c >>= λ r. run r.1 cs >>= λ rs. done (r.0 ∷ rs)

  -- The device is well formed and has exactly the pages of the store.
  pub record Models (d : ZramDevice) (max : ℕ) (f : Store) : Type 0 where
    pub valid : IsValid codec d
    pub same_max : d.max_pages ≡ max
    pub has : (i : ℕ) (p : List ℕ) → f i ≡ some p → Contains codec d i p
    pub lacks : (i : ℕ) → f i ≡ none → get d.pages i ≡ none

-- A stored page is not empty.
abbrev pub IsFilled : Call → Type 0
IsFilled (store i p) = 0 < length p
IsFilled (load i) = Unit {0}
IsFilled (invalidate i) = Unit {0}

abbrev pub AllFilled : List Call → Type 0
AllFilled [] = Unit {0}
AllFilled (c ∷ cs) = IsFilled c × AllFilled cs

module _ (codec : Lz4Block) (l : IsLossless codec) (d : ZramDevice) (max : ℕ) (f : Store)
    (m : Models codec d max f) where
  Models-Updated :
      (d' : ZramDevice) (i : ℕ) (p : List ℕ)
      → Updated codec d d' i p
      → Models codec d' max (update f i (some p))
  Models-Updated d' i p u = record {
    valid = u.valid;
    same_max = u.same_max ∙ m.same_max;
    has = λ j q e. elim (ℕ_discrete i j) [
      | yes same ↦ subst₂ (Contains codec d') same (ground arith) u.here
      | no apart ↦ u.kept j q apart (m.has j q (ground arith))
    ];
    lacks = λ j e. elim (ℕ_discrete i j) [
      | yes same ↦ absurd (ground arith)
      | no apart ↦ u.others j apart ∙ m.lacks j (ground arith)
    ];
  }

  Models-Dropped :
      (d' : ZramDevice) (i : ℕ) → Dropped codec d d' i → Models codec d' max (update f i none)
  Models-Dropped d' i u = record {
    valid = u.valid;
    same_max = u.same_max ∙ m.same_max;
    has = λ j q e. elim (ℕ_discrete i j) [
      | yes same ↦ absurd (ground arith)
      | no apart ↦ u.kept j q apart (m.has j q (ground arith))
    ];
    lacks = λ j e. elim (ℕ_discrete i j) [
      | yes same ↦ subst (λ k. get d'.pages k ≡ none) same u.gone
      | no apart ↦ u.others j apart ∙ m.lacks j (ground arith)
    ];
  }

  -- Loading only counts.
  Models-loads : (n : ℕ) → Models codec (record d { loads = n }) max f
  Models-loads n = record {
    valid = loads-IsValid codec d n m.valid;
    same_max = m.same_max;
    has = λ i p e. loads-Contains codec d n i p (m.has i p e);
    lacks = m.lacks;
  }

  -- One call: the device gives the promised reply and goes on to model the promised store.
  abbrev Keeps : Call → Type 0
  Keeps c =
      (d' : ZramDevice) × (step codec d c ≡ done ((promise max f c).0, d'))
      × Models codec d' max (promise max f c).1

  step-store : (i : ℕ) (p : List ℕ) → 0 < length p → Keeps (store i p)
  unfolding step
  step-store i p filled = elim (dec_lt i max) [
    | no past ↦
        let out = (store_page_refuses codec l d i p).0 (omega (arith, m.same_max, past)) in
        rw (le→leb max i (omega (arith, past))) (d, rw out, m)
    | yes range ↦ elim (dec_lt page_size (length p)) [
      | yes large ↦
          let out = (store_page_refuses codec l d i p).1 (omega (arith, m.same_max)) large in
          rw (lt→not-leb max i range, lt→ltb page_size (length p) large) (d, rw out, m)
      | no small ↦
          let (d', out, u) =
            store_page_lem codec l d i p m.valid (omega (arith, m.same_max)) filled
              (omega (arith, small)) in
          rw (lt→not-leb max i range, le→not-ltb page_size (length p) (omega (arith, small)))
            (d', rw out, Models-Updated d' i p u)
    ]
  ]

  step-load : (i : ℕ) → Keeps (load i)
  unfolding step
  step-load i = elim (Option-cases (f i)) [
    | inl e ↦ rw (e, promise) (d, rw (load-missing codec d m.valid i (m.lacks i e)), m)
    | inr (p, e) ↦
        rw (e, promise)
          (
            record d { loads = saturating_inc d.loads },
            rw (load-Contains codec d m.valid i p (m.has i p e)),
            Models-loads _,
          )
  ]

  step-invalidate : (i : ℕ) → Keeps (invalidate i)
  unfolding step
  step-invalidate i = elim (invalidate_page_lem codec d i m.valid) [
    | inr (d', out, u) ↦ (d', rw out, Models-Dropped d' i u)
    | inl (absent, out) ↦ (
      d,
      rw out,
      record {
        valid = m.valid;
        same_max = m.same_max;
        has = λ j q e. elim (ℕ_discrete i j) [
          | yes same ↦ absurd (ground arith)
          | no apart ↦ m.has j q (ground arith)
        ];
        lacks = λ j e. elim (ℕ_discrete i j) [
          | yes same ↦ subst (λ k. get d.pages k ≡ none) same absent
          | no apart ↦ m.lacks j (ground arith)
        ];
      },
    )
  ]

-- Each call on a device that models a store replies as the store promises, without a panic, and
-- leaves a device that models the promised store.
pub step-Models :
    (codec : Lz4Block) (d : ZramDevice) (max : ℕ) (f : Store) (c : Call)
    → IsLossless codec
    → Models codec d max f
    → IsFilled c
    → (d' : ZramDevice) × (step codec d c ≡ done ((promise max f c).0, d'))
      × Models codec d' max (promise max f c).1
step-Models codec d max f (store i p) l m filled = step-store codec l d max f m i p filled
step-Models codec d max f (load i) l m filled = step-load codec l d max f m i
step-Models codec d max f (invalidate i) l m filled = step-invalidate codec l d max f m i

run-Models :
    (codec : Lz4Block) (d : ZramDevice) (max : ℕ) (f : Store) (cs : List Call)
    → IsLossless codec
    → Models codec d max f
    → AllFilled cs
    → run codec d cs ≡ done (promises max f cs)
unfolding run
run-Models codec d max f [] l m filled = refl
run-Models codec d max f (c ∷ cs) l m filled =
    let (d', out, m') = step-Models codec d max f c l m filled.0 in
    rw (out, run-Models codec d' max (promise max f c).1 cs l m' filled.1)

-- From a new device on, every sequence of calls with no empty page gets the replies that a plain
-- map from numbers to pages promises.
pub run-promises :
    (codec : Lz4Block) (max : ℕ) (cs : List Call)
    → IsLossless codec
    → AllFilled cs
    → run codec (new max) cs ≡ done (promises max (λ _. none) cs)
run-promises codec max cs l filled =
    run-Models codec (new max) max (λ _. none) cs l
      (record {
        valid = new-IsValid_lem codec max;
        same_max = (unfold new in refl);
        has = λ i p e. cc;
        lacks = λ i e. (unfold new get in refl);
      })
      filled
