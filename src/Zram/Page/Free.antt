-- ===== src/Zram/Page/Free.antt =====
-- `ZsPage::read` and `free`: handles that hold, stale handles, and the reuse of a slot.
use theos.Base.{ℕ, ◌-◌, ◌*◌, ◌^◌, ◌≤◌, ◌<◌, ◌≡◌, ◌≢◌, refl, sym, ap, subst, ◌∙◌, ◌⊎◌, inl, inr}
use theos.Base.{List, ◌∷◌, Option, some, arith, length, get_elem?, set, take, drop, true, false}
use theos.Base.{
  length-set, get_elem?-set_self, get_elem?-set_ne, ℕ_discrete, length-take, length-drop,
}
use theos.Base.{get_elem?-some_bound, get_elem?_bound, done, ok, err, Bool-cases, leb, ◌==◌}
use theos.Base.{Exec, Result}
use theos.Zram.Types.{ZramError, next_generation, invalid_handle}
use theos.Zram.Page.{ZsPage, allocate, read, free, is_stale}
use theos.Zram.Page.Valid.{
  IsValid, Holds, AreFree, NotIn, AreFree-set, NotIn-of_used, slot_room, used_pos,
}
use theos.Zram.Page.Write.{Allocated, allocate_cases, read-Holds}

-- The bytes of a slot in use.
used_slot :
    (p : ZsPage) (s g n : ℕ)
    → IsValid p
    → get_elem? p.slot_generations s ≡ some g
    → get_elem? p.slot_lengths s ≡ some n
    → 0 < n
    → (b : List ℕ) × Holds p s g b
used_slot p s g n v current len pos =
    let b = take n (drop (s * p.slot_size) p.storage) in
    let size : length b ≡ n = omega (
      arith,
      length-take n (drop (s * p.slot_size) p.storage),
      length-drop (s * p.slot_size) p.storage,
      slot_room s (length p.slot_lengths) p.slot_size n (get_elem?_bound p.slot_lengths s len)
          (v.bounded s n len),
      v.roomy,
    ) in
    (
      b,
      record {
        current = current;
        len = len ∙ ap some (sym size);
        filled = omega arith;
        bytes = ap (λ k. take k (drop (s * p.slot_size) p.storage)) size;
      },
    )

abbrev pub IsStale : ZsPage → ℕ → ℕ → Type 0
IsStale p s g = is_stale p s g ≡ done true

-- On a well-formed page a handle is either stale or holds bytes.
pub Holds-cases :
    (p : ZsPage) (s g : ℕ) → IsValid p → IsStale p s g ⊎ ((b : List ℕ) × Holds p s g b)
Holds-cases p s g v = elim (Bool-cases (leb (length p.slot_lengths) s)) [
  | inl past ↦ inl (unfold is_stale in rw past)
  | inr inside ↦
      let (h, current) = get_elem?-some_bound p.slot_generations s (ground (arith, v.paired)) in
      let (n, len) = get_elem?-some_bound p.slot_lengths s (ground arith) in
      elim (Bool-cases (h == g)) [
        | inr other ↦ inl (unfold is_stale in ground arith)
        | inl same ↦ elim (Bool-cases (n == 0)) [
          | inl empty ↦ inl (unfold is_stale in ground arith)
          | inr used ↦ inr (used_slot p s g n v (ground arith) len (ground arith))
        ]
      ]
]

-- A slot that holds bytes is not stale.
Holds-not_stale : {p : ZsPage} {s g : ℕ} {b : List ℕ} → Holds p s g b → is_stale p s g ≡ done false
unfolding is_stale
Holds-not_stale {p} {s} {g} {b} h =
    ground (arith, get_elem?_bound p.slot_lengths s h.len, h.current, h.len, h.filled)

pub read_stale : (p : ZsPage) (s g : ℕ) → IsStale p s g → read p s g ≡ done (err invalid_handle)
read_stale p s g e = (unfold read in rw e)

-- `read` never panics on a well-formed page: the handle holds bytes and they are returned, or
-- it is refused.
pub read_cases :
    (p : ZsPage) (s g : ℕ)
    → IsValid p
    → ((b : List ℕ) × Holds p s g b × (read p s g ≡ done (ok b)))
      ⊎ (((b : List ℕ) → ¬ Holds p s g b) × (read p s g ≡ done (err invalid_handle)))
read_cases p s g v = elim (Holds-cases p s g v) [
  | inl stale ↦ inr ((λ b h. cc (Holds-not_stale h)), read_stale p s g stale)
  | inr (b, h) ↦ inl (b, h, read-Holds v h)
]

-- What `read` returns is what the slot holds.
pub Holds-of_read :
    {p : ZsPage} {s g : ℕ} {b : List ℕ} → IsValid p → read p s g ≡ done (ok b) → Holds p s g b
Holds-of_read {p} {s} {g} {b} v e = elim (read_cases p s g v) [
  | inr (_, refused) ↦ cc
  | inl (c, h, r) ↦ subst (Holds p s g) (cc) h
]

-- `p'` is `p` without what slot `s` held under generation `g`.
pub record Freed (p p' : ZsPage) (s g : ℕ) : Type 0 where
  pub valid : IsValid p'
  pub same_size : p'.slot_size ≡ p.slot_size
  pub gone : (h : ℕ) (c : List ℕ) → ¬ Holds p' s h c
  pub kept : (t h : ℕ) (c : List ℕ) → s ≢ t → Holds p t h c → Holds p' t h c
  pub bumped : get_elem? p'.slot_generations s ≡ some (next_generation g)
  pub pushed : p'.free_list ≡ s ∷ p.free_list

abbrev cleared : ZsPage → ℕ → ℕ → ZsPage
cleared p s g = record p {
  slot_lengths = set p.slot_lengths s 0;
  slot_generations = set p.slot_generations s (next_generation g);
  free_list = s ∷ p.free_list;
  used_slots = p.used_slots - 1;
}

module _ (p : ZsPage) (v : IsValid p) (s g : ℕ) (b : List ℕ) (h : Holds p s g b) where
  free-cleared : free p s g ≡ done (ok tt, cleared p s g)
  unfolding free
  free-cleared = ground (arith, get_elem?_bound p.slot_lengths s h.len, h.current, h.len, h.filled)

  below : s < length p.slot_lengths
  below = get_elem?_bound p.slot_lengths s h.len

  free_left : AreFree p.slot_lengths p.free_list × NotIn s p.free_list
  free_left =
      (v.frees, NotIn-of_used p.slot_lengths s (length b) p.free_list h.len h.filled v.frees)

  cleared-IsValid : IsValid (cleared p s g)
  cleared-IsValid = record {
    slot_pos = v.slot_pos;
    paired = length-set p.slot_generations s _ ∙ v.paired ∙ sym (length-set p.slot_lengths s _);
    roomy = rw length-set v.roomy;
    bounded = λ t n e. elim (ℕ_discrete s t) [
      | yes same ↦ ground (
        arith,
        get_elem?-set_self p.slot_lengths s 0 below,
        ap (get_elem? (set p.slot_lengths s 0)) same,
      )
      | no apart ↦ v.bounded t n (rw (get_elem?-set_ne p.slot_lengths s t 0 apart) at e)
    ];
    frees = (
      get_elem?-set_self p.slot_lengths s 0 below,
      free_left.1,
      AreFree-set p.slot_lengths s 0 p.free_list free_left.1 free_left.0,
    );
    counted = rw length-set (omega (arith, v.counted, used_pos p s (length b) v h.len h.filled));
  }

  -- `free` of a handle that holds bytes succeeds: the slot is free and every other slot is kept.
  pub free_Holds : (p' : ZsPage) × (free p s g ≡ done (ok tt, p')) × Freed p p' s g
  free_Holds = (
    cleared p s g,
    free-cleared,
    record {
      valid = cleared-IsValid;
      same_size = refl;
      gone = λ k c held.
          ground (arith, held.len, held.filled, get_elem?-set_self p.slot_lengths s 0 below);
      kept = λ t k c apart held. record {
        current = rw (get_elem?-set_ne p.slot_generations s t _ apart) held.current;
        len = rw (get_elem?-set_ne p.slot_lengths s t 0 apart) held.len;
        filled = held.filled;
        bytes = held.bytes;
      };
      bumped = get_elem?-set_self p.slot_generations s _ (omega (arith, v.paired, below));
      pushed = refl;
    },
  )

-- `free` never panics on a well-formed page: it releases what the handle holds, or it refuses a
-- stale handle and changes nothing.
pub free_cases :
    (p : ZsPage) (s g : ℕ)
    → IsValid p
    → ((b : List ℕ) × (p' : ZsPage) × Holds p s g b
        × (free p s g ≡ done (ok tt, p'))
        × Freed p p' s g)
      ⊎ (((b : List ℕ) → ¬ Holds p s g b) × (free p s g ≡ done (err invalid_handle, p)))
free_cases p s g v = elim (Holds-cases p s g v) [
  | inl stale ↦ inr ((λ b h. cc (Holds-not_stale h)), (unfold free in rw stale))
  | inr (b, h) ↦ let (p', r, f) = free_Holds p v s g b h in inl (b, p', h, r, f)
]

next_twice : (g : ℕ) → g < 2 ^ 32 → next_generation (next_generation g) ≢ g
unfolding next_generation
next_twice g h e = ground arith

same_page :
    (q p : ZsPage)
    → ◌≡◌ {A = Exec (Result ZramError (Unit {0}) × ZsPage)} (done (ok tt, q)) (done (ok tt, p))
    → q ≡ p
same_page q p e = cc

same_allocation :
    (t k s h : ℕ) (q p : ZsPage)
    → ◌≡◌ {A = Exec (Option (ℕ × ℕ) × ZsPage)} (done (some (t, k), q)) (done (some (s, h), p))
    → (t ≡ s) × (q ≡ p)
same_allocation t k s h q p e = (cc, cc)

reused :
    (p' p'' : ZsPage) (s g h : ℕ) (c : List ℕ)
    → g < 2 ^ 32
    → get_elem? p'.slot_generations s ≡ some (next_generation g)
    → Allocated p' p'' c s h
    → read p'' s g ≡ done (err invalid_handle)
reused p' p'' s g h c word bumped a =
    let (again, now) = a.renewed (next_generation g) bumped in
    elim (read_cases p'' s g a.valid) [
      | inl (b, held, r) ↦ absurd (next_twice g word (ground (arith, held.current)))
      | inr (_, r) ↦ r
    ]

-- A handle stays refused when its slot is given out again.
pub read_reused :
    (p p' p'' : ZsPage) (s g h : ℕ) (b c : List ℕ)
    → IsValid p
    → g < 2 ^ 32
    → Holds p s g b
    → free p s g ≡ done (ok tt, p')
    → length c ≤ p.slot_size
    → allocate p' c ≡ done (some (s, h), p'')
    → read p'' s g ≡ done (err invalid_handle)
read_reused p p' p'' s g h b c v word held freed fits again =
    let (q, r, f) = free_Holds p v s g b held in
    let f' = subst (λ x. Freed p x s g) (same_page q p' (cc)) f in
    elim (allocate_cases p' c f'.valid (rw f'.same_size fits)) [
      | inl (_, none_free) ↦ cc
      | inr (t, k, q', alloc, a) ↦
          let (et, eq) = same_allocation t k s h q' p'' (cc) in
          rw (← et, ← eq) (reused p' q' t g k c word (rw (← et) at f'.bumped) a)
    ]
