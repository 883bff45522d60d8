-- ===== src/Zram/Page/Write.antt =====
-- `ZsPage::allocate`: what it stores, what it leaves alone, and when it gives no slot.
use theos.Base.{ℕ, ◌+◌, ◌*◌, ◌≤◌, ◌<◌, ◌≡◌, ◌≢◌, refl, sym, ap, ◌∙◌, ◌⊎◌, inl, inr}
use theos.Base.{List, [], ◌∷◌, none, some, arith, length, get_elem?, set}
use theos.Base.{length-set, get_elem?-set_self, get_elem?-set_ne, overwrite, length-overwrite}
use theos.Base.{slice-overwrite_self}
use theos.Base.{get_elem?-some_bound, get_elem?_bound, done, ok}
use theos.Base.{ℕ_discrete}
use theos.Zram.Types.{next_generation}
use theos.Zram.Page.{ZsPage, allocate, read}
use theos.Zram.Page.Valid.{IsValid, Holds, AreFree, AreFree-set, slot_room, slice_other}

-- A slot that holds bytes reads as them.
pub read-Holds :
    {p : ZsPage} {s g : ℕ} {b : List ℕ} → IsValid p → Holds p s g b → read p s g ≡ done (ok b)
unfolding read
read-Holds {p} {s} {g} {b} v h =
    ground (arith, get_elem?_bound p.slot_lengths s h.len, h.current, h.len, h.bytes, room)
  where
    below : s < length p.slot_lengths
    below = get_elem?_bound p.slot_lengths s h.len

    room : s * p.slot_size + length b ≤ length p.storage
    room = omega (
      arith,
      slot_room s (length p.slot_lengths) p.slot_size (length b) below
          (v.bounded s (length b) h.len),
      v.roomy,
    )

-- What a written slot's page is.
abbrev written : ZsPage → ℕ → List ℕ → List ℕ → ℕ → ZsPage
written p s rest b old = record p {
  storage = overwrite p.storage (s * p.slot_size) b;
  slot_lengths = set p.slot_lengths s (length b);
  slot_generations = set p.slot_generations s (next_generation old);
  free_list = rest;
  used_slots = p.used_slots + 1;
}

module _ (p : ZsPage) (v : IsValid p) (s : ℕ) (rest b : List ℕ) (old : ℕ)
    (popped : p.free_list ≡ s ∷ rest) (current : get_elem? p.slot_generations s ≡ some old)
    (fits : length b ≤ p.slot_size) where
  free : AreFree p.slot_lengths (s ∷ rest)
  free = rw popped at v.frees

  below : s < length p.slot_lengths
  below = get_elem?_bound p.slot_lengths s free.0

  room : s * p.slot_size + length b ≤ length p.storage
  room =
      omega (arith, slot_room s (length p.slot_lengths) p.slot_size (length b) below fits, v.roomy)

  allocate-written : allocate p b ≡ done (some (s, next_generation old), written p s rest b old)
  unfolding allocate
  allocate-written = ground (arith, popped, current, free.0, room)

  written-IsValid : IsValid (written p s rest b old)
  written-IsValid = record {
    slot_pos = v.slot_pos;
    paired = length-set p.slot_generations s _ ∙ v.paired ∙ sym (length-set p.slot_lengths s _);
    roomy = rw (length-set, length-overwrite) v.roomy;
    bounded = λ t n e. elim (ℕ_discrete s t) [
      | yes same ↦ ground (
        arith,
        get_elem?-set_self p.slot_lengths s (length b) below,
        same,
        ap (get_elem? (set p.slot_lengths s (length b))) same,
      )
      | no apart ↦ v.bounded t n (rw (get_elem?-set_ne p.slot_lengths s t (length b) apart) at e)
    ];
    frees = AreFree-set p.slot_lengths s (length b) rest free.1 free.2;
    counted = rw length-set (omega (arith, v.counted, ap length popped));
  }

  written-Holds : 0 < length b → Holds (written p s rest b old) s (next_generation old) b
  written-Holds pos = record {
    current = get_elem?-set_self p.slot_generations s _ (omega (arith, v.paired, below));
    len = get_elem?-set_self p.slot_lengths s _ below;
    filled = pos;
    bytes = slice-overwrite_self p.storage (s * p.slot_size) b room;
  }

  written-Holds_other :
      (t g : ℕ) (c : List ℕ) → Holds p t g c → Holds (written p s rest b old) t g c
  written-Holds_other t g c h = record {
    current = rw (get_elem?-set_ne p.slot_generations s t _ apart) h.current;
    len = rw (get_elem?-set_ne p.slot_lengths s t _ apart) h.len;
    filled = h.filled;
    bytes =
        slice_other p.storage b s t p.slot_size (length c) apart fits (v.bounded t (length c) h.len)
        ∙ h.bytes;
  }
    where
      apart : s ≢ t
      apart e = ground (arith, ap (get_elem? p.slot_lengths) e, free.0, h.len, h.filled)

-- `p'` is `p` with `b` written to slot `s` under generation `g`.
pub record Allocated (p p' : ZsPage) (b : List ℕ) (s g : ℕ) : Type 0 where
  pub valid : IsValid p'
  pub same_size : p'.slot_size ≡ p.slot_size
  pub stored : 0 < length b → Holds p' s g b
  pub void : length b ≡ 0 → (h : ℕ) (c : List ℕ) → ¬ Holds p' s h c
  pub kept : (t h : ℕ) (c : List ℕ) → Holds p t h c → Holds p' t h c
  pub fresh : (h : ℕ) (c : List ℕ) → ¬ Holds p s h c
  pub popped : p.free_list ≡ s ∷ p'.free_list
  pub renewed :
      (old : ℕ)
      → get_elem? p.slot_generations s ≡ some old
      → (g ≡ next_generation old) × (get_elem? p'.slot_generations s ≡ some g)

allocate-eq :
    (p : ZsPage) (b : List ℕ)
    → IsValid p
    → length b ≤ p.slot_size
    → (fl : List ℕ) → p.free_list ≡ fl
    → ((fl ≡ []) × (allocate p b ≡ done (none, p)))
      ⊎ ((s : ℕ) × (g : ℕ) × (p' : ZsPage) × (allocate p b ≡ done (some (s, g), p'))
          × Allocated p p' b s g)
allocate-eq p b v fits [] e = inl (refl, (unfold allocate in ground arith))
allocate-eq p b v fits (s ∷ rest) e =
    let f : AreFree p.slot_lengths (s ∷ rest) = rw e at v.frees in
    let (old, current) =
      get_elem?-some_bound p.slot_generations s
        (omega (arith, v.paired, get_elem?_bound p.slot_lengths s f.0)) in
    inr (
      s,
      next_generation old,
      written p s rest b old,
      allocate-written p v s rest b old e current fits,
      record {
        valid = written-IsValid p v s rest b old e current fits;
        same_size = refl;
        stored = written-Holds p v s rest b old e current fits;
        void = λ none_stored h c held. ground (
          arith,
          held.len,
          held.filled,
          get_elem?-set_self p.slot_lengths s (length b) (get_elem?_bound p.slot_lengths s f.0),
        );
        kept = written-Holds_other p v s rest b old e current fits;
        fresh = λ h c held. ground (arith, f.0, held.len, held.filled);
        popped = e;
        renewed = λ o same. ground (
          arith,
          current,
          get_elem?-set_self p.slot_generations s (next_generation old)
              (get_elem?_bound p.slot_generations s current),
        );
      },
    )

-- `allocate` on a well-formed page and a payload that fits: either no slot is free and the page
-- is unchanged, or a free slot is taken.
pub allocate_cases :
    (p : ZsPage) (b : List ℕ)
    → IsValid p
    → length b ≤ p.slot_size
    → ((p.free_list ≡ []) × (allocate p b ≡ done (none, p)))
      ⊎ ((s : ℕ) × (g : ℕ) × (p' : ZsPage) × (allocate p b ≡ done (some (s, g), p'))
          × Allocated p p' b s g)
allocate_cases p b v fits = allocate-eq p b v fits p.free_list refl
