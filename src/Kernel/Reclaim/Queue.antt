-- ===== src/Kernel/Reclaim/Queue.antt =====
-- The lists of pages of kernel/reclaim.rs: what stands in the queue as pages move in and out of it.
use theos.Base.{
  Bool, ap, take, ℕ, zero, suc, ◌≡◌, ◌≢◌, ◌⊎◌, inl, inr, refl, sym, subst, ◌∙◌, arith, List, [],
  ◌∷◌, ◌++◌, length, some, true, false, Bool-cases, ℕ_discrete, ◌==◌, ==_iff,
}
use theos.Base.Maps.{Map, get, insert, get-insert_self, get-insert_other}
use theos.Kernel.Frames.{containing_address}
use theos.Kernel.Reclaim.{
  ReclaimEntry, EntryState, compressed, new, is_resident, is_resident_state, remove_first,
}

unfoldable pub IsIn : ℕ → List ℕ → Type 0
IsIn p [] = ⊥
IsIn p (q ∷ qs) = (p ≡ q) ⊎ IsIn p qs

-- Every resident page is in the queue.
abbrev pub Queued : Map ReclaimEntry → List ℕ → Type 0
Queued entries queue = (p : ℕ) → is_resident (get entries p) ≡ true → IsIn p queue

IsIn-left : (p : ℕ) (ps qs : List ℕ) → IsIn p ps → IsIn p (ps ++ qs)
unfolding IsIn
IsIn-left p [] qs h = absurd h
IsIn-left p (x ∷ ps) qs (inl same) = inl same
IsIn-left p (x ∷ ps) qs (inr h) = inr (IsIn-left p ps qs h)

pub IsIn-last : (p q : ℕ) (ps : List ℕ) → p ≡ q → IsIn p (ps ++ q ∷ [])
unfolding IsIn
IsIn-last p q [] same = inl same
IsIn-last p q (x ∷ ps) same = inr (IsIn-last p q ps same)

pub IsIn-rotated : (p x : ℕ) (ps : List ℕ) → IsIn p (x ∷ ps) → IsIn p (ps ++ x ∷ [])
unfolding IsIn
IsIn-rotated p x ps (inl same) = IsIn-last p x ps same
IsIn-rotated p x ps (inr h) = IsIn-left p ps (x ∷ []) h

pub IsIn-remove_first : (p q : ℕ) (ps : List ℕ) → q ≢ p → IsIn p ps → IsIn p (remove_first ps q)
unfolding IsIn remove_first
IsIn-remove_first p q [] apart h = h
IsIn-remove_first p q (x ∷ ps) apart h = elim (Bool-cases (x == q)) [
  | inl same ↦
      rw same (elim h [ inl e ↦ absurd (apart (sym (e ∙ (==_iff x q).0 same))) | inr rest ↦ rest ])
  | inr other ↦
      rw other (elim h [ inl e ↦ inl e | inr rest ↦ inr (IsIn-remove_first p q ps apart rest) ])
]

pub true_not_false : (b : Bool) → b ≡ true → b ≡ false → ⊥
true_not_false b is_so is_not = cc

not_true : (st : EntryState) → is_resident_state st ≡ false → is_resident_state st ≡ true → ⊥
not_true st gone here = cc

pub IsIn-take_all : (p : ℕ) (ps : List ℕ) → IsIn p ps → IsIn p (take (length ps) ps)
unfolding IsIn
IsIn-take_all p [] h = h
IsIn-take_all p (x ∷ ps) (inl same) = inl same
IsIn-take_all p (x ∷ ps) (inr h) = inr (IsIn-take_all p ps h)

pub IsIn-take_longer : (p n : ℕ) (ps qs : List ℕ) → IsIn p (take n ps) → IsIn p (take n (ps ++ qs))
unfolding IsIn
IsIn-take_longer p zero ps qs h = absurd h
IsIn-take_longer p (suc n) [] qs h = absurd h
IsIn-take_longer p (suc n) (x ∷ ps) qs (inl same) = inl same
IsIn-take_longer p (suc n) (x ∷ ps) qs (inr h) = inr (IsIn-take_longer p n ps qs h)

pub length-remove_first :
    (p : ℕ) (ps : List ℕ) → IsIn p ps → suc (length (remove_first ps p)) ≡ length ps
unfolding IsIn remove_first
length-remove_first p [] h = absurd h
length-remove_first p (x ∷ ps) h = elim (Bool-cases (x == p)) [
  | inl same ↦ rw same refl
  | inr other ↦ rw other (elim h [
    | inl e ↦ absurd (other_not other e)
    | inr rest ↦ ap suc (length-remove_first p ps rest)
  ])
]
  where
    other_not : (x == p) ≡ false → p ≡ x → ⊥
    other_not differs e = true_not_false _ ((==_iff x p).1 (sym e)) differs

-- The pages of the queue that are in memory: there is one, or none is.
pub search :
    (entries : Map ReclaimEntry) (queue : List ℕ)
    → ((p : ℕ) × (is_resident (get entries p) ≡ true))
      ⊎ ((p : ℕ) → IsIn p queue → is_resident (get entries p) ≡ false)
unfolding IsIn
search entries [] = inr (λ p h. absurd h)
search entries (x ∷ queue) = elim (Bool-cases (is_resident (get entries x))) [
  | inl here ↦ inl (x, here)
  | inr gone ↦ elim (search entries queue) [
    | inl found ↦ inl found
    | inr none_left ↦ inr (λ p h. elim h [
      | inl e ↦ subst (λ y. is_resident (get entries y) ≡ false) (sym e) gone
      | inr rest ↦ none_left p rest
    ])
  ]
]

module _ (entries : Map ReclaimEntry) (queue : List ℕ) (h : Queued entries queue) (p : ℕ)
    (entry : ReclaimEntry) where
  -- A page gets an entry, and a place at the end of the queue.
  pushed-Queued :
      (rest : List ℕ)
      → ((q : ℕ) → p ≢ q → IsIn q queue → IsIn q rest)
      → Queued (insert entries p entry) (rest ++ p ∷ [])
  pushed-Queued rest keeps q here = elim (ℕ_discrete p q) [
    | yes same ↦ IsIn-last q p rest (sym same)
    | no apart ↦ IsIn-left q rest (p ∷ []) (
        keeps q apart
          (h q (subst (λ o. is_resident o ≡ true) (get-insert_other entries p entry q apart) here)))
  ]

  shown_here :
      {q : ℕ} (e : ReclaimEntry)
      → p ≡ q
      → is_resident (get (insert entries p e) q) ≡ true
      → is_resident_state e.state ≡ true
  shown_here e same here =
      subst (λ o. is_resident o ≡ true)
        (subst (λ x. get (insert entries p e) x ≡ some e) same (get-insert_self entries p e)) here

  -- A page that is compressed leaves the queue.
  taken-Queued :
      is_resident_state entry.state ≡ false → Queued (insert entries p entry) (remove_first queue p)
  taken-Queued gone q here = elim (ℕ_discrete p q) [
    | yes same ↦ absurd (not_true entry.state gone (shown_here entry same here))
    | no apart ↦
        IsIn-remove_first q p queue apart
          (h q (subst (λ o. is_resident o ≡ true) (get-insert_other entries p entry q apart) here))
  ]

-- Pages have the addresses of pages.
abbrev pub Aligned : Map ReclaimEntry → Type 0
Aligned entries = (p : ℕ) (e : ReclaimEntry) → get entries p ≡ some e → containing_address p ≡ p

pub containing_address-containing_address :
    (addr : ℕ) → containing_address (containing_address addr) ≡ containing_address addr
containing_address-containing_address addr = omega arith

insert-Aligned :
    (entries : Map ReclaimEntry) (p : ℕ) (entry : ReclaimEntry)
    → Aligned entries
    → containing_address p ≡ p
    → Aligned (insert entries p entry)
insert-Aligned entries p entry h at q e found = elim (ℕ_discrete p q) [
  | yes same ↦ subst (λ x. containing_address x ≡ x) same at
  | no apart ↦ h q e (sym (get-insert_other entries p entry q apart) ∙ found)
]

-- The entries of a pager and its queue.
pub record Placed (entries : Map ReclaimEntry) (queue : List ℕ) : Type 0 where
  pub queued : Queued entries queue
  pub aligned : Aligned entries

module _ (entries : Map ReclaimEntry) (queue : List ℕ) (h : Placed entries queue) (p : ℕ)
    (entry : ReclaimEntry) (at : containing_address p ≡ p) where
  pub pushed-Placed :
      (rest : List ℕ)
      → ((q : ℕ) → p ≢ q → IsIn q queue → IsIn q rest)
      → Placed (insert entries p entry) (rest ++ p ∷ [])
  pushed-Placed rest keeps = record {
    queued = pushed-Queued entries queue h.queued p entry rest keeps;
    aligned = insert-Aligned entries p entry h.aligned at;
  }

  pub taken-Placed :
      is_resident_state entry.state ≡ false → Placed (insert entries p entry) (remove_first queue p)
  taken-Placed gone = record {
    queued = taken-Queued entries queue h.queued p entry gone;
    aligned = insert-Aligned entries p entry h.aligned at;
  }

pub new-Placed : Placed new.entries new.resident_queue
unfolding new get
new-Placed = record {
  queued = λ q here. absurd (not_true compressed refl here);
  aligned = λ p e found. cc;
}

pub IsIn-rotated_back : (p x : ℕ) (ps : List ℕ) → IsIn p (ps ++ x ∷ []) → IsIn p (x ∷ ps)
unfolding IsIn
IsIn-rotated_back p x [] h = h
IsIn-rotated_back p x (y ∷ ps) (inl same) = inr (inl same)
IsIn-rotated_back p x (y ∷ ps) (inr h) = elim (IsIn-rotated_back p x ps h) [
  | inl same ↦ inl same
  | inr rest ↦ inr (inr rest)
]
