-- ===== src/Kernel/Vfs/Closing.antt =====
-- `close` and `release_special` of kernel/vfs.rs keep the counts of the pipes.
use theos.Base.{
  ℕ, ◌+◌, ◌-◌, ◌≤◌, ◌≡◌, ◌≢◌, refl, sym, ap, ◌∙◌, arith, Bool, true, false, ◌==◌, if◌then◌else◌,
  set, ℕ_discrete, Option, none, some,
}
use theos.Base.Maps.{get, get-insert, get-remove}
use theos.Base.Int.{ℤ, pos, negsuc}
use theos.Kernel.Vfs.{Vfs, OpenFile, SpecialFd, pipe_read, pipe_write, Pipe, entry, put_entry}
use theos.Kernel.Vfs.Pipes.{put_or_remove, release_special}
use theos.Kernel.Vfs.Files.{close}
use theos.Kernel.Vfs.Ends.{end_at, ends_of, count, held, count-set, entry_bound}
use theos.Kernel.Vfs.Files.{close_entry}
use theos.Kernel.Vfs.Wired.{IsWired, put_entry-IsWired, get-insert_ne, get-remove_ne}

held-put_or_remove :
    (v : Vfs) (id : ℕ) (p : Pipe) (side : Bool) (j : ℕ)
    → held side (get (put_or_remove v id p).pipes j)
      ≡ (if id == j then held side (some p) else held side (get v.pipes j))
held-put_or_remove v id p true j =
    ground (arith, get-insert v.pipes id p j, get-remove v.pipes id j)
held-put_or_remove v id p false j =
    ground (arith, get-insert v.pipes id p j, get-remove v.pipes id j)

held-put_or_remove_self :
    (v : Vfs) (id : ℕ) (p : Pipe) (s : Bool)
    → held s (get (put_or_remove v id p).pipes id) ≡ held s (some p)
held-put_or_remove_self v id p s = ground (arith, held-put_or_remove v id p s id)

files-put_or_remove : (v : Vfs) (id : ℕ) (p : Pipe) → (put_or_remove v id p).files ≡ v.files
files-put_or_remove v id p = ground arith

next-put_or_remove :
    (v : Vfs) (id : ℕ) (p : Pipe) → (put_or_remove v id p).next_pipe_id ≡ v.next_pipe_id
next-put_or_remove v id p = ground arith

get-put_or_remove_ne :
    (v : Vfs) (id : ℕ) (p : Pipe) (j : ℕ)
    → id ≢ j
    → get (put_or_remove v id p).pipes j ≡ get v.pipes j
get-put_or_remove_ne v id p j h =
    ground (arith, get-insert_ne v.pipes id p j h, get-remove_ne v.pipes id j h)

abbrev end_of : Bool → ℕ → SpecialFd
end_of true id = pipe_read id
end_of false id = pipe_write id

-- A pipe with one end less on a side.
abbrev one_less : Bool → Pipe → Pipe
one_less true p = record p { readers = p.readers - 1 }
one_less false p = record p { writers = p.writers - 1 }

less :
    (side s : Bool) (id j n : ℕ) (p : Pipe)
    → n + end_at s j (some (end_of side id)) ≡ held s (some p)
    → id ≡ j
    → n ≡ held s (some (one_less side p))
less true true id j n p e same = ground (arith, e, same)
less true false id j n p e same = ground (arith, e)
less false true id j n p e same = ground (arith, e)
less false false id j n p e same = ground (arith, e, same)

other : (side s : Bool) (id j : ℕ) → id ≢ j → end_at s j (some (end_of side id)) ≡ 0
other true true id j h = ground arith
other true false id j h = refl
other false true id j h = refl
other false false id j h = ground arith

own : (side : Bool) (id : ℕ) → end_at side id (some (end_of side id)) ≡ 1
own true id = ground arith
own false id = ground arith

module _ {v : Vfs} (w : IsWired v) (slot : ℕ) (f : OpenFile) (e : entry v.files slot ≡ some f) where
  -- The ends before a file is taken out.
  before :
      (s : Bool) (j : ℕ)
      → count s j (set v.files slot none) + end_at s j f.special ≡ held s (get v.pipes j)
  before s j =
      let there : ends_of s j (entry v.files slot) ≡ end_at s j f.special = rw e refl in
      omega
        (arith, there, count-set s j v.files slot none (entry_bound v.files slot e), w.counted s j)

  dropped-IsWired :
      (side : Bool) (id : ℕ) (p : Pipe)
      → f.special ≡ some (end_of side id)
      → get v.pipes id ≡ some p
      → IsWired (put_or_remove (put_entry v slot none) id (one_less side p))
  dropped-IsWired side id p same there = record { counted = counts; fresh = none_new }
    where
      ends :
          (s : Bool) (j : ℕ)
          → count s j (set v.files slot none) + end_at s j (some (end_of side id))
            ≡ held s (get v.pipes j)
      ends s j = rw (sym same) (before s j)

      counts :
          (s : Bool) (j : ℕ)
          → count s j (put_or_remove (put_entry v slot none) id (one_less side p)).files
            ≡ held s (get (put_or_remove (put_entry v slot none) id (one_less side p)).pipes j)
      counts s j = rw files-put_or_remove (elim (ℕ_discrete id j) [
        | yes q ↦
            less side s id j _ p (ends s j ∙ ap (held s) (ap (get v.pipes) (sym q) ∙ there)) q
            ∙ sym (held-put_or_remove_self (put_entry v slot none) id (one_less side p) s)
            ∙ ap
                (λ k.
                  held s (get (put_or_remove (put_entry v slot none) id (one_less side p)).pipes k))
                q
        | no q ↦
            omega (arith, ends s j, other side s id j q)
            ∙ ap (held s)
                (sym (get-put_or_remove_ne (put_entry v slot none) id (one_less side p) j q))
      ])

      none_new :
          (j : ℕ)
          → (put_or_remove (put_entry v slot none) id (one_less side p)).next_pipe_id ≤ j
          → get (put_or_remove (put_entry v slot none) id (one_less side p)).pipes j ≡ none
      none_new j h =
          let later : v.next_pipe_id ≤ j =
            rw (sym (next-put_or_remove (put_entry v slot none) id (one_less side p))) h in
          elim (ℕ_discrete id j) [
            | yes q ↦ let gone : get v.pipes id ≡ none = rw q (w.fresh j later) in cc
            | no q ↦
                get-put_or_remove_ne (put_entry v slot none) id (one_less side p) j q
                ∙ w.fresh j later
          ]

  -- The pipe of an end in the table is there.
  alive : (side : Bool) (id : ℕ) → f.special ≡ some (end_of side id) → get v.pipes id ≢ none
  alive side id same gone =
      let ends : count side id (set v.files slot none) + end_at side id (some (end_of side id))
          ≡ held side (get v.pipes id) =
        rw (sym same) (before side id) in
      let nothing : held side (get v.pipes id) ≡ 0 = rw gone refl in
      omega (arith, ends, nothing, own side id)

  released :
      (side : Bool) (id : ℕ)
      → f.special ≡ some (end_of side id)
      → (o : Option Pipe) → get v.pipes id ≡ o
      → IsWired (elim o [
        | none ↦ put_entry v slot none
        | some pipe ↦ put_or_remove (put_entry v slot none) id (one_less side pipe)
      ])
  released side id same none there = absurd (alive side id same there)
  released side id same (some p) there = dropped-IsWired side id p same there

  release-IsWired :
      (special : Option SpecialFd)
      → f.special ≡ special
      → IsWired (release_special (put_entry v slot none) special)
  unfolding release_special
  release-IsWired (some (pipe_read id)) same = released true id same (get v.pipes id) refl
  release-IsWired (some (pipe_write id)) same = released false id same (get v.pipes id) refl
  release-IsWired special same = record {
    counted = λ s j. omega (arith, before s j, harmless s j);
    fresh = w.fresh;
  }
    where
      harmless : (s : Bool) (j : ℕ) → end_at s j f.special ≡ 0
      harmless true j = rw same refl
      harmless false j = rw same refl

closed-IsWired :
    {v : Vfs}
    → IsWired v
    → (slot : ℕ) (o : Option OpenFile) → entry v.files slot ≡ o
    → IsWired (close_entry v slot o).1
closed-IsWired w slot none e = w
closed-IsWired {v} w slot (some f) e = ground (
  arith,
  put_entry-IsWired w slot (some (record f { refs = f.refs - 1 })) (entry_bound v.files slot e)
      (λ s j. rw e refl),
  release-IsWired w slot f e f.special refl,
)

pub close-IsWired : {v : Vfs} → IsWired v → (fd : ℤ) → IsWired (close v fd).1
unfolding close
close-IsWired w (negsuc n) = w
close-IsWired {v} w (pos n) = closed-IsWired w n (entry v.files n) refl
