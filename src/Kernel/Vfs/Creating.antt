-- ===== src/Kernel/Vfs/Creating.antt =====
-- `create_pipe` and `open` of kernel/vfs.rs keep the counts of the pipes.
use theos.Base.{
  ℕ, ◌+◌, ◌≤◌, ◌<◌, ◌≡◌, refl, ap, ◌∙◌, arith, Bool, true, false, set, drop, length, length-set,
  Option, none, some, ok, ok_or, attempt,
}
use theos.Base.Maps.{Map, get, insert, get-insert}
use theos.Base.Int.{ℤ, pos}
use theos.Kernel.Vfs.{
  Files, Vfs, invalid_fd, OpenFile, pipe_read, pipe_write, Pipe, entry, find_none, put_entry,
}
use theos.Kernel.Vfs.Pipes.{create_pipe, new_pipe, wire, pipe_end, next_id}
use theos.Kernel.Vfs.Ends.{
  end_at, ends_of, count, held, count-set, free, find_none-Free, entry-set_ne,
}
use theos.Kernel.Vfs.Wired.{IsWired, put_entry-IsWired, get-insert_ne}
use theos.Kernel.Vfs.Files.{place}
use theos.Kernel.Vfs.{alloc_fd_slot_from}

-- A file that is no end of a pipe.
abbrev pub IsPlain : OpenFile → Type 0
IsPlain f = (side : Bool) (id : ℕ) → ends_of side id (some f) ≡ 0

slot_free :
    (v : Vfs) (start k : ℕ)
    → find_none (drop start v.files) start ≡ some k
    → (k < length v.files) × (entry v.files k ≡ none)
slot_free v start k e = elim (find_none-Free v.files start k e) [ free a b c d ↦ (b, c) ]

pub place-IsWired : {v : Vfs} → IsWired v → (f : OpenFile) → IsPlain f → IsWired (place v f).1
place-IsWired {v} w f plain = on_slot (find_none v.files 0) refl
  where
    on_slot :
        (o : Option ℕ)
        → find_none v.files 0 ≡ o
        → IsWired
            (attempt {B = ℤ}
              (ok_or o invalid_fd)
              v
              (λ slot. (ok (pos slot), put_entry v slot (some f)))).1
    on_slot none e = w
    on_slot (some k) e =
        let (inside, empty) = slot_free v 0 k e in
        put_entry-IsWired w k (some f) inside (λ s j. rw (empty, plain s j) refl)

both_ends :
    (m : Map Pipe) (id : ℕ)
    → get m id ≡ none
    → (s : Bool) (j : ℕ)
    → held s (get m j) + end_at s j (some (pipe_read id)) + end_at s j (some (pipe_write id))
      ≡ held s (get (insert m id new_pipe) j)
both_ends m id gone true j = ground (arith, get-insert m id new_pipe j)
both_ends m id gone false j = ground (arith, get-insert m id new_pipe j)

two_set :
    (s : Bool) (j : ℕ) (fs : Files) (r k : ℕ) (f g : OpenFile)
    → r < length fs
    → entry fs r ≡ none
    → r < k
    → k < length fs
    → entry fs k ≡ none
    → count s j (set (set fs r (some f)) k (some g))
      ≡ count s j fs + end_at s j f.special + end_at s j g.special
two_set s j fs r k f g hr er hrk hk ek =
    let first : ends_of s j (entry fs r) ≡ 0 = rw er refl in
    let second : ends_of s j (entry (set fs r (some f)) k) ≡ 0 =
      rw (entry-set_ne fs r k (some f) (omega arith), ek) refl in
    let inside : k < length (set fs r (some f)) = rw length-set hk in
    omega (
      arith,
      first,
      second,
      count-set s j fs r (some f) hr,
      count-set s j (set fs r (some f)) k (some g) inside,
    )

wire-IsWired :
    {v : Vfs}
    → IsWired v
    → v.next_pipe_id + 1 < 4294967296
    → (r k : ℕ) → r < length v.files
    → entry v.files r ≡ none
    → r < k
    → k < length v.files
    → entry v.files k ≡ none
    → IsWired (wire v r k)
wire-IsWired {v} w h r k hr er hrk hk ek = record { counted = counts; fresh = none_new }
  where
    counts :
        (s : Bool) (j : ℕ)
        → count s j (
            set
              (set v.files r (some (pipe_end (pipe_read v.next_pipe_id) (pos 0))))
              k
              (some (pipe_end (pipe_write v.next_pipe_id) (pos 1))))
          ≡ held s (get (insert v.pipes v.next_pipe_id (new_pipe)) j)
    counts s j =
        two_set s j v.files r k _ _ hr er hrk hk ek
        ∙ ap
            (λ n.
              n
              + end_at s j (some (pipe_read v.next_pipe_id))
              + end_at s j (some (pipe_write v.next_pipe_id)))
            (w.counted s j)
        ∙ both_ends v.pipes v.next_pipe_id (w.fresh v.next_pipe_id (omega arith)) s j

    none_new :
        (j : ℕ)
        → next_id v.next_pipe_id ≤ j
        → get (insert v.pipes v.next_pipe_id (new_pipe)) j ≡ none
    none_new j h' =
        get-insert_ne v.pipes v.next_pipe_id (new_pipe) j (ground arith) ∙ w.fresh j (ground arith)

pub create_pipe-IsWired :
    {v : Vfs} → IsWired v → v.next_pipe_id + 1 < 4294967296 → IsWired (create_pipe v).1
unfolding create_pipe
create_pipe-IsWired {v} w h = on_reader (find_none v.files 0) refl
  where
    on_writer :
        (r : ℕ)
        → r < length v.files
        → entry v.files r ≡ none
        → (o : Option ℕ) → find_none (drop (r + 1) v.files) (r + 1) ≡ o
        → IsWired
            (attempt {B = ℤ × ℤ} (ok_or o invalid_fd) v (λ k. (ok (pos r, pos k), wire v r k))).1
    on_writer r hr er none e = w
    on_writer r hr er (some k) e = elim (find_none-Free v.files (r + 1) k e) [
      | free a b c d ↦ wire-IsWired w h r k hr er (omega arith) b c
    ]

    on_reader :
        (o : Option ℕ)
        → find_none v.files 0 ≡ o
        → IsWired
            (attempt {B = ℤ × ℤ} (ok_or o invalid_fd) v (λ r.
              attempt {B = ℤ × ℤ}
                (alloc_fd_slot_from v (r + 1))
                v
                (λ k. (ok (pos r, pos k), wire v r k)))).1
    on_reader none e = w
    on_reader (some r) e =
        let (inside, empty) = slot_free v 0 r e in
        on_writer r inside empty (find_none (drop (r + 1) v.files) (r + 1)) refl
