-- ===== src/Kernel/Vfs/Wired.antt =====
-- The ends of each pipe against the counts that the pipe keeps, kernel/vfs.rs.
use theos.Base.{
  ℕ, ◌-◌, ◌≤◌, ◌<◌, ◌≡◌, ◌≢◌, refl, sym, ◌∙◌, arith, Bool, true, false, List, [], ◌∷◌, length, min,
  take, inl, inr, Option-cases, Option, none, some, ok, ok_or,
}
use theos.Base.Maps.{Map, get, insert, remove, get-insert, get-remove}
use theos.Base.Int.{ℤ, pos, negsuc}
use theos.Kernel.Vfs.{
  Vfs, invalid_fd, OpenFile, Pipe, entry, file, put_file, put_entry, mount, pipe_capacity,
}
use theos.Kernel.Vfs.Pipes.{put_pipe, read_pipe, write_pipe, pop_bytes, push_bytes}
use theos.Kernel.Vfs.Ends.{ends_of, count, held, count-set, count-set_same}

module _ (m : Map Pipe) (id : ℕ) where
  pub held-insert :
      (p q : Pipe) (side : Bool) (j : ℕ)
      → get m id ≡ some p
      → held side (some p) ≡ held side (some q)
      → held side (get (insert m id q) j) ≡ held side (get m j)
  held-insert p q side j e same = ground (arith, get-insert m id q j)

  pub get-insert_self : (q : Pipe) → get (insert m id q) id ≡ some q
  get-insert_self q = ground (arith, get-insert m id q id)

  pub get-insert_ne : (q : Pipe) (j : ℕ) → id ≢ j → get (insert m id q) j ≡ get m j
  get-insert_ne q j h = ground (arith, get-insert m id q j)

  pub get-remove_self : get (remove m id) id ≡ none
  get-remove_self = ground (arith, get-remove m id id)

  pub get-remove_ne : (j : ℕ) → id ≢ j → get (remove m id) j ≡ get m j
  get-remove_ne j h = ground (arith, get-remove m id j)

-- Each pipe counts the ends that the table has of it, a pipe that is gone has none, and no pipe has a
-- number that is still to come.
pub record IsWired (v : Vfs) : Type 0 where
  pub counted : (side : Bool) (id : ℕ) → count side id v.files ≡ held side (get v.pipes id)
  pub fresh : (id : ℕ) → v.next_pipe_id ≤ id → get v.pipes id ≡ none

module _ {v : Vfs} (w : IsWired v) where
  -- A file that stands for what the one in its slot stands for.
  pub put_file-IsWired :
      (fd : ℤ) (g f : OpenFile)
      → file v fd ≡ ok g
      → g.special ≡ f.special
      → IsWired (put_file v fd f)
  put_file-IsWired (negsuc n) g f e same = w
  put_file-IsWired (pos n) g f e same = record {
    counted = λ side id.
        count-set_same side id v.files n g f (opened (entry v.files n) e) same ∙ w.counted side id;
    fresh = w.fresh;
  }
    where
      opened : (o : Option OpenFile) → ok_or o invalid_fd ≡ ok g → o ≡ some g
      opened none e = cc
      opened (some h) e = cc

  -- What is not the end of a pipe, in an empty slot.
  pub put_entry-IsWired :
      (slot : ℕ) (f : Option OpenFile)
      → slot < length v.files
      → ((side : Bool) (id : ℕ) → ends_of side id (entry v.files slot) ≡ ends_of side id f)
      → IsWired (put_entry v slot f)
  put_entry-IsWired slot f h same = record {
    counted = λ side id.
        omega (arith, count-set side id v.files slot f h, same side id, w.counted side id);
    fresh = w.fresh;
  }

  -- A pipe with other bytes in it.
  pub put_pipe-IsWired :
      (id : ℕ) (p : Pipe) (buf : List ℕ)
      → get v.pipes id ≡ some p
      → IsWired (put_pipe v id (record p { buf = buf }))
  put_pipe-IsWired id p buf e = record {
    counted = λ side j.
        w.counted side j
        ∙ sym (held-insert v.pipes id p (record p { buf = buf }) side j e (kept side));
    fresh = λ j h.
        get-insert_ne v.pipes id (record p { buf = buf }) j
          (λ same. let gone : get v.pipes id ≡ none = w.fresh id (omega (arith, same, h)) in cc)
        ∙ w.fresh j h;
  }
    where
      kept : (side : Bool) → held side (some p) ≡ held side (some (record p { buf = buf }))
      kept true = refl
      kept false = refl

  pub read_pipe-IsWired : (id n : ℕ) → IsWired (read_pipe v id n).1
  unfolding read_pipe
  read_pipe-IsWired id n = elim (Option-cases (get v.pipes id)) [
    | inl none_there ↦ rw none_there (ground arith)
    | inr (p, there) ↦ rw there (ground (arith, put_pipe-IsWired id p (pop_bytes n p.buf).1 there))
  ]

  pub write_pipe-IsWired : (id : ℕ) (bytes : List ℕ) → IsWired (write_pipe v id bytes).1
  unfolding write_pipe
  write_pipe-IsWired id [] = w
  write_pipe-IsWired id (b ∷ bytes) = elim (Option-cases (get v.pipes id)) [
    | inl none_there ↦ rw none_there w
    | inr (p, there) ↦
        rw there (
          ground
            (arith, put_pipe-IsWired id p (push_bytes p.buf (take (room p) (b ∷ bytes))) there))
  ]
    where
      room : Pipe → ℕ
      room p = min (length (b ∷ bytes)) (pipe_capacity - length p.buf)

-- The table that a mounted file system starts with.
pub mount-IsWired : IsWired mount
unfolding mount count get
mount-IsWired = record { counted = counted; fresh = λ id h. refl }
  where
    counted : (side : Bool) (id : ℕ) → count side id mount.files ≡ held side (get mount.pipes id)
    counted true id = refl
    counted false id = refl
