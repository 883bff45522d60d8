-- ===== src/Kernel/Vfs/KeptCounts.antt =====
-- Each call on kernel/vfs.rs keeps the counts of the pipes, and uses one number of a pipe at most.
use theos.Base.{
  ℕ, ◌+◌, ◌≤◌, ◌<◌, ◌≡◌, refl, subst, arith, true, Option, none, some, List, [], ◌∷◌, length, Exec,
  done, panic, ◌>>=◌, Result, ok, err, attempt, try, Bool-cases, inl, inr,
}
use theos.Base.Int.{ℤ, pos, negsuc}
use theos.Base.Text.{Bytes, codes}
use theos.Kernel.Vfs.{standard}
use theos.Kernel.Vfs.Paths.{normalize_path, str_eq_lit}
use theos.Kernel.Vfs.Lookup.{lookup_path_inner, max_depth}
use theos.Kernel.Vfs.Ends.{entry_bound}
use theos.Kernel.Vfs.{
  FileSystem, Vfs, VfsError, OpenFile, SpecialFd, stdin, stdout, stderr, tty, null_device,
  pipe_read, pipe_write, entry, file, put_file,
}
use theos.Kernel.Vfs.Files.{
  Console, open_special, open_path, special_named, regular, place, read, read_special, advance,
  fill_from, write, write_special, lseek, seek_target, seek_to, close,
}
use theos.Kernel.Vfs.Pipes.{read_pipe, write_pipe}
use theos.Kernel.Vfs.Dup.{clone_handle, clone_entry, one_more}
use theos.Kernel.Vfs.Wired.{
  IsWired, put_file-IsWired, put_entry-IsWired, read_pipe-IsWired, write_pipe-IsWired,
}
use theos.Kernel.Vfs.Closing.{close-IsWired}
use theos.Kernel.Vfs.Creating.{IsPlain, place-IsWired, create_pipe-IsWired}
use theos.Kernel.Vfs.Calls.{
  Call, open_call, read_call, write_call, lseek_call, close_call, pipe_call, clone_call,
  fd_flags_call, status_flags_call, dir_offset_call, after, run,
}
use theos.Kernel.Vfs.Kept.{
  Kept, kept, KeptBy, KeptAfter, without_result, done_inj, next-create_pipe, next-read_pipe,
  next-write_pipe, next-place, next-close, special_named-plain, none-plain,
}

module _ (fs : FileSystem) {v : Vfs} (w : IsWired v) where
  put_file-Kept :
      (fd : ℤ) (g f : OpenFile)
      → file v fd ≡ ok g
      → g.special ≡ f.special
      → Kept v (put_file v fd f)
  put_file-Kept (pos n) g f e same = kept (put_file-IsWired w (pos n) g f e same) (omega arith)
  put_file-Kept (negsuc n) g f e same =
      kept (put_file-IsWired w (negsuc n) g f e same) (omega arith)

  same-Kept : Kept v v
  same-Kept = kept w (omega arith)

  read_pipe-Kept : (id n : ℕ) → Kept v (read_pipe v id n).1
  read_pipe-Kept id n = kept (read_pipe-IsWired w id n) (next-read_pipe v id n)

  write_pipe-Kept : (id : ℕ) (bytes : List ℕ) → Kept v (write_pipe v id bytes).1
  write_pipe-Kept id bytes = kept (write_pipe-IsWired w id bytes) (next-write_pipe v id bytes)

  advance-Kept :
      (fd : ℤ) (of : OpenFile)
      → file v fd ≡ ok of
      → (r : Exec (Result VfsError (List ℕ))) → KeptBy v (advance v fd of r)
  advance-Kept fd of e panic = tt
  advance-Kept fd of e (done (err x)) = same-Kept
  advance-Kept fd of e (done (ok bytes)) = put_file-Kept fd of _ e refl

  read_special-Kept :
      (con : Console) (fd : ℤ) (of : OpenFile)
      → file v fd ≡ ok of
      → (special : Option SpecialFd) (n : ℕ) → KeptBy v (read_special fs con v fd of special n)
  read_special-Kept con fd of e (some null_device) n = same-Kept
  read_special-Kept con fd of e (some stdin) n = same-Kept
  read_special-Kept con fd of e (some tty) n = same-Kept
  read_special-Kept con fd of e (some (pipe_read id)) n = read_pipe-Kept id n
  read_special-Kept con fd of e (some (pipe_write id)) n = same-Kept
  read_special-Kept con fd of e (some stdout) n =
      advance-Kept fd of e (fill_from fs of.ino of.offset n)
  read_special-Kept con fd of e (some stderr) n =
      advance-Kept fd of e (fill_from fs of.ino of.offset n)
  read_special-Kept con fd of e none n = advance-Kept fd of e (fill_from fs of.ino of.offset n)

  read-Kept : (con : Console) (fd : ℤ) (n : ℕ) → KeptBy v (read fs con v fd n)
  unfolding read
  read-Kept con fd n = on_file (file v fd) refl
    where
      on_file :
          (r : Result VfsError OpenFile)
          → file v fd ≡ r
          → KeptBy v (try r v (λ of. read_special fs con v fd of of.special n))
      on_file (err x) e = same-Kept
      on_file (ok of) e = read_special-Kept con fd of e of.special n

  write_special-Kept :
      (special : Option SpecialFd) (bytes : List ℕ) → Kept v (write_special v special bytes).1
  write_special-Kept (some (pipe_write id)) bytes = write_pipe-Kept id bytes
  write_special-Kept (some stdin) bytes = same-Kept
  write_special-Kept (some stdout) bytes = same-Kept
  write_special-Kept (some stderr) bytes = same-Kept
  write_special-Kept (some tty) bytes = same-Kept
  write_special-Kept (some null_device) bytes = same-Kept
  write_special-Kept (some (pipe_read id)) bytes = same-Kept
  write_special-Kept none bytes = same-Kept

  -- A call on a descriptor, which has an error when there is none.
  on_file-Kept :
      {B : Type 0} (fd : ℤ) (k : OpenFile → Result VfsError B × Vfs)
      → ((of : OpenFile) → file v fd ≡ ok of → Kept v (k of).1)
      → Kept v (attempt (file v fd) v k).1
  on_file-Kept {B} fd k h = on_result (file v fd) refl
    where
      on_result : (r : Result VfsError OpenFile) → file v fd ≡ r → Kept v (attempt r v k).1
      on_result (err x) e = same-Kept
      on_result (ok of) e = h of e

  write-Kept : (fd : ℤ) (bytes : List ℕ) → Kept v (write v fd bytes).1
  unfolding write
  write-Kept fd bytes = on_file-Kept fd _ (λ of e. write_special-Kept of.special bytes)

  seek_to-Kept :
      (fd : ℤ) (of : OpenFile)
      → file v fd ≡ ok of
      → (target : Result VfsError ℤ) → Kept v (attempt target v (seek_to fs v fd of)).1
  seek_to-Kept fd of e (err x) = same-Kept
  seek_to-Kept fd of e (ok (negsuc n)) = same-Kept
  seek_to-Kept fd of e (ok (pos n)) = put_file-Kept fd of _ e refl

  lseek-Kept : (fd offset : ℤ) (whence : ℕ) → Kept v (lseek fs v fd offset whence).1
  unfolding lseek
  lseek-Kept fd offset whence =
      on_file-Kept fd _ (λ of e. seek_to-Kept fd of e (seek_target fs of offset whence))

  place-Kept : (f : OpenFile) → IsPlain f → Kept v (place v f).1
  place-Kept f plain = kept (place-IsWired w f plain) (next-place v f)

  open_path-Kept : (path : Bytes) (flags : ℤ) → Kept v (open_path fs v path flags).1
  unfolding open_path
  open_path-Kept path flags =
      elim (Bool-cases (str_eq_lit path (codes "/usr/etc/ld-musl-x86_64.path"))) [
        | inl refused ↦ rw refused same-Kept
        | inr other ↦ rw other (on_special (special_named path) refl)
      ]
    where
      found :
          (r : Result VfsError ℕ)
          → Kept v (attempt r v (λ ino. place v (regular ino (normalize_path path) flags))).1
      found (err x) = same-Kept
      found (ok ino) = place-Kept (regular ino (normalize_path path) flags) none-plain

      on_special :
          (o : Option SpecialFd)
          → special_named path ≡ o
          → Kept v (open_special fs v path flags o).1
      on_special none e = found (lookup_path_inner fs true max_depth (normalize_path path))
      on_special (some special) e =
          place-Kept (record (standard path special) { status_flags = flags })
            (λ side id. special_named-plain path special e side id)

  close-Kept : (fd : ℤ) → Kept v (close v fd).1
  close-Kept fd = kept (close-IsWired w fd) (next-close v fd)

  clone_handle-Kept : (fd : ℤ) → Kept v (clone_handle v fd).1
  unfolding clone_handle
  clone_handle-Kept (negsuc n) = same-Kept
  clone_handle-Kept (pos n) = on_entry (entry v.files n) refl
    where
      on_entry : (o : Option OpenFile) → entry v.files n ≡ o → Kept v (clone_entry v (pos n) n o).1
      on_entry none e = same-Kept
      on_entry (some f) e =
          kept
            (put_entry-IsWired w n (some (record f { refs = one_more f.refs }))
              (entry_bound v.files n e) (λ s j. rw e refl))
            (omega arith)

  -- Every call. The numbers of pipes are u32, and do not wrap.
  after-Kept : v.next_pipe_id + 1 < 4294967296 → (c : Call) → KeptAfter v (after fs v c)
  unfolding after
  after-Kept h (open_call path flags) = open_path-Kept path flags
  after-Kept h (read_call con fd n) = without_result v (read fs con v fd n) (read-Kept con fd n)
  after-Kept h (write_call fd bytes) = write-Kept fd bytes
  after-Kept h (lseek_call fd offset whence) = lseek-Kept fd offset whence
  after-Kept h (close_call fd) = close-Kept fd
  after-Kept h pipe_call = kept (create_pipe-IsWired w h) (next-create_pipe v h)
  after-Kept h (clone_call fd) = clone_handle-Kept fd
  after-Kept h (fd_flags_call fd flags) = on_file-Kept fd _ (λ of e. put_file-Kept fd of _ e refl)
  after-Kept h (status_flags_call fd flags) =
      on_file-Kept fd _ (λ of e. put_file-Kept fd of _ e refl)
  after-Kept h (dir_offset_call fd off) = on_file-Kept fd _ (λ of e. put_file-Kept fd of _ e refl)

and_then_IsWired :
    (fs : FileSystem) (calls : List Call) (v u : Vfs) (x : Exec Vfs)
    → KeptAfter v x
    → ((u' : Vfs)
        → IsWired u'
        → u'.next_pipe_id ≤ v.next_pipe_id + 1
        → run fs u' calls ≡ done u
        → IsWired u)
    → (x >>= λ u'. run fs u' calls) ≡ done u
    → IsWired u
and_then_IsWired fs calls v u panic k rest e = cc
and_then_IsWired fs calls v u (done u') (kept w h) rest e = rest u' w h e

-- Whatever calls are made, in whatever order and with whatever results, from a table whose pipes count
-- their ends right: the pipes that are there count the descriptors of their reading and of their
-- writing end, and those that are gone have none. The calls are all but the copies of descriptors, and
-- the numbers of pipes, u32, do not run out.
pub run-IsWired :
    (fs : FileSystem) (calls : List Call) (v u : Vfs)
    → IsWired v
    → v.next_pipe_id + length calls < 4294967296
    → run fs v calls ≡ done u
    → IsWired u
unfolding run
run-IsWired fs [] v u w h e = subst IsWired (done_inj e) w
run-IsWired fs (c ∷ calls) v u w h e =
    and_then_IsWired fs calls v u (after fs v c) (after-Kept fs w (omega arith) c)
      (λ u' w' h' e'. run-IsWired fs calls u' u w' (omega arith) e') e
