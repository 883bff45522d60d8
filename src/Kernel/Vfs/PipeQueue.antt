-- ===== src/Kernel/Vfs/PipeQueue.antt =====
-- The pipes of kernel/vfs.rs as queues: what readers receive, what writers hand in, and what stays.
use theos.Base.{
  ℕ, zero, suc, ◌-◌, ◌≤◌, ◌≡◌, refl, suc_not_zero, ap, sym, ◌∙◌, arith, min, leb, Bool-cases, inl,
  inr, false, List, [], ◌∷◌, ◌++◌, length, take, length-append, length-take, append_assoc,
  append_nil, some, Result, ok, err,
}
use theos.Base.Maps.{get, get-insert}
use theos.Kernel.Vfs.{Vfs, VfsError, Pipe, pipe_capacity}
use theos.Kernel.Vfs.Pipes.{pop_bytes, push_bytes, read_pipe, write_pipe, put_pipe}

pop_bytes-append : (n : ℕ) (buf : List ℕ) → (pop_bytes n buf).0 ++ (pop_bytes n buf).1 ≡ buf
unfolding pop_bytes
pop_bytes-append zero buf = refl
pop_bytes-append (suc n) [] = refl
pop_bytes-append (suc n) (b ∷ buf) = ap (◌∷◌ b) (pop_bytes-append n buf)

push_bytes-append : (buf bytes : List ℕ) → push_bytes buf bytes ≡ buf ++ bytes
unfolding push_bytes
push_bytes-append buf [] = sym (append_nil buf)
push_bytes-append buf (b ∷ bytes) =
    push_bytes-append (buf ++ b ∷ []) bytes ∙ append_assoc buf (b ∷ []) bytes

length-pop_bytes : (n : ℕ) (buf : List ℕ) → length (pop_bytes n buf).1 ≤ length buf
unfolding pop_bytes
length-pop_bytes zero buf = omega arith
length-pop_bytes (suc n) [] = omega arith
length-pop_bytes (suc n) (b ∷ buf) = omega (arith, length-pop_bytes n buf)

-- What a read gives, and what a write takes of the bytes it is given.
abbrev pub received : Result VfsError (List ℕ) → List ℕ
received (ok bytes) = bytes
received (err e) = []

abbrev pub accepted : List ℕ → Result VfsError ℕ → List ℕ
accepted bytes (ok n) = take n bytes
accepted bytes (err e) = []

pub data PipeCall : Type 0 where
  receive : ℕ → PipeCall
  send : List ℕ → PipeCall

-- Calls in the order in which they come, with all that was received and all that was accepted.
unfoldable pub run : Vfs → ℕ → List PipeCall → (List ℕ × List ℕ) × Vfs
run v id [] = (([], []), v)
run v id (receive n ∷ calls) =
    let (r, v') = read_pipe v id n in
    let ((got, sent), u) = run v' id calls in ((received r ++ got, sent), u)
run v id (send bytes ∷ calls) =
    let (r, v') = write_pipe v id bytes in
    let ((got, sent), u) = run v' id calls in ((got, accepted bytes r ++ sent), u)

abbrev pub pipe_of : List ℕ → ℕ → ℕ → Pipe
pipe_of buf readers writers = record { buf = buf; readers = readers; writers = writers }

-- A pipe holds a queue, within its capacity.
pub data Holds (v : Vfs) (id : ℕ) (queue : List ℕ) : Type 0 where
  holds :
      (readers writers : ℕ)
      → get v.pipes id ≡ some (pipe_of queue readers writers)
      → length queue ≤ pipe_capacity
      → Holds v id queue

get-put_pipe : (v : Vfs) (id : ℕ) (p : Pipe) → get (put_pipe v id p).pipes id ≡ some p
get-put_pipe v id p = grind (arith, get-insert v.pipes id p id)

data AfterRead (x : Result VfsError (List ℕ) × Vfs) (id : ℕ) (queue : List ℕ) : Type 0 where
  after_read :
      (rest : List ℕ) → Holds x.1 id rest → received x.0 ++ rest ≡ queue → AfterRead x id queue

read_after :
    (v : Vfs) (id n : ℕ) (buf : List ℕ) (r w : ℕ)
    → get v.pipes id ≡ some (pipe_of buf r w)
    → length buf ≤ pipe_capacity
    → AfterRead (read_pipe v id n) id buf
unfolding read_pipe pop_bytes
read_after v id zero buf r w e h = after_read buf (holds r w e h) refl
read_after v id (suc n) [] r zero e h =
    rw (suc_not_zero n, e) (after_read [] (holds r zero e h) refl)
read_after v id (suc n) [] r (suc w) e h =
    rw (suc_not_zero n, e, suc_not_zero w) (after_read [] (holds r (suc w) e h) refl)
read_after v id (suc n) (b ∷ buf) r w e h =
    rw (suc_not_zero n, e)
      (after_read (pop_bytes n buf).1
        (holds r w (get-put_pipe v id (pipe_of (pop_bytes n buf).1 r w))
          (omega (arith, length-pop_bytes n buf)))
        (ap (◌∷◌ b) (pop_bytes-append n buf)))

data AfterWrite (x : Result VfsError ℕ × Vfs) (bytes : List ℕ) (id : ℕ) (queue : List ℕ)
    : Type 0 where
  after_write :
      (rest : List ℕ)
      → Holds x.1 id rest
      → rest ≡ queue ++ accepted bytes x.0
      → AfterWrite x bytes id queue

room_of : List ℕ → List ℕ → ℕ
room_of bytes buf = min (length bytes) (pipe_capacity - length buf)

pushed :
    (v : Vfs) (id : ℕ) (bytes buf : List ℕ) (r w : ℕ)
    → leb pipe_capacity (length buf) ≡ false
    → AfterWrite
        (
          ok (room_of bytes buf),
          put_pipe v id (pipe_of (push_bytes buf (take (room_of bytes buf) bytes)) r w),
        )
        bytes
        id
        buf
unfolding room_of
pushed v id bytes buf r w room =
    let taken = take (room_of bytes buf) bytes in
    let written = push_bytes-append buf taken in
    after_write (push_bytes buf taken)
      (holds r w (get-put_pipe v id (pipe_of (push_bytes buf taken) r w)) (
        rw written
          (ground (arith, length-append buf taken, length-take (room_of bytes buf) bytes))))
      written

write_after :
    (v : Vfs) (id : ℕ) (bytes buf : List ℕ) (r w : ℕ)
    → get v.pipes id ≡ some (pipe_of buf r w)
    → length buf ≤ pipe_capacity
    → AfterWrite (write_pipe v id bytes) bytes id buf
unfolding write_pipe room_of
write_after v id [] buf r w e h = after_write buf (holds r w e h) (sym (append_nil buf))
write_after v id (b ∷ bytes) buf zero w e h =
    rw e (after_write buf (holds zero w e h) (sym (append_nil buf)))
write_after v id (b ∷ bytes) buf (suc r) w e h =
    elim (Bool-cases (leb pipe_capacity (length buf))) [
      | inl full ↦
          rw (e, suc_not_zero r, full)
            (after_write buf (holds (suc r) w e h) (sym (append_nil buf)))
      | inr room ↦ rw (e, suc_not_zero r, room) (pushed v id (b ∷ bytes) buf (suc r) w room)
    ]

received_first :
    (x got rest' rest sent queue : List ℕ)
    → x ++ rest ≡ queue
    → got ++ rest' ≡ rest ++ sent
    → (x ++ got) ++ rest' ≡ queue ++ sent
received_first x got rest' rest sent queue same later =
    append_assoc x got rest'
    ∙ ap (λ q. x ++ q) later
    ∙ sym (append_assoc x rest sent)
    ∙ ap (λ q. q ++ sent) same

accepted_first :
    (x got rest' rest sent queue : List ℕ)
    → rest ≡ queue ++ x
    → got ++ rest' ≡ rest ++ sent
    → got ++ rest' ≡ queue ++ (x ++ sent)
accepted_first x got rest' rest sent queue same later =
    later ∙ ap (λ q. q ++ sent) same ∙ append_assoc queue x sent

-- Whatever the calls on a pipe, readers receive what writers hand in, all of it and in that order,
-- but for what the pipe still holds; and it holds no more than its capacity.
pub pipe_fifo :
    (v : Vfs) (id : ℕ) (calls : List PipeCall) (queue : List ℕ)
    → Holds v id queue
    → let ((got, sent), u) = run v id calls in
      (rest : List ℕ) × (Holds u id rest) × (got ++ rest ≡ queue ++ sent)
unfolding run
pipe_fifo v id [] queue h = (queue, h, sym (append_nil queue))
pipe_fifo v id (receive n ∷ calls) queue (holds r w e bound) =
    elim (read_after v id n queue r w e bound) [
      | after_read rest h same ↦
          let (rest', h', later) = pipe_fifo (read_pipe v id n).1 id calls rest h in
          (
            rest',
            h',
            received_first (received (read_pipe v id n).0) (run (read_pipe v id n).1 id calls).0.0
                rest' rest (run (read_pipe v id n).1 id calls).0.1 queue same later,
          )
    ]
pipe_fifo v id (send bytes ∷ calls) queue (holds r w e bound) =
    elim (write_after v id bytes queue r w e bound) [
      | after_write rest h same ↦
          let (rest', h', later) = pipe_fifo (write_pipe v id bytes).1 id calls rest h in
          (
            rest',
            h',
            accepted_first (accepted bytes (write_pipe v id bytes).0)
                (run (write_pipe v id bytes).1 id calls).0.0 rest' rest
                (run (write_pipe v id bytes).1 id calls).0.1 queue same later,
          )
    ]
