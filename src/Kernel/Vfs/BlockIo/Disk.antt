-- ===== src/Kernel/Vfs/BlockIo/Disk.antt =====
-- What `read_at` and `write_at` of kernel/vfs.rs do to the bytes of a disk, whose firmware reads and writes whole
-- blocks and refuses a range that goes past the last one.
use theos.Base.{
  ℕ, zero, suc, ◌+◌, ◌-◌, ◌*◌, ◌/◌, ◌%◌, ◌≤◌, ◌<◌, ◌≡◌, refl, ap, sym, ◌∙◌, arith, inl, inr, List,
  length, take, drop, overwrite, length-take, length-drop, length-overwrite, true, false,
  Bool-cases, none, some, done, ok, err, ◌⊎◌, ◌==◌, ltb, leb, leb→le, le→leb, not-leb→lt,
}
use theos.Base.Ranges.{take-drop_inner, overwrite_inner}
use theos.Crabfs.Error.{io}
use native.Mathlib.Nat.{div-add-mod', mod-add-div', mul-mod_left, mul_assoc}
use theos.Kernel.Vfs.BlockIo.{
  BlockIo, uefi_page, div_ceil, buffer_len, read_range, read_at, write_at,
}
use theos.Kernel.Vfs.BlockIo.Ranges.{inside_buffer}

-- The firmware's calls on blocks of `b` bytes, over the bytes of the disk.
pub record IsDisk {D : Type 0} (dev : BlockIo D) (b : ℕ) (bytes : D → List ℕ) : Type 0 where
  pub reads :
      (d : D) (lba n : ℕ)
      → n % b ≡ 0
      → lba * b + n ≤ length (bytes d)
      → dev.read_blocks d lba n ≡ some (take n (drop (lba * b) (bytes d)))
  pub refuses :
      (d : D) (lba n : ℕ) → length (bytes d) < lba * b + n → dev.read_blocks d lba n ≡ none
  pub writes :
      (d : D) (lba : ℕ) (bs : List ℕ)
      → length bs % b ≡ 0
      → lba * b + length bs ≤ length (bytes d)
      → (d' : D) × (dev.write_blocks d lba bs ≡ (some tt, d'))
        × (bytes d' ≡ overwrite (bytes d) (lba * b) bs)

-- The blocks of a range, and the buffer for them.
abbrev pub blocks_of : ℕ → ℕ → ℕ → ℕ
blocks_of b offset len = div_ceil (offset + len) b - offset / b

abbrev pub whole_buffer : ℕ → ℕ → ℕ → ℕ
whole_buffer b offset len = buffer_len (blocks_of b offset len * b)

-- A request that is not empty, on blocks of which a page has a whole number, with 64 bits and memory enough.
pub record Asks {D : Type 0} (dev : BlockIo D) (b offset len : ℕ) : Type 0 where
  pub some_bytes : 0 < len
  pub in_page : (k : ℕ) × (k * b ≡ uefi_page)
  pub u64 : offset + len < 18446744073709551616
  pub memory : dev.allocate_pages (div_ceil (blocks_of b offset len * b) uefi_page) ≡ true

not_zero : (n : ℕ) → 0 < n → (n == 0) ≡ false
not_zero n pos = ground (arith, pos)

u64_ok : (n : ℕ) → n < 18446744073709551616 → ltb n 18446744073709551616 ≡ true
u64_ok n h = ground (arith, h)

module _ {D : Type 0} (dev : BlockIo D) (b : ℕ) (bytes : D → List ℕ) (disk : IsDisk dev b bytes)
    (offset len : ℕ) (a : Asks dev b offset len) where
  block_pos : 0 < b
  block_pos = positive b a.in_page.0 a.in_page.1
    where
      positive : (b k : ℕ) → k * b ≡ uefi_page → 0 < b
      positive zero k e = absurd (omega (arith, e))
      positive (suc b) k e = omega arith

  whole_blocks : whole_buffer b offset len % b ≡ 0
  whole_blocks =
      multiple (div_ceil (blocks_of b offset len * b) uefi_page) a.in_page.0 b a.in_page.1
    where
      multiple : (c k b : ℕ) → k * b ≡ uefi_page → c * uefi_page % b ≡ 0
      multiple c k b e =
          ap (λ x. c * x % b) (sym e)
          ∙ (ap (λ x. x % b) (sym (mul_assoc c k b)) ∙ mul-mod_left (c * k) b)

  read_range_inside :
      (d : D)
      → offset / b * b + whole_buffer b offset len ≤ length (bytes d)
      → read_range dev b d offset len
        ≡ done (ok (take (whole_buffer b offset len) (drop (offset / b * b) (bytes d))), d)
  read_range_inside d room =
      rw
        (
          not_zero b block_pos,
          u64_ok (offset + len) a.u64,
          a.memory,
          disk.reads d (offset / b) (whole_buffer b offset len) whole_blocks room,
        )
        refl

  read_range_past :
      (d : D)
      → length (bytes d) < offset / b * b + whole_buffer b offset len
      → read_range dev b d offset len ≡ done (err io, d)
  read_range_past d past =
      rw
        (
          not_zero b block_pos,
          u64_ok (offset + len) a.u64,
          a.memory,
          disk.refuses d (offset / b) (whole_buffer b offset len) past,
        )
        refl

  length-scratch :
      (d : D)
      → offset / b * b + whole_buffer b offset len ≤ length (bytes d)
      → length (take (whole_buffer b offset len) (drop (offset / b * b) (bytes d)))
        ≡ whole_buffer b offset len
  length-scratch d room = omega (
    arith,
    length-take (whole_buffer b offset len) (drop (offset / b * b) (bytes d)),
    length-drop (offset / b * b) (bytes d),
    room,
  )

  -- The range stands in the bytes that were read.
  in_scratch :
      (d : D)
      → offset / b * b + whole_buffer b offset len ≤ length (bytes d)
      → leb
          (offset % b + len)
          (length (take (whole_buffer b offset len) (drop (offset / b * b) (bytes d))))
        ≡ true
  in_scratch d room =
      le→leb _ _ (omega (arith, length-scratch d room, inside_buffer offset len b block_pos))

  pub read_at_inside :
      (d : D)
      → offset / b * b + whole_buffer b offset len ≤ length (bytes d)
      → read_at dev b d offset len ≡ done (ok (take len (drop offset (bytes d))), d)
  unfolding read_at
  read_at_inside d room =
      rw (not_zero len a.some_bytes, read_range_inside d room, in_scratch d room)
        (ap (λ bs. done (ok bs, d))
          (take-drop_inner (offset / b * b) (offset % b) len (whole_buffer b offset len) (bytes d)
              (inside_buffer offset len b block_pos)
            ∙ ap (λ o. take len (drop o (bytes d))) (div-add-mod' offset b)))

  pub read_at_past :
      (d : D)
      → length (bytes d) < offset / b * b + whole_buffer b offset len
      → read_at dev b d offset len ≡ done (err io, d)
  unfolding read_at
  read_at_past d past = rw (not_zero len a.some_bytes, read_range_past d past) refl

-- A `read_at` of some bytes, with memory for the buffer: when the blocks from the first one of the range to the
-- end of the buffer, which is made of whole pages, stand on the disk, the reply is the range of the disk's
-- bytes; when they do not, it is an error, even if the range itself stands on the disk.
pub read_at_lem :
    {D : Type 0} (dev : BlockIo D) (b : ℕ) (bytes : D → List ℕ) (d : D) (offset len : ℕ)
    → IsDisk dev b bytes
    → Asks dev b offset len
    → ((offset / b * b + whole_buffer b offset len ≤ length (bytes d))
        × (read_at dev b d offset len ≡ done (ok (take len (drop offset (bytes d))), d)))
      ⊎ ((length (bytes d) < offset / b * b + whole_buffer b offset len)
          × (read_at dev b d offset len ≡ done (err io, d)))
read_at_lem dev b bytes d offset len disk a =
    elim (Bool-cases (leb (offset / b * b + whole_buffer b offset len) (length (bytes d)))) [
      | inl fits ↦
          let room = leb→le _ _ fits in
          inl (room, read_at_inside dev b bytes disk offset len a d room)
      | inr other ↦
          let past = not-leb→lt _ _ other in
          inr (past, read_at_past dev b bytes disk offset len a d past)
    ]

module _ {D : Type 0} (dev : BlockIo D) (b : ℕ) (bytes : D → List ℕ) (disk : IsDisk dev b bytes)
    (offset : ℕ) (bs : List ℕ) (a : Asks dev b offset (length bs)) (d : D) where
  write_at_inside :
      offset / b * b + whole_buffer b offset (length bs) ≤ length (bytes d)
      → (d' : D) × (write_at dev b d offset bs ≡ done (ok tt, d'))
        × (bytes d' ≡ overwrite (bytes d) offset bs)
  unfolding write_at
  write_at_inside room =
      let start = offset / b * b in
      let whole = whole_buffer b offset (length bs) in
      let scratch = take whole (drop start (bytes d)) in
      let changed = overwrite scratch (offset % b) bs in
      let size : length changed ≡ whole =
        length-overwrite scratch (offset % b) bs
        ∙ length-scratch dev b bytes disk offset (length bs) a d room in
      let (d', e, now) =
        disk.writes d (offset / b) changed
          (ap (λ n. n % b) size ∙ whole_blocks dev b bytes disk offset (length bs) a)
          (omega (arith, size, room)) in
      (
        d',
        rw
            (
              not_zero (length bs) a.some_bytes,
              read_range_inside dev b bytes disk offset (length bs) a d room,
              in_scratch dev b bytes disk offset (length bs) a d room,
              e,
            )
            refl,
        now
            ∙ (overwrite_inner start (offset % b) whole (bytes d) bs (
                  inside_buffer offset (length bs) b
                    (block_pos dev b bytes disk offset (length bs) a))
                ∙ ap (λ o. overwrite (bytes d) o bs) (mod-add-div' offset b)),
      )

  write_at_past :
      length (bytes d) < offset / b * b + whole_buffer b offset (length bs)
      → write_at dev b d offset bs ≡ done (err io, d)
  unfolding write_at
  write_at_past past =
      rw
        (
          not_zero (length bs) a.some_bytes,
          read_range_past dev b bytes disk offset (length bs) a d past,
        )
        refl

-- A `write_at` of some bytes, with memory for the buffer: when the blocks to the end of the buffer stand on the
-- disk, the range of the disk is overwritten and nothing else; when they do not, the reply is an error and
-- the disk is as it was.
pub write_at_lem :
    {D : Type 0} (dev : BlockIo D) (b : ℕ) (bytes : D → List ℕ) (d : D) (offset : ℕ) (bs : List ℕ)
    → IsDisk dev b bytes
    → Asks dev b offset (length bs)
    → ((offset / b * b + whole_buffer b offset (length bs) ≤ length (bytes d))
        × ((d' : D) × (write_at dev b d offset bs ≡ done (ok tt, d'))
            × (bytes d' ≡ overwrite (bytes d) offset bs)))
      ⊎ ((length (bytes d) < offset / b * b + whole_buffer b offset (length bs))
          × (write_at dev b d offset bs ≡ done (err io, d)))
write_at_lem dev b bytes d offset bs disk a =
    elim (Bool-cases
      (leb (offset / b * b + whole_buffer b offset (length bs)) (length (bytes d)))) [
        | inl fits ↦
            let room = leb→le _ _ fits in
            inl (room, write_at_inside dev b bytes disk offset bs a d room)
        | inr other ↦
            let past = not-leb→lt _ _ other in
            inr (past, write_at_past dev b bytes disk offset bs a d past)
      ]
