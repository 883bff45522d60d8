-- ===== src/Kernel/Vfs/BlockIo.antt =====
-- The block device of the firmware in kernel/vfs.rs: `UefiBlockDevice` and its `BlockDevice` calls, over the
-- firmware's calls, which are the interface `BlockIo`. What a call puts into a buffer is its result; sums
-- and products of sizes are taken without overflow of 64 bits behind the check of the source.
pub mod Ranges
pub mod Disk
use theos.Base.{
  ℕ, suc, ◌+◌, ◌-◌, ◌*◌, ◌/◌, ◌%◌, List, [], length, Bool, true, false, Option, none, some, Exec,
  done, panic, ◌>>=◌, Result, ok, err, try, ok_or, slice, write, ◌==◌, leb, ltb, if◌then◌else◌,
}
use theos.Crabfs.Error.{DeviceError, io}

-- `allocate_pages`, `read_blocks` and `write_blocks` of the firmware; `none` is a status that is not success.
pub record BlockIo (D : Type 0) : Type 0 where
  pub allocate_pages : ℕ → Bool
  pub read_blocks : D → ℕ → ℕ → Option (List ℕ)
  pub write_blocks : D → ℕ → List ℕ → Option (Unit {0}) × D

abbrev pub uefi_page : ℕ
uefi_page = 4096

-- `div_ceil`
abbrev pub div_ceil : ℕ → ℕ → ℕ
div_ceil n d = (n + (d - 1)) / d

-- The length of the buffer that `UefiAlignedBuffer::new` makes for `len` bytes.
abbrev pub buffer_len : ℕ → ℕ
buffer_len len = div_ceil len uefi_page * uefi_page

abbrev pub checked_add : ℕ → ℕ → Result DeviceError ℕ
checked_add a b = if ltb (a + b) 18446744073709551616 then ok (a + b) else err io

module _ {D : Type 0} (dev : BlockIo D) (block_size : ℕ) where
  abbrev pub new_buffer : ℕ → Result DeviceError ℕ
  new_buffer len =
      if dev.allocate_pages (div_ceil len uefi_page) then ok (buffer_len len) else err io

  -- The bytes of the blocks of a range, to the end of the buffer.
  abbrev pub read_range : D → ℕ → ℕ → Exec (Result DeviceError (List ℕ) × D)
  read_range d offset len =
      if block_size == 0
      then panic
      else try (checked_add offset len) d λ end_at.
        let block_count = div_ceil end_at block_size - offset / block_size in
        try (new_buffer (block_count * block_size)) d
          λ n. done (ok_or (dev.read_blocks d (offset / block_size) n) io, d)

  unfoldable pub read_at : D → ℕ → ℕ → Exec (Result DeviceError (List ℕ) × D)
  read_at d offset len =
      if len == 0
      then done (ok [], d)
      else read_range d offset len >>= λ r.
          try r.0 d
            λ scratch. slice scratch (offset % block_size) len >>= λ bytes. done (ok bytes, d)

  unfoldable pub write_at : D → ℕ → List ℕ → Exec (Result DeviceError (Unit {0}) × D)
  write_at d offset bytes =
      if length bytes == 0
      then done (ok tt, d)
      else read_range d offset (length bytes) >>= λ r. try r.0 d λ scratch.
        write scratch (offset % block_size) bytes >>= λ changed.
        let w = dev.write_blocks d (offset / block_size) changed in done (ok_or w.0 io, w.1)
