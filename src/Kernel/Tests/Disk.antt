-- ===== src/Kernel/Tests/Disk.antt =====
-- A read and a write of some bytes in the middle of a block.
use theos.Base.{
  ℕ, ◌+◌, ◌*◌, ◌/◌, ◌≤◌, ◌<◌, ◌≡◌, ◌⊎◌, refl, arith, List, [], ◌∷◌, length, take, drop, overwrite,
  replicate, true, none, some, done, ok, err, leb, le→leb, lt→not-leb, if◌then◌else◌,
}
use theos.Crabfs.Error.{io}
use theos.Kernel.Vfs.BlockIo.{BlockIo, read_at, write_at}
use theos.Kernel.Vfs.BlockIo.Disk.{IsDisk, Asks, whole_buffer, read_at_lem, write_at_lem}

-- A firmware with enough memory, over a list of bytes.
abbrev firmware : BlockIo (List ℕ)
firmware = record {
  allocate_pages = λ n. true;
  read_blocks = λ d lba n.
      if leb (lba * 512 + n) (length d) then some (take n (drop (lba * 512) d)) else none;
  write_blocks = λ d lba bs.
      if leb (lba * 512 + length bs) (length d)
      then (some tt, overwrite d (lba * 512) bs)
      else (none, d);
}

abbrev bytes_of : List ℕ → List ℕ
bytes_of d = d

firmware-IsDisk : IsDisk firmware 512 bytes_of
firmware-IsDisk = record {
  reads = λ d lba n whole room. rw (le→leb _ _ room) refl;
  refuses = λ d lba n past. rw (lt→not-leb _ _ past) refl;
  writes = λ d lba bs whole room. (overwrite d (lba * 512) bs, rw (le→leb _ _ room) refl, refl);
}

-- Sixteen blocks.
abbrev disk : List ℕ
disk = replicate 8192 0

asks : (len : ℕ) → 0 < len → len < 100 → Asks firmware 512 700 len
asks len some_bytes few = record {
  some_bytes = some_bytes;
  in_page = (8, refl);
  u64 = omega (arith, few);
  memory = refl;
}

read_at_lem_example :
    ((700 / 512 * 512 + whole_buffer 512 700 5 ≤ length (bytes_of disk))
      × (read_at firmware 512 disk 700 5 ≡ done (ok (take 5 (drop 700 (bytes_of disk))), disk)))
    ⊎ ((length (bytes_of disk) < 700 / 512 * 512 + whole_buffer 512 700 5)
        × (read_at firmware 512 disk 700 5 ≡ done (err io, disk)))
read_at_lem_example =
    read_at_lem firmware 512 bytes_of disk 700 5 firmware-IsDisk
      (asks 5 (omega arith) (omega arith))

abbrev three : List ℕ
three = 1 ∷ 2 ∷ 3 ∷ []

write_at_lem_example :
    ((700 / 512 * 512 + whole_buffer 512 700 (length three) ≤ length (bytes_of disk))
      × ((d' : List ℕ) × (write_at firmware 512 disk 700 three ≡ done (ok tt, d'))
          × (bytes_of d' ≡ overwrite (bytes_of disk) 700 three)))
    ⊎ ((length (bytes_of disk) < 700 / 512 * 512 + whole_buffer 512 700 (length three))
        × (write_at firmware 512 disk 700 three ≡ done (err io, disk)))
write_at_lem_example =
    write_at_lem firmware 512 bytes_of disk 700 three firmware-IsDisk
      (asks 3 (omega arith) (omega arith))
