-- ===== src/Crabfs/Tests/Blocks.antt =====
-- Checksums, extents and directories at concrete values.
use theos.Crabfs.Endian.{be_u32}
use theos.Base.{
  length, ◌≤◌, ◌⊎◌, ◌+◌, true, false, leb, panic, ℕ, List, [], ◌∷◌, replicate, done, ok, ◌>>=◌,
}
use theos.Base.{◌≡◌, ◌-◌, refl, arith}
use theos.Crabfs.Crc.{Sealed, write_xfs_crc-Sealed, crc32c}
use theos.Crabfs.Endian.Total.{IsTotal}
use theos.Crabfs.OnDisk.Bmap.{parse, serialize_bmap_extent, parse-serialize_bmap_extent}
use theos.Crabfs.ExtentDir.{Memory, PackedEntry, extent_payload, parse_extent_dir_entries}
use theos.Crabfs.ExtentDir.Pack.{AllFit}
use theos.Crabfs.ExtentDir.Read.{parse-extent_payload}
use theos.Crabfs.ExtentDir.Total.{parse_extent_dir_entries_lem}

-- The check value of CRC-32C: the sum of "123456789".
crc32c_check :
    crc32c 0xffffffff (49 ∷ 50 ∷ 51 ∷ 52 ∷ 53 ∷ 54 ∷ 55 ∷ 56 ∷ 57 ∷ []) ≡ 0xffffffff - 0xe3069283
unfolding crc32c
crc32c_check = refl

write_xfs_crc-Sealed_example : Sealed (replicate 40 9) 20
write_xfs_crc-Sealed_example = write_xfs_crc-Sealed (replicate 40 9) 20 (omega arith)

parse-serialize_bmap_extent_example :
    (serialize_bmap_extent (replicate 16 0) 3 8796093022209 4 >>= parse)
    ≡ done (ok (record { state = 0; startoff = 3; startblock = 8796093022209; blockcount = 4 }))
parse-serialize_bmap_extent_example =
    parse-serialize_bmap_extent 3 8796093022209 4 (omega arith) (omega arith) (omega arith)
      (replicate 16 0) (omega arith)

abbrev entries : List PackedEntry
entries =
    record { name = 97 ∷ []; inode_index = 1; ftype = 1 }
    ∷ record { name = 98 ∷ 99 ∷ []; inode_index = 2; ftype = 2 }
    ∷ []

entries-AllFit : AllFit 64 entries
entries-AllFit = (
  record { name_u16 = omega arith; ino_u64 = omega arith },
  (record { name_u16 = omega arith; ino_u64 = omega arith }, tt),
)

parse-extent_payload_example :
    (bytes : List ℕ) × ((extent_payload 64 0 entries ≡ ok bytes)
      × (parse_extent_dir_entries (λ n. true) (λ name. name) bytes 64
          ≡ done (
              ok (
                record { ino = 64; name = 46 ∷ []; ftype = 2 }
                ∷ record { ino = 64; name = 46 ∷ 46 ∷ []; ftype = 2 }
                ∷ record { ino = 65; name = 97 ∷ []; ftype = 1 }
                ∷ record { ino = 66; name = 98 ∷ 99 ∷ []; ftype = 2 }
                ∷ []))))
parse-extent_payload_example =
    parse-extent_payload 64 0 entries entries-AllFit (omega arith) (omega arith) (λ n. true)
      (λ name. name) 64 refl (refl, (refl, tt))

-- Memory for a thousand entries, and a count of 2 ^ 32 - 1.
abbrev little : Memory
little n = leb n 1000

parse_extent_dir_entries_lem_example :
    IsTotal (parse_extent_dir_entries little (λ name. name) (replicate 30 255) 64)
    ⊎ ((20 ≤ length (replicate {A = ℕ} 30 255))
        × (count : ℕ) × (be_u32 (replicate 30 255) 8 ≡ done count)
        × (little (count + 2) ≡ false)
        × (parse_extent_dir_entries little (λ name. name) (replicate 30 255) 64 ≡ panic))
parse_extent_dir_entries_lem_example =
    parse_extent_dir_entries_lem little (λ name. name) (replicate 30 255) 64
