-- ===== src/Crabfs/Tests/ShortDir.antt =====
-- Directories inside their inodes at concrete values.
use theos.Base.{some}
use theos.Crabfs.ExtentDir.{bytes_eq}
use theos.Crabfs.ShortDir.{find_short}
use theos.Crabfs.ShortDir.Find.{find-short_payload}
use theos.Base.{ℕ, zero, suc, List, [], ◌∷◌, ◌++◌, true, replicate, done, ok, ◌≡◌, refl, arith}
use theos.Crabfs.ExtentDir.{PackedEntry, extent_payload}
use theos.Crabfs.OnDisk.Inode.{inline}
use theos.Crabfs.ShortDir.{list_short, short_payload, directory_payload, payload_format}
use theos.Crabfs.ShortDir.Read.{AllFit, list-short_payload}
use theos.Crabfs.ShortDir.Choice.{directory_payload_mislabelled}

abbrev entries : List PackedEntry
entries =
    record { name = 97 ∷ []; inode_index = 1; ftype = 1 }
    ∷ record { name = 98 ∷ 99 ∷ []; inode_index = 2; ftype = 2 }
    ∷ []

list-short_payload_example :
    (bytes : List ℕ) × ((short_payload 64 0 entries ≡ ok bytes)
      × (list_short (λ name. name) (bytes ++ replicate 300 0) 64 true
          ≡ done (
              ok (
                record { ino = 64; name = 46 ∷ []; ftype = 2 }
                ∷ record { ino = 64; name = 46 ∷ 46 ∷ []; ftype = 2 }
                ∷ record { ino = 65; name = 97 ∷ []; ftype = 1 }
                ∷ record { ino = 66; name = 98 ∷ 99 ∷ []; ftype = 2 }
                ∷ []))))
list-short_payload_example =
    list-short_payload 64 0 entries (λ name. name) 64 (replicate 300 0)
      (
        record { name_u8 = omega arith; ino_u64 = omega arith },
        (record { name_u8 = omega arith; ino_u64 = omega arith }, tt),
      )
      (refl, (refl, tt)) (omega arith) (omega arith)

-- Ten names of 18 bytes and one of 15.
abbrev many : ℕ → List PackedEntry
many zero = record { name = replicate 15 97; inode_index = 9; ftype = 1 } ∷ []
many (suc n) = record { name = replicate 18 97; inode_index = 3; ftype = 1 } ∷ many n

many-AllFit : (n : ℕ) → AllFit 64 (many n)
many-AllFit zero = (record { name_u8 = omega arith; ino_u64 = omega arith }, tt)
many-AllFit (suc n) = (record { name_u8 = omega arith; ino_u64 = omega arith }, many-AllFit n)

directory_payload_mislabelled_example :
    (bytes : List ℕ) × ((extent_payload 64 0 (many 10) ≡ ok bytes)
      × ((directory_payload 64 0 (many 10) ≡ ok bytes) × (payload_format bytes ≡ inline)))
directory_payload_mislabelled_example =
    directory_payload_mislabelled 64 0 (many 10) (many-AllFit 10) (omega arith) (omega arith)
      (omega arith)

find-short_payload_example :
    (bytes : List ℕ) × ((short_payload 64 0 entries ≡ ok bytes)
      × (find_short (λ name. name) (bytes ++ replicate 300 0) 64 true (98 ∷ 99 ∷ [])
          ≡ done (ok (some (66, 2)))))
unfolding bytes_eq
find-short_payload_example =
    find-short_payload 64 0 entries (λ name. name) 64 (98 ∷ 99 ∷ []) (replicate 300 0)
      (
        record { name_u8 = omega arith; ino_u64 = omega arith },
        (record { name_u8 = omega arith; ino_u64 = omega arith }, tt),
      )
      (omega arith) (omega arith) refl refl
