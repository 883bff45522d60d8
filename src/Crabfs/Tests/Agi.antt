-- ===== src/Crabfs/Tests/Agi.antt =====
-- `Agi` at a concrete value.
use theos.Base.{ℕ, zero, suc, ◌<◌, replicate, done, ok, ◌>>=◌, ◌≡◌, refl, arith}
use theos.Crabfs.Endian.{bound, be_u32, bytes_at}
use theos.Crabfs.OnDisk.Agi.{Agi, parse, serialize}
use theos.Crabfs.OnDisk.Agi.Buckets.{AllU32}
use theos.Crabfs.OnDisk.Agi.RoundTrip.{IsValid, parse-serialize_agi}

abbrev header : Agi
header = record {
  seqno = 2;
  length = 5;
  count = 8;
  root = 11;
  level = 14;
  freecount = 17;
  newino = 20;
  dirino = 23;
  unlinked = replicate 64 4294967295;
  uuid = replicate 16 7;
  crc = 0;
  lsn = 59;
  free_root = 62;
  free_level = 65;
  iblocks = 68;
  fblocks = 71;
}

AllU32-replicate : (n v : ℕ) → v < bound 4 → AllU32 (replicate n v)
unfolding AllU32
AllU32-replicate zero v h = tt
AllU32-replicate (suc n) v h = (h, AllU32-replicate n v h)

header-IsValid : IsValid header
header-IsValid = record {
  seqno_u32 = omega arith;
  length_u32 = omega arith;
  count_u32 = omega arith;
  root_u32 = omega arith;
  level_u32 = omega arith;
  freecount_u32 = omega arith;
  newino_u32 = omega arith;
  dirino_u32 = omega arith;
  free_root_u32 = omega arith;
  free_level_u32 = omega arith;
  iblocks_u32 = omega arith;
  fblocks_u32 = omega arith;
  unlinked_array = refl;
  unlinked_u32 = AllU32-replicate 64 4294967295 (omega arith);
  uuid_array = refl;
  lsn_u64 = omega arith;
}

parse-serialize_agi_example :
    (serialize header (replicate 344 0) >>= λ r. parse r.1) ≡ done (ok header)
unfolding be_u32 bytes_at
parse-serialize_agi_example =
    parse-serialize_agi header (replicate 344 0) header-IsValid (omega arith) refl
