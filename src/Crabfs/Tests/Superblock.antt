-- ===== src/Crabfs/Tests/Superblock.antt =====
-- `Superblock` at a concrete value.
use theos.Base.{true, some, replicate, done, ok, ◌>>=◌, ◌≡◌, refl, arith}
use theos.Crabfs.Endian.{le_u32, bytes_at}
use theos.Crabfs.OnDisk.Superblock.{Superblock, V5Fields, parse, serialize}
use theos.Crabfs.OnDisk.Superblock.Valid.{IsValid, IsValidV5}
use theos.Crabfs.OnDisk.Superblock.RoundTrip.{parse-serialize_superblock}

abbrev fields : V5Fields
fields = record {
  features_compat = 6;
  features_ro_compat = 9;
  features_incompat = 12;
  features_log_incompat = 15;
  crc = 0;
  sparse_inode_align = 21;
  pquotino = 24;
  lsn = 27;
  meta_uuid = replicate 16 7;
  metadirino = 33;
  rgcount = 36;
  rgextents = 39;
  rgblklog = 42;
  rtstart = 45;
  rtreserved = 48;
}

abbrev block : Superblock
block = record {
  block_size = 4096;
  dblocks = 5;
  rblocks = 8;
  rextents = 11;
  uuid = replicate 16 7;
  logstart = 17;
  rootino = 20;
  rbmino = 23;
  rsumino = 26;
  rextsize = 29;
  ag_blocks = 32;
  ag_count = 35;
  rbm_blocks = 38;
  log_blocks = 41;
  version = 5;
  sector_size = 47;
  inode_size = 50;
  inode_per_block = 53;
  fname = replicate 12 65;
  block_log = 59;
  sect_log = 62;
  inode_log = 65;
  inopblog = 68;
  agblklog = 71;
  rextslog = 74;
  inprogress = true;
  imax_pct = 80;
  icount = 83;
  ifree = 86;
  fdblocks = 89;
  frextents = 92;
  uquotino = 95;
  gquotino = 98;
  qflags = 101;
  flags = 104;
  shared_vn = 107;
  inoalignmt = 110;
  unit = 113;
  width = 116;
  log_sector_size = 119;
  log_sunit = 122;
  features2 = 125;
  bad_features2 = 128;
  v5 = some fields;
}

fields-IsValid : IsValidV5 fields
fields-IsValid = record {
  features_compat_u32 = omega arith;
  features_ro_compat_u32 = omega arith;
  features_incompat_u32 = omega arith;
  features_log_incompat_u32 = omega arith;
  sparse_inode_align_u32 = omega arith;
  pquotino_u64 = omega arith;
  lsn_u64 = omega arith;
  meta_uuid_array = refl;
  metadirino_u64 = omega arith;
  rgcount_u32 = omega arith;
  rgextents_u32 = omega arith;
  rtstart_u64 = omega arith;
  rtreserved_u64 = omega arith;
}

block-IsValid : IsValid block
block-IsValid = record {
  block_size_u32 = omega arith;
  dblocks_u64 = omega arith;
  rblocks_u64 = omega arith;
  rextents_u64 = omega arith;
  uuid_array = refl;
  logstart_u64 = omega arith;
  rootino_u64 = omega arith;
  rbmino_u64 = omega arith;
  rsumino_u64 = omega arith;
  rextsize_u32 = omega arith;
  ag_blocks_u32 = omega arith;
  ag_count_u32 = omega arith;
  rbm_blocks_u32 = omega arith;
  log_blocks_u32 = omega arith;
  version_u16 = omega arith;
  sector_size_u16 = omega arith;
  inode_size_u16 = omega arith;
  inode_per_block_u16 = omega arith;
  fname_array = refl;
  icount_u64 = omega arith;
  ifree_u64 = omega arith;
  fdblocks_u64 = omega arith;
  frextents_u64 = omega arith;
  uquotino_u64 = omega arith;
  gquotino_u64 = omega arith;
  qflags_u16 = omega arith;
  inoalignmt_u32 = omega arith;
  unit_u32 = omega arith;
  width_u32 = omega arith;
  log_sector_size_u16 = omega arith;
  log_sunit_u32 = omega arith;
  features2_u32 = omega arith;
  bad_features2_u32 = omega arith;
  version_lem = omega arith;
  block_size_lem = omega arith;
  sector_size_lem = omega arith;
  inode_size_lem = omega arith;
}

parse-serialize_superblock_example :
    (serialize block (replicate 304 0) >>= λ r. parse r.1) ≡ done (ok block)
unfolding le_u32 bytes_at
parse-serialize_superblock_example =
    parse-serialize_superblock block fields (replicate 304 0) block-IsValid fields-IsValid refl refl
      (omega arith) refl
