-- ===== src/Crabfs/OnDisk/Superblock/Valid.antt =====
-- The superblocks whose fields have their widths, `lib/crabfs/on_disk/superblock.rs`.
use theos.Base.{ℕ, ◌≡◌, ◌≤◌, ◌<◌, ◌≢◌, refl, length, arith, ◌==◌, Bool, true, false, some}
use theos.Crabfs.Endian.{Buffer, bound}
use theos.Crabfs.Endian.Layout.{Fits, within, Sized}
use theos.Crabfs.Endian.Layout.{}
use theos.Crabfs.Endian.Total.{}
use theos.Crabfs.OnDisk.Superblock.{Superblock, V5Fields, stores}
use theos.Base.{if◌then◌else◌, not, Option}

-- The widths of the fields.
pub record IsValidV5 (a : V5Fields) : Type 0 where
  pub features_compat_u32 : a.features_compat < bound 4
  pub features_ro_compat_u32 : a.features_ro_compat < bound 4
  pub features_incompat_u32 : a.features_incompat < bound 4
  pub features_log_incompat_u32 : a.features_log_incompat < bound 4
  pub sparse_inode_align_u32 : a.sparse_inode_align < bound 4
  pub pquotino_u64 : a.pquotino < bound 8
  pub lsn_u64 : a.lsn < bound 8
  pub meta_uuid_array : length a.meta_uuid ≡ 16
  pub metadirino_u64 : a.metadirino < bound 8
  pub rgcount_u32 : a.rgcount < bound 4
  pub rgextents_u32 : a.rgextents < bound 4
  pub rtstart_u64 : a.rtstart < bound 8
  pub rtreserved_u64 : a.rtreserved < bound 8

-- The widths of the fields.
pub record IsValid (a : Superblock) : Type 0 where
  pub block_size_u32 : a.block_size < bound 4
  pub dblocks_u64 : a.dblocks < bound 8
  pub rblocks_u64 : a.rblocks < bound 8
  pub rextents_u64 : a.rextents < bound 8
  pub uuid_array : length a.uuid ≡ 16
  pub logstart_u64 : a.logstart < bound 8
  pub rootino_u64 : a.rootino < bound 8
  pub rbmino_u64 : a.rbmino < bound 8
  pub rsumino_u64 : a.rsumino < bound 8
  pub rextsize_u32 : a.rextsize < bound 4
  pub ag_blocks_u32 : a.ag_blocks < bound 4
  pub ag_count_u32 : a.ag_count < bound 4
  pub rbm_blocks_u32 : a.rbm_blocks < bound 4
  pub log_blocks_u32 : a.log_blocks < bound 4
  pub version_u16 : a.version < bound 2
  pub sector_size_u16 : a.sector_size < bound 2
  pub inode_size_u16 : a.inode_size < bound 2
  pub inode_per_block_u16 : a.inode_per_block < bound 2
  pub fname_array : length a.fname ≡ 12
  pub icount_u64 : a.icount < bound 8
  pub ifree_u64 : a.ifree < bound 8
  pub fdblocks_u64 : a.fdblocks < bound 8
  pub frextents_u64 : a.frextents < bound 8
  pub uquotino_u64 : a.uquotino < bound 8
  pub gquotino_u64 : a.gquotino < bound 8
  pub qflags_u16 : a.qflags < bound 2
  pub inoalignmt_u32 : a.inoalignmt < bound 4
  pub unit_u32 : a.unit < bound 4
  pub width_u32 : a.width < bound 4
  pub log_sector_size_u16 : a.log_sector_size < bound 2
  pub log_sunit_u32 : a.log_sunit < bound 4
  pub features2_u32 : a.features2 < bound 4
  pub bad_features2_u32 : a.bad_features2 < bound 4
  pub version_lem : a.version < 16
  pub block_size_lem : a.block_size ≢ 0
  pub sector_size_lem : a.sector_size ≢ 0
  pub inode_size_lem : a.inode_size ≢ 0

-- `a` with these version 5 fields.
abbrev pub with_v5 : Superblock → Option V5Fields → Superblock
with_v5 a o = record {
  block_size = a.block_size;
  dblocks = a.dblocks;
  rblocks = a.rblocks;
  rextents = a.rextents;
  uuid = a.uuid;
  logstart = a.logstart;
  rootino = a.rootino;
  rbmino = a.rbmino;
  rsumino = a.rsumino;
  rextsize = a.rextsize;
  ag_blocks = a.ag_blocks;
  ag_count = a.ag_count;
  rbm_blocks = a.rbm_blocks;
  log_blocks = a.log_blocks;
  version = a.version;
  sector_size = a.sector_size;
  inode_size = a.inode_size;
  inode_per_block = a.inode_per_block;
  fname = a.fname;
  block_log = a.block_log;
  sect_log = a.sect_log;
  inode_log = a.inode_log;
  inopblog = a.inopblog;
  agblklog = a.agblklog;
  rextslog = a.rextslog;
  inprogress = a.inprogress;
  imax_pct = a.imax_pct;
  icount = a.icount;
  ifree = a.ifree;
  fdblocks = a.fdblocks;
  frextents = a.frextents;
  uquotino = a.uquotino;
  gquotino = a.gquotino;
  qflags = a.qflags;
  flags = a.flags;
  shared_vn = a.shared_vn;
  inoalignmt = a.inoalignmt;
  unit = a.unit;
  width = a.width;
  log_sector_size = a.log_sector_size;
  log_sunit = a.log_sunit;
  features2 = a.features2;
  bad_features2 = a.bad_features2;
  v5 = o;
}

pub fits :
    (a : Superblock) (v5 : V5Fields) (bytes : Buffer)
    → IsValid a
    → IsValidV5 v5
    → 304 ≤ length bytes
    → Fits 304 (stores (with_v5 a (some v5))) bytes
unfolding within Sized
fits a v5 bytes v w h = record {
  inside = refl;
  sized = search (v.uuid_array, v.fname_array, w.meta_uuid_array) depth 90;
  room = h;
}

pub ==_ne : (n : ℕ) → n ≢ 0 → (n == 0) ≡ false
==_ne n h = ground (arith, h)

pub byte-flag : (b : Bool) → not ((if b then 1 else 0) == 0) ≡ b
byte-flag true = refl
byte-flag false = refl
