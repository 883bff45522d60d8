-- ===== src/Crabfs/Tests/Reader.antt =====
-- A superblock, an inode and the data of a file, read from a device that holds them at its start.
use theos.Base.{ℕ, ◌≡◌, ◌≤◌, refl, [], some, true, false, replicate, take, drop, overwrite}
use theos.Base.{Exec, done, panic, ◌>>=◌, ok}
use theos.Base.Int.{pos, negsuc}
use theos.Crabfs.Endian.{
  Buffer, require_len, apply, apply_all, bytes_at, be_u16, be_u32, be_u64, le_u32,
}
use theos.Crabfs.Crc.{checksum, crc32c, write_xfs_crc, verify_xfs_crc}
use theos.Crabfs.OnDisk.Inode as InodeBlock
use theos.Crabfs.OnDisk.Inode.{Inode, inline, extents, xfs_dinode_magic, xfs_dinode_crc_off}
use theos.Crabfs.OnDisk.Superblock as SuperblockBlock
use theos.Crabfs.OnDisk.Superblock.{Superblock, V5Fields, parse_v5, is_v5, xfs_sb_crc_off}
use theos.Crabfs.Reader.{
  BlockDevice, read_superblock, read_inode, ensure_sector_size, inode_offset, ag_start,
}
use theos.Base.{
  ◌∷◌, ◌++◌, ◌-◌, min, length, length-take, length-append, length-replicate, arith, ap,
}
use theos.Base.{Result}
use theos.Crabfs.Error.{DeviceError}
use theos.Crabfs.OnDisk.Bmap as BmapBlock
use theos.Crabfs.OnDisk.Bmap.{BmapExtent, serialize_bmap_extent}
use theos.Crabfs.FileData.{read_extent_range, parse_extents}
use theos.Crabfs.FileData.Inside.{read_extent_range_inside}
use theos.Crabfs.FileData.Bounds.{IsExact, Gives, read_extent_range_bound}
use theos.Crabfs.Reader.Checks.{read_inode_checked, read_superblock_checked}

-- A device that holds an image.
abbrev image : Buffer → BlockDevice Buffer
image bytes = record { read_at = λ d offset len. (ok (take len (drop offset bytes)), d) }

abbrev bytes_of : Exec Buffer → Buffer
bytes_of (done bytes) = bytes
bytes_of panic = []

abbrev fields : ℕ → V5Fields
fields c = record {
  features_compat = 0;
  features_ro_compat = 0;
  features_incompat = 0;
  features_log_incompat = 0;
  crc = c;
  sparse_inode_align = 0;
  pquotino = 0;
  lsn = 0;
  meta_uuid = replicate 16 7;
  metadirino = 0;
  rgcount = 0;
  rgextents = 0;
  rgblklog = 0;
  rtstart = 0;
  rtreserved = 0;
}

abbrev block : ℕ → Superblock
block c = record {
  block_size = 4096;
  dblocks = 0;
  rblocks = 0;
  rextents = 0;
  uuid = replicate 16 7;
  logstart = 0;
  rootino = 0;
  rbmino = 0;
  rsumino = 0;
  rextsize = 0;
  ag_blocks = 100;
  ag_count = 1;
  rbm_blocks = 0;
  log_blocks = 0;
  version = 5;
  sector_size = 304;
  inode_size = 176;
  inode_per_block = 0;
  fname = replicate 12 0;
  block_log = 0;
  sect_log = 0;
  inode_log = 0;
  inopblog = 0;
  agblklog = 0;
  rextslog = 0;
  inprogress = false;
  imax_pct = 0;
  icount = 0;
  ifree = 0;
  fdblocks = 0;
  frextents = 0;
  uquotino = 0;
  gquotino = 0;
  qflags = 0;
  flags = 0;
  shared_vn = 0;
  inoalignmt = 0;
  unit = 0;
  width = 0;
  log_sector_size = 0;
  log_sunit = 0;
  features2 = 0;
  bad_features2 = 0;
  v5 = some (fields c);
}

abbrev inode : ℕ → Inode
inode c = record {
  magic = xfs_dinode_magic;
  mode = 16877;
  version = 3;
  format = inline;
  onlink = 0;
  uid = 0;
  gid = 0;
  nlink = 0;
  projid = 70000;
  flushiter = 0;
  atime = (negsuc 4, 7);
  mtime = (pos 5, 8);
  ctime = (pos 6, 9);
  size = pos 100;
  nblocks = 0;
  extsize = 0;
  nextents = 0;
  anextents = 0;
  forkoff = 0;
  aformat = extents;
  dmevmask = 0;
  dmstate = 0;
  flags = 0;
  generation = 0;
  next_unlinked = 0;
  crc = c;
  change_count = 0;
  lsn = 0;
  flags2 = 0;
  cowextsize = 0;
  crtime = (negsuc 0, 0);
  ino = 0;
  uuid = replicate 16 7;
}

sealed_block : Buffer
unfolding write_xfs_crc checksum crc32c SuperblockBlock.serialize require_len apply apply_all
sealed_block = bytes_of (
    SuperblockBlock.serialize (block 0) (replicate 304 0) >>= λ r. write_xfs_crc r.1 xfs_sb_crc_off)

sealed_inode : Buffer
unfolding write_xfs_crc checksum crc32c InodeBlock.serialize require_len apply apply_all
sealed_inode =
    bytes_of (
      InodeBlock.serialize (inode 0) (replicate 176 0) >>= λ r.
      write_xfs_crc r.1 xfs_dinode_crc_off)

read_superblock_checked_example :
    (sector : Buffer) × ((d1 : Buffer) × (((image sealed_block).read_at d1 0 304 ≡ (ok sector, []))
        × ((verify_xfs_crc sector xfs_sb_crc_off ≡ done true) × (304 ≤ 4096))))
unfolding SuperblockBlock.parse parse_v5 read_superblock is_v5 ensure_sector_size verify_xfs_crc
    checksum crc32c require_len bytes_at be_u16 be_u32 be_u64 le_u32 sealed_block
read_superblock_checked_example =
    read_superblock_checked (image sealed_block) [] [] (block 721735568) refl refl

read_inode_checked_example :
    (raw : Buffer) × (offset : ℕ) × (inode_offset (block 0) 0 ≡ ok offset)
    × ((image sealed_inode).read_at [] offset (block 0).inode_size ≡ (ok raw, []))
    × ((block 0).inode_size ≤ length (replicate {A = ℕ} 176 0))
    × (verify_xfs_crc raw xfs_dinode_crc_off ≡ done true)
    × (InodeBlock.parse raw ≡ done (ok (inode 3108893599)))
    × (sealed_inode ≡ overwrite (replicate 176 0) 0 raw)
unfolding read_inode inode_offset ag_start is_v5 verify_xfs_crc checksum crc32c require_len bytes_at
    be_u16 be_u32 be_u64 le_u32 InodeBlock.parse sealed_inode
read_inode_checked_example =
    read_inode_checked (image sealed_inode) [] [] (block 0) 0 (replicate 176 0) sealed_inode
      (inode 3108893599) refl refl

-- The blocks 1 and 2 of a file stand at the start of the device.
abbrev extent : BmapExtent
extent = record { state = 0; startoff = 1; startblock = 0; blockcount = 2 }

abbrev file : Inode
file = record (inode 0) { format = extents; nextents = 1; size = pos 4200 }

fork : Buffer
unfolding serialize_bmap_extent apply apply_all
fork = bytes_of (serialize_bmap_extent (replicate 16 0) 1 0 2)

abbrev content : Buffer
content = 1 ∷ 2 ∷ 3 ∷ 4 ∷ 5 ∷ 6 ∷ 7 ∷ 8 ∷ []

read_extent_range_inside_example :
    read_extent_range (image content) (block 0) [] file (replicate 176 0 ++ fork) 4098 5
    ≡ done (ok (3 ∷ 4 ∷ 5 ∷ 6 ∷ 7 ∷ []), [])
unfolding parse_extents BmapBlock.parse require_len bytes_at be_u64 fork
read_extent_range_inside_example =
    read_extent_range_inside (image content) (block 0) extent [] file (replicate 176 0 ++ fork) fork
      4098 5 [] [] (3 ∷ 4 ∷ 5 ∷ 6 ∷ 7 ∷ []) refl refl
      (record {
        behind = omega arith;
        before = omega arith;
        in_file = omega arith;
        some_bytes = omega arith;
      })
      refl

-- A device that gives zeros behind its bytes.
abbrev padded : Buffer → BlockDevice Buffer
padded bytes = record {
  read_at = λ d offset len. (ok (take len (drop offset bytes ++ replicate len 0)), d);
}

same_bytes :
    (x y d d' : Buffer) → ◌≡◌ {A = Result DeviceError Buffer × Buffer} (ok x, d) (ok y, d') → x ≡ y
same_bytes x y d d' e = cc

padded-IsExact : (bytes : Buffer) → IsExact (padded bytes)
padded-IsExact bytes = record {
  exact = λ d d' off len found e. omega (
    arith,
    ap length (same_bytes _ _ d d' e),
    length-take len (drop off bytes ++ replicate len 0),
    length-append (drop off bytes) (replicate len 0),
    length-replicate {A = ℕ} len 0,
  );
}

read_extent_range_bound_example :
    Gives
      (λ bytes. length bytes ≤ min 500 (4200 - 4098))
      (read_extent_range (padded content) (block 0) [] file (replicate 176 0 ++ fork) 4098 500)
read_extent_range_bound_example =
    read_extent_range_bound (padded content) (padded-IsExact content) (block 0) [] file
      (replicate 176 0 ++ fork) 4098 500
