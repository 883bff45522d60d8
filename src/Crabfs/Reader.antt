-- ===== src/Crabfs/Reader.antt =====
-- `lib/crabfs/reader.rs`: the superblock, a group's headers, the roots of its inode trees and an inode
-- from a block device, and `lib/crabfs/geometry.rs`. The device, `BlockDevice` of lib/crabfs/device.rs, is a parameter: a read
-- gives the bytes that the source has in its buffer afterwards.
pub mod Checks
use theos.Base.{
  ℕ, ◌+◌, ◌*◌, ◌/◌, ◌%◌, ◌^◌, ◌≡◌, min, List, length, leb, ltb, Bool, true, false, overwrite,
}
use theos.Base.{◌==◌, Exec, done, panic, ◌>>=◌, Result, ok, err, try, if◌then◌else◌}
use theos.Crabfs.Error.{
  ParseError, invalid_field, sector_size_field, crc_mismatch, superblock_block, agf_block,
  inode_block, agi_block, agfl_block, inobt_root_block, finobt_root_block, Checked, DeviceError,
  short_read, out_of_range, ReadError, read_device, read_parse,
}
use theos.Crabfs.Endian.{Buffer}
use theos.Crabfs.Crc.{verify_xfs_crc}
use theos.Crabfs.OnDisk.Agf as AgfBlock
use theos.Crabfs.OnDisk.Agf.{Agf, xfs_agf_size, xfs_agf_crc_off}
use theos.Crabfs.OnDisk.Agfl as AgflBlock
use theos.Crabfs.OnDisk.Agfl.{Agfl, xfs_agfl_crc_off}
use theos.Crabfs.OnDisk.Agi as AgiBlock
use theos.Crabfs.OnDisk.Agi.{Agi, xfs_agi_size, xfs_agi_crc_off}
use theos.Crabfs.OnDisk.Inobt as InobtBlock
use theos.Crabfs.OnDisk.Inobt.{
  InodeBtreeKind, inobt, finobt, InodeBtreeRoot, xfs_btree_sblock_crc_off,
}
use theos.Crabfs.OnDisk.Bmap.{BmapExtent}
use theos.Crabfs.OnDisk.Inode as InodeBlock
use theos.Crabfs.OnDisk.Inode.{Inode, xfs_dinode_crc_off}
use theos.Crabfs.OnDisk.Superblock as SuperblockBlock
use theos.Crabfs.OnDisk.Superblock.{Superblock, is_v5, xfs_dsb_size, xfs_sb_crc_off}

-- `BlockDevice::read_at`: the device, the offset, and the length of the buffer.
pub record BlockDevice (D : Type 0) : Type 0 where
  pub read_at : D → ℕ → ℕ → Result DeviceError Buffer × D

abbrev pub u64_max : ℕ
u64_max = 18446744073709551615

abbrev pub saturating_mul : ℕ → ℕ → ℕ
saturating_mul a b = min (a * b) u64_max

pub record Geometry : Type 0 where
  pub block_size : ℕ
  pub sector_size : ℕ
  pub ag_blocks : ℕ
  pub ag_count : ℕ

abbrev pub from_superblock : Superblock → Geometry
from_superblock sb = record {
  block_size = sb.block_size;
  sector_size = sb.sector_size;
  ag_blocks = sb.ag_blocks;
  ag_count = sb.ag_count;
}

abbrev pub fsb_to_bytes : Geometry → ℕ → ℕ
fsb_to_bytes self fsb = saturating_mul fsb self.block_size

-- The division by 0 panics.
abbrev pub bytes_to_fsb : Geometry → ℕ → Exec ℕ
bytes_to_fsb self bytes = if self.block_size == 0 then panic else done (bytes / self.block_size)

unfoldable pub ag_start : Superblock → ℕ → Result ReadError ℕ
ag_start sb agno =
    if leb sb.ag_count agno
    then err (read_device out_of_range)
    else ok (saturating_mul (saturating_mul agno sb.ag_blocks) sb.block_size)

unfoldable pub ensure_sector_size : ℕ → Result ReadError ℕ
ensure_sector_size size =
    if ltb 4096 size then err (read_parse (invalid_field sector_size_field size)) else ok size

-- `(agno, agbno, offset)` of an inode: the shifts are by `sb.agblklog` and `sb.inopblog`.
unfoldable pub inode_offset : Superblock → ℕ → Result ReadError ℕ
inode_offset sb ino =
    let agno = ino / (2 ^ (sb.agblklog + sb.inopblog)) % 4294967296 in
    let agbno = ino / (2 ^ sb.inopblog) % (2 ^ sb.agblklog) in
    let offset = ino % (2 ^ sb.inopblog) * sb.inode_size in
    elim (ag_start sb agno) [
      | ok start ↦ ok (start + agbno * sb.block_size + offset)
      | err e ↦ err e
    ]

abbrev pub extent_to_physical_offset : Superblock → BmapExtent → ℕ
extent_to_physical_offset sb ext =
    let agno = ext.startblock / (2 ^ sb.agblklog) in
    let agblk = ext.startblock % (2 ^ sb.agblklog) in (agno * sb.ag_blocks + agblk) * sb.block_size

-- `?` on a device's and on a parser's result.
abbrev pub with_read {ℓ} :
    {D : Type 0} {A S : Type ℓ}
    → Result DeviceError Buffer × D
    → (D → S)
    → (Buffer → D → Exec (Result ReadError A × S))
    → Exec (Result ReadError A × S)
with_read (ok bytes, d) state k = k bytes d
with_read (err e, d) state k = done (err (read_device e), state d)

abbrev pub parsed {ℓ} : {A : Type ℓ} → Result ParseError A → Result ReadError A
parsed (ok a) = ok a
parsed (err e) = err (read_parse e)

module _ {D : Type 0} (dev : BlockDevice D) where
  unfoldable pub read_superblock : D → Exec (Result ReadError Superblock × D)
  read_superblock d =
      with_read (dev.read_at d 0 xfs_dsb_size) (λ d. d)
        λ raw d. SuperblockBlock.parse raw >>= λ p. try (parsed p) d λ sb.
          if is_v5 sb
          then (try (ensure_sector_size sb.sector_size) d λ sector_size.
              with_read (dev.read_at d 0 sector_size) (λ d. d)
                λ sector d. verify_xfs_crc sector xfs_sb_crc_off >>= λ good.
                  if good
                  then done (ok sb, d)
                  else done (err (read_parse (crc_mismatch superblock_block)), d))
          else done (ok sb, d)

  unfoldable pub read_agf : D → Superblock → ℕ → Exec (Result ReadError Agf × D)
  read_agf d sb agno = try (ag_start sb agno) d λ start.
      with_read (dev.read_at d (start + sb.sector_size) xfs_agf_size) (λ d. d)
        λ raw d. AgfBlock.parse raw >>= λ p. try (parsed p) d λ agf.
          if is_v5 sb
          then (try (ensure_sector_size sb.sector_size) d λ sector_size.
              with_read (dev.read_at d (start + sb.sector_size) sector_size) (λ d. d)
                λ sector d. verify_xfs_crc sector xfs_agf_crc_off >>= λ good.
                  if good
                  then done (ok agf, d)
                  else done (err (read_parse (crc_mismatch agf_block)), d))
          else done (ok agf, d)

  -- The inode's bytes are left at the start of `scratch`.
  unfoldable pub read_inode :
      D → Superblock → ℕ → Buffer → Exec (Result ReadError Inode × (D × Buffer))
  read_inode d sb ino scratch =
      if ltb (length scratch) sb.inode_size
      then done (err (read_device (short_read sb.inode_size (length scratch))), (d, scratch))
      else (try (inode_offset sb ino) (d, scratch)
          λ offset.
            with_read (dev.read_at d offset sb.inode_size) (λ d. (d, scratch))
              λ raw d.
                (if is_v5 sb then verify_xfs_crc raw xfs_dinode_crc_off else done true) >>= λ good.
                if good
                then (InodeBlock.parse raw >>= λ p. done (parsed p, (d, overwrite scratch 0 raw)))
                else done
                    (err (read_parse (crc_mismatch inode_block)), (d, overwrite scratch 0 raw)))

  unfoldable pub read_agi : D → Superblock → ℕ → Exec (Result ReadError Agi × D)
  read_agi d sb agno = try (ag_start sb agno) d λ start.
      with_read (dev.read_at d (start + 2 * sb.sector_size) xfs_agi_size) (λ d. d)
        λ raw d. AgiBlock.parse raw >>= λ p. try (parsed p) d λ agi.
          if is_v5 sb
          then (try (ensure_sector_size sb.sector_size) d λ sector_size.
              with_read (dev.read_at d (start + 2 * sb.sector_size) sector_size) (λ d. d)
                λ sector d. verify_xfs_crc sector xfs_agi_crc_off >>= λ good.
                  if good
                  then done (ok agi, d)
                  else done (err (read_parse (crc_mismatch agi_block)), d))
          else done (ok agi, d)

  unfoldable pub read_agfl : D → Superblock → ℕ → Exec (Result ReadError Agfl × D)
  read_agfl d sb agno = try (ensure_sector_size sb.sector_size) d λ sector_size.
      try (ag_start sb agno) d λ start.
        with_read (dev.read_at d (start + 3 * sb.sector_size) sector_size) (λ d. d)
          λ sector d.
            (if is_v5 sb then verify_xfs_crc sector xfs_agfl_crc_off else done true) >>= λ good.
            if good
            then (AgflBlock.parse sector sb.sector_size (is_v5 sb) >>= λ p. done (parsed p, d))
            else done (err (read_parse (crc_mismatch agfl_block)), d)

  -- The body that the two readers of a tree's root share: the block of the group, and what a wrong
  -- checksum is called. The block is left at the start of `scratch`.
  unfoldable pub read_root :
      ℕ
      → InodeBtreeKind
      → Checked
      → D
      → Superblock
      → ℕ
      → Buffer
      → Exec (Result ReadError InodeBtreeRoot × (D × Buffer))
  read_root block kind what d sb agno scratch =
      if ltb (length scratch) sb.block_size
      then done (err (read_device (short_read sb.block_size (length scratch))), (d, scratch))
      else (try (ag_start sb agno) (d, scratch)
          λ start.
            with_read (dev.read_at d (start + block * sb.block_size) sb.block_size)
              (λ d. (d, scratch))
              λ raw d.
                (if is_v5 sb then verify_xfs_crc raw xfs_btree_sblock_crc_off else done true)
                >>= λ good.
                    if good
                    then (InobtBlock.parse raw kind (is_v5 sb) >>= λ p.
                        done (parsed p, (d, overwrite scratch 0 raw)))
                    else done (err (read_parse (crc_mismatch what)), (d, overwrite scratch 0 raw)))

  abbrev pub read_inobt_root :
      D → Superblock → Agi → ℕ → Buffer → Exec (Result ReadError InodeBtreeRoot × (D × Buffer))
  read_inobt_root d sb agi agno scratch =
      read_root agi.root inobt inobt_root_block d sb agno scratch

  abbrev pub read_finobt_root :
      D → Superblock → Agi → ℕ → Buffer → Exec (Result ReadError InodeBtreeRoot × (D × Buffer))
  read_finobt_root d sb agi agno scratch =
      read_root agi.free_root finobt finobt_root_block d sb agno scratch
