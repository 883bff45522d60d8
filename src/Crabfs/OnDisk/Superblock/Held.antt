-- ===== src/Crabfs/OnDisk/Superblock/Held.antt =====
-- What a buffer holds at the places of the superblock's fields after `Superblock::serialize`.
use theos.Base.{◌≡◌, ◌≤◌, refl, length, done, arith, some, index}
use theos.Crabfs.Endian.{Buffer, be_u32, le_u32}
use theos.Crabfs.Endian.Layout.{after, spares, stored}
use theos.Crabfs.Endian.Layout.{
  be_u16-after, be_u32-after, be_u64-after, slice-after, index-after, le_u32-spared,
}
use theos.Crabfs.Endian.Total.{}
use theos.Crabfs.OnDisk.Superblock.{Superblock, V5Fields, stores, xfs_sb_magic}
use theos.Base.{if◌then◌else◌, slice}
use theos.Crabfs.Endian.{be_u64, be_u16}
use theos.Crabfs.OnDisk.Superblock.Valid.{IsValid, IsValidV5, with_v5, fits}

-- The bytes of a buffer at the places of the fields.
pub record HoldsV5 (v5 : V5Fields) (bytes : Buffer) : Type 0 where
  pub features_compat_at : be_u32 bytes 208 ≡ done v5.features_compat
  pub features_ro_compat_at : be_u32 bytes 212 ≡ done v5.features_ro_compat
  pub features_incompat_at : be_u32 bytes 216 ≡ done v5.features_incompat
  pub features_log_incompat_at : be_u32 bytes 220 ≡ done v5.features_log_incompat
  pub crc_at : le_u32 bytes 224 ≡ done v5.crc
  pub sparse_inode_align_at : be_u32 bytes 228 ≡ done v5.sparse_inode_align
  pub pquotino_at : be_u64 bytes 232 ≡ done v5.pquotino
  pub lsn_at : be_u64 bytes 240 ≡ done v5.lsn
  pub meta_uuid_at : slice bytes 248 16 ≡ done v5.meta_uuid
  pub metadirino_at : be_u64 bytes 264 ≡ done v5.metadirino
  pub rgcount_at : be_u32 bytes 272 ≡ done v5.rgcount
  pub rgextents_at : be_u32 bytes 276 ≡ done v5.rgextents
  pub rgblklog_at : index bytes 280 ≡ done v5.rgblklog
  pub rtstart_at : be_u64 bytes 288 ≡ done v5.rtstart
  pub rtreserved_at : be_u64 bytes 296 ≡ done v5.rtreserved

-- The bytes of a buffer at the places of the fields.
pub record Holds (a : Superblock) (bytes : Buffer) : Type 0 where
  pub magic_at : be_u32 bytes 0 ≡ done xfs_sb_magic
  pub block_size_at : be_u32 bytes 4 ≡ done a.block_size
  pub dblocks_at : be_u64 bytes 8 ≡ done a.dblocks
  pub rblocks_at : be_u64 bytes 16 ≡ done a.rblocks
  pub rextents_at : be_u64 bytes 24 ≡ done a.rextents
  pub uuid_at : slice bytes 32 16 ≡ done a.uuid
  pub logstart_at : be_u64 bytes 48 ≡ done a.logstart
  pub rootino_at : be_u64 bytes 56 ≡ done a.rootino
  pub rbmino_at : be_u64 bytes 64 ≡ done a.rbmino
  pub rsumino_at : be_u64 bytes 72 ≡ done a.rsumino
  pub rextsize_at : be_u32 bytes 80 ≡ done a.rextsize
  pub ag_blocks_at : be_u32 bytes 84 ≡ done a.ag_blocks
  pub ag_count_at : be_u32 bytes 88 ≡ done a.ag_count
  pub rbm_blocks_at : be_u32 bytes 92 ≡ done a.rbm_blocks
  pub log_blocks_at : be_u32 bytes 96 ≡ done a.log_blocks
  pub version_at : be_u16 bytes 100 ≡ done a.version
  pub sector_size_at : be_u16 bytes 102 ≡ done a.sector_size
  pub inode_size_at : be_u16 bytes 104 ≡ done a.inode_size
  pub inode_per_block_at : be_u16 bytes 106 ≡ done a.inode_per_block
  pub fname_at : slice bytes 108 12 ≡ done a.fname
  pub block_log_at : index bytes 120 ≡ done a.block_log
  pub sect_log_at : index bytes 121 ≡ done a.sect_log
  pub inode_log_at : index bytes 122 ≡ done a.inode_log
  pub inopblog_at : index bytes 123 ≡ done a.inopblog
  pub agblklog_at : index bytes 124 ≡ done a.agblklog
  pub rextslog_at : index bytes 125 ≡ done a.rextslog
  pub inprogress_at : index bytes 126 ≡ done (if a.inprogress then 1 else 0)
  pub imax_pct_at : index bytes 127 ≡ done a.imax_pct
  pub icount_at : be_u64 bytes 128 ≡ done a.icount
  pub ifree_at : be_u64 bytes 136 ≡ done a.ifree
  pub fdblocks_at : be_u64 bytes 144 ≡ done a.fdblocks
  pub frextents_at : be_u64 bytes 152 ≡ done a.frextents
  pub uquotino_at : be_u64 bytes 160 ≡ done a.uquotino
  pub gquotino_at : be_u64 bytes 168 ≡ done a.gquotino
  pub qflags_at : be_u16 bytes 176 ≡ done a.qflags
  pub flags_at : index bytes 178 ≡ done a.flags
  pub shared_vn_at : index bytes 179 ≡ done a.shared_vn
  pub inoalignmt_at : be_u32 bytes 180 ≡ done a.inoalignmt
  pub unit_at : be_u32 bytes 184 ≡ done a.unit
  pub width_at : be_u32 bytes 188 ≡ done a.width
  pub log_sector_size_at : be_u16 bytes 194 ≡ done a.log_sector_size
  pub log_sunit_at : be_u32 bytes 196 ≡ done a.log_sunit
  pub features2_at : be_u32 bytes 200 ≡ done a.features2
  pub bad_features2_at : be_u32 bytes 204 ≡ done a.bad_features2

module _ (a : Superblock) (v5 : V5Fields) (bytes : Buffer) (v : IsValid a) (w : IsValidV5 v5)
    (h : 304 ≤ length bytes) where
  pub v5-held :
      le_u32 bytes 224 ≡ done v5.crc → HoldsV5 v5 (after (stores (with_v5 a (some v5))) bytes)
  unfolding stored spares
  v5-held c =
      let f = fits a v5 bytes v w h in
      record {
        features_compat_at = be_u32-after f 208 v5.features_compat w.features_compat_u32 refl refl;
        features_ro_compat_at =
            be_u32-after f 212 v5.features_ro_compat w.features_ro_compat_u32 refl refl;
        features_incompat_at =
            be_u32-after f 216 v5.features_incompat w.features_incompat_u32 refl refl;
        features_log_incompat_at =
            be_u32-after f 220 v5.features_log_incompat w.features_log_incompat_u32 refl refl;
        crc_at = le_u32-spared f 224 v5.crc refl refl c;
        sparse_inode_align_at =
            be_u32-after f 228 v5.sparse_inode_align w.sparse_inode_align_u32 refl refl;
        pquotino_at = be_u64-after f 232 v5.pquotino w.pquotino_u64 refl refl;
        lsn_at = be_u64-after f 240 v5.lsn w.lsn_u64 refl refl;
        meta_uuid_at = slice-after f 248 16 v5.meta_uuid refl refl;
        metadirino_at = be_u64-after f 264 v5.metadirino w.metadirino_u64 refl refl;
        rgcount_at = be_u32-after f 272 v5.rgcount w.rgcount_u32 refl refl;
        rgextents_at = be_u32-after f 276 v5.rgextents w.rgextents_u32 refl refl;
        rgblklog_at = index-after f 280 v5.rgblklog refl refl;
        rtstart_at = be_u64-after f 288 v5.rtstart w.rtstart_u64 refl refl;
        rtreserved_at = be_u64-after f 296 v5.rtreserved w.rtreserved_u64 refl refl;
      }

  pub superblock-held : Holds a (after (stores (with_v5 a (some v5))) bytes)
  unfolding stored spares
  superblock-held =
      let f = fits a v5 bytes v w h in
      record {
        magic_at = be_u32-after f 0 xfs_sb_magic (omega arith) refl refl;
        block_size_at = be_u32-after f 4 a.block_size v.block_size_u32 refl refl;
        dblocks_at = be_u64-after f 8 a.dblocks v.dblocks_u64 refl refl;
        rblocks_at = be_u64-after f 16 a.rblocks v.rblocks_u64 refl refl;
        rextents_at = be_u64-after f 24 a.rextents v.rextents_u64 refl refl;
        uuid_at = slice-after f 32 16 a.uuid refl refl;
        logstart_at = be_u64-after f 48 a.logstart v.logstart_u64 refl refl;
        rootino_at = be_u64-after f 56 a.rootino v.rootino_u64 refl refl;
        rbmino_at = be_u64-after f 64 a.rbmino v.rbmino_u64 refl refl;
        rsumino_at = be_u64-after f 72 a.rsumino v.rsumino_u64 refl refl;
        rextsize_at = be_u32-after f 80 a.rextsize v.rextsize_u32 refl refl;
        ag_blocks_at = be_u32-after f 84 a.ag_blocks v.ag_blocks_u32 refl refl;
        ag_count_at = be_u32-after f 88 a.ag_count v.ag_count_u32 refl refl;
        rbm_blocks_at = be_u32-after f 92 a.rbm_blocks v.rbm_blocks_u32 refl refl;
        log_blocks_at = be_u32-after f 96 a.log_blocks v.log_blocks_u32 refl refl;
        version_at = be_u16-after f 100 a.version v.version_u16 refl refl;
        sector_size_at = be_u16-after f 102 a.sector_size v.sector_size_u16 refl refl;
        inode_size_at = be_u16-after f 104 a.inode_size v.inode_size_u16 refl refl;
        inode_per_block_at = be_u16-after f 106 a.inode_per_block v.inode_per_block_u16 refl refl;
        fname_at = slice-after f 108 12 a.fname refl refl;
        block_log_at = index-after f 120 a.block_log refl refl;
        sect_log_at = index-after f 121 a.sect_log refl refl;
        inode_log_at = index-after f 122 a.inode_log refl refl;
        inopblog_at = index-after f 123 a.inopblog refl refl;
        agblklog_at = index-after f 124 a.agblklog refl refl;
        rextslog_at = index-after f 125 a.rextslog refl refl;
        inprogress_at = index-after f 126 (if a.inprogress then 1 else 0) refl refl;
        imax_pct_at = index-after f 127 a.imax_pct refl refl;
        icount_at = be_u64-after f 128 a.icount v.icount_u64 refl refl;
        ifree_at = be_u64-after f 136 a.ifree v.ifree_u64 refl refl;
        fdblocks_at = be_u64-after f 144 a.fdblocks v.fdblocks_u64 refl refl;
        frextents_at = be_u64-after f 152 a.frextents v.frextents_u64 refl refl;
        uquotino_at = be_u64-after f 160 a.uquotino v.uquotino_u64 refl refl;
        gquotino_at = be_u64-after f 168 a.gquotino v.gquotino_u64 refl refl;
        qflags_at = be_u16-after f 176 a.qflags v.qflags_u16 refl refl;
        flags_at = index-after f 178 a.flags refl refl;
        shared_vn_at = index-after f 179 a.shared_vn refl refl;
        inoalignmt_at = be_u32-after f 180 a.inoalignmt v.inoalignmt_u32 refl refl;
        unit_at = be_u32-after f 184 a.unit v.unit_u32 refl refl;
        width_at = be_u32-after f 188 a.width v.width_u32 refl refl;
        log_sector_size_at = be_u16-after f 194 a.log_sector_size v.log_sector_size_u16 refl refl;
        log_sunit_at = be_u32-after f 196 a.log_sunit v.log_sunit_u32 refl refl;
        features2_at = be_u32-after f 200 a.features2 v.features2_u32 refl refl;
        bad_features2_at = be_u32-after f 204 a.bad_features2 v.bad_features2_u32 refl refl;
      }
