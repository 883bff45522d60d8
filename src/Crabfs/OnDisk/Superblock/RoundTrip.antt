-- ===== src/Crabfs/OnDisk/Superblock/RoundTrip.antt =====
-- What `Superblock::serialize` writes, `Superblock::parse` reads back, and `parse` returns on all
-- bytes.
use theos.Base.{
  ℕ, ◌≡◌, ◌≤◌, ◌<◌, ◌%◌, refl, sym, subst, length, done, ok, arith, inl, inr, ◌>>=◌, some,
}
use theos.Crabfs.Endian.{Buffer, le_u32, require_len_lem, require_len_short, length_cases}
use theos.Crabfs.Endian.Layout.{apply_all_lem}
use theos.Crabfs.Endian.Layout.{length-after}
use theos.Crabfs.Endian.Total.{
  IsTotal, done-IsTotal, then-IsTotal, if-IsTotal, be_u16-IsTotal, be_u32-IsTotal, be_u64-IsTotal,
  le_u32-IsTotal, slice-IsTotal, index-IsTotal,
}
use theos.Crabfs.OnDisk.Superblock.{
  Superblock, V5Fields, parse, parse_v5, serialize, stores, xfs_sb_version_5,
}
use theos.Base.{==_iff}
use theos.Crabfs.OnDisk.Superblock.Valid.{IsValid, IsValidV5, with_v5, fits, byte-flag, ==_ne}
use theos.Crabfs.OnDisk.Superblock.Held.{HoldsV5, Holds, superblock-held, v5-held}

mod-small : (n : ℕ) → n < 16 → n % 16 ≡ n
mod-small n h = omega arith

parse_v5-after : (v5 : V5Fields) (b : Buffer) → HoldsV5 v5 b → parse_v5 b ≡ done v5
unfolding parse_v5
parse_v5-after v5 b i =
    rw
      (
        i.meta_uuid_at, i.features_compat_at, i.features_ro_compat_at, i.features_incompat_at,
        i.features_log_incompat_at, i.crc_at, i.sparse_inode_align_at, i.pquotino_at, i.lsn_at,
        i.metadirino_at, i.rgcount_at, i.rgextents_at, i.rgblklog_at, i.rtstart_at, i.rtreserved_at,
      )
      refl

parse-after :
    (a : Superblock) (v5 : V5Fields) (bytes : Buffer)
    → IsValid a
    → a.version ≡ xfs_sb_version_5
    → 304 ≤ length bytes
    → Holds a bytes
    → HoldsV5 v5 bytes
    → parse bytes ≡ done (ok (with_v5 a (some v5)))
unfolding parse
parse-after a v5 bytes v five h i j =
    rw
      (
        require_len_lem bytes 304 h,
        i.magic_at,
        i.block_size_at,
        i.uuid_at,
        i.version_at,
        i.sector_size_at,
        i.inode_size_at,
        i.fname_at,
        ==_ne a.block_size v.block_size_lem,
        ==_ne a.sector_size v.sector_size_lem,
        ==_ne a.inode_size v.inode_size_lem,
        mod-small a.version v.version_lem,
        (==_iff a.version xfs_sb_version_5).1 five,
        parse_v5-after v5 bytes j,
        i.dblocks_at,
        i.rblocks_at,
        i.rextents_at,
        i.logstart_at,
        i.rootino_at,
        i.rbmino_at,
        i.rsumino_at,
        i.rextsize_at,
        i.ag_blocks_at,
        i.ag_count_at,
        i.rbm_blocks_at,
        i.log_blocks_at,
        i.inode_per_block_at,
        i.block_log_at,
        i.sect_log_at,
        i.inode_log_at,
        i.inopblog_at,
        i.agblklog_at,
        i.rextslog_at,
        i.inprogress_at,
        i.imax_pct_at,
        i.icount_at,
        i.ifree_at,
        i.fdblocks_at,
        i.frextents_at,
        i.uquotino_at,
        i.gquotino_at,
        i.qflags_at,
        i.flags_at,
        i.shared_vn_at,
        i.inoalignmt_at,
        i.unit_at,
        i.width_at,
        i.log_sector_size_at,
        i.log_sunit_at,
        i.features2_at,
        i.bad_features2_at,
        byte-flag a.inprogress,
      )
      refl

-- A version 5 superblock whose fields have their widths and whose three sizes are not 0, stored into
-- a buffer that holds its checksum field already, is read back the same.
pub parse-serialize_superblock :
    (a : Superblock) (v5 : V5Fields) (bytes : Buffer)
    → IsValid a
    → IsValidV5 v5
    → a.version ≡ xfs_sb_version_5
    → a.v5 ≡ some v5
    → 304 ≤ length bytes
    → le_u32 bytes 224 ≡ done v5.crc
    → (serialize a bytes >>= λ r. parse r.1) ≡ done (ok a)
unfolding serialize
parse-serialize_superblock a v5 bytes v w five e h c =
    subst (λ o. (serialize (with_v5 a o) bytes >>= λ r. parse r.1) ≡ done (ok (with_v5 a o)))
      (sym e)
      (rw (require_len_lem bytes 304 h, apply_all_lem (fits a v5 bytes v w h))
        (parse-after a v5 _ v five
          (omega (arith, length-after (stores (with_v5 a (some v5))) bytes))
          (superblock-held a v5 bytes v w h) (v5-held a v5 bytes v w h c)))

-- `Superblock::parse` returns on every buffer.
pub parse_superblock-IsTotal : (bytes : Buffer) → IsTotal (parse bytes)
unfolding parse parse_v5
parse_superblock-IsTotal bytes = elim (length_cases bytes 304) [
  | inl short ↦ rw (require_len_short bytes 304 short) (done-IsTotal _)
  | inr h ↦ rw (require_len_lem bytes 304 h) (
      search
        (
          done-IsTotal,
          then-IsTotal,
          if-IsTotal,
          be_u16-IsTotal bytes h,
          be_u32-IsTotal bytes h,
          be_u64-IsTotal bytes h,
          le_u32-IsTotal bytes h,
          slice-IsTotal bytes h,
          index-IsTotal bytes h,
        )
        depth 120 fits 20000)
]
