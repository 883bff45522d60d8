-- ===== src/Crabfs/OnDisk/Superblock.antt =====
-- The superblock, `lib/crabfs/on_disk/superblock.rs`.
pub mod Valid
pub mod Held
pub mod RoundTrip
use theos.Base.{
  ℕ, List, [], ◌∷◌, ◌+◌, ◌*◌, ◌/◌, ◌%◌, ◌-◌, Option, none, some, Bool, true, false, not, map, ◌++◌,
}
use theos.Base.{
  Exec, done, ◌>>=◌, Result, ok, err, try, and_then, slice, index, ◌==◌, ltb, leb, if◌then◌else◌,
}
use theos.Crabfs.Error.{
  ParseError, invalid_magic, invalid_int, unsupported_version, invalid_field, sb_blocksize,
  sb_sectsize, sb_inodesize, buffer_too_small, FieldName,
}
use theos.Crabfs.Endian.{
  Buffer, Put, put, fill, put_byte, put_be16, put_be32, put_be64, be_u16, be_u32, be_u64, le_u32,
  apply_all, require_len,
}
use mathlib.Core.Bool.{◌&&◌}
use Prim.Native.Nat.{bit_and}

abbrev pub xfs_sb_magic : ℕ
xfs_sb_magic = 0x58465342

abbrev pub xfs_sb_version_5 : ℕ
xfs_sb_version_5 = 5

abbrev pub xfs_sb_feat_incompat_ftype : ℕ
xfs_sb_feat_incompat_ftype = 1

abbrev pub xfs_dsb_size : ℕ
xfs_dsb_size = 304

abbrev pub xfs_sb_crc_off : ℕ
xfs_sb_crc_off = 224

pub record V5Fields : Type 0 where
  pub features_compat : ℕ
  pub features_ro_compat : ℕ
  pub features_incompat : ℕ
  pub features_log_incompat : ℕ
  pub crc : ℕ
  pub sparse_inode_align : ℕ
  pub pquotino : ℕ
  pub lsn : ℕ
  pub meta_uuid : List ℕ
  pub metadirino : ℕ
  pub rgcount : ℕ
  pub rgextents : ℕ
  pub rgblklog : ℕ
  pub rtstart : ℕ
  pub rtreserved : ℕ

pub record Superblock : Type 0 where
  pub block_size : ℕ
  pub dblocks : ℕ
  pub rblocks : ℕ
  pub rextents : ℕ
  pub uuid : List ℕ
  pub logstart : ℕ
  pub rootino : ℕ
  pub rbmino : ℕ
  pub rsumino : ℕ
  pub rextsize : ℕ
  pub ag_blocks : ℕ
  pub ag_count : ℕ
  pub rbm_blocks : ℕ
  pub log_blocks : ℕ
  pub version : ℕ
  pub sector_size : ℕ
  pub inode_size : ℕ
  pub inode_per_block : ℕ
  pub fname : List ℕ
  pub block_log : ℕ
  pub sect_log : ℕ
  pub inode_log : ℕ
  pub inopblog : ℕ
  pub agblklog : ℕ
  pub rextslog : ℕ
  pub inprogress : Bool
  pub imax_pct : ℕ
  pub icount : ℕ
  pub ifree : ℕ
  pub fdblocks : ℕ
  pub frextents : ℕ
  pub uquotino : ℕ
  pub gquotino : ℕ
  pub qflags : ℕ
  pub flags : ℕ
  pub shared_vn : ℕ
  pub inoalignmt : ℕ
  pub unit : ℕ
  pub width : ℕ
  pub log_sector_size : ℕ
  pub log_sunit : ℕ
  pub features2 : ℕ
  pub bad_features2 : ℕ
  pub v5 : Option V5Fields

unfoldable pub parse_v5 : Buffer → Exec V5Fields
parse_v5 bytes = slice bytes 248 16 >>= λ meta_uuid. be_u32 bytes 208 >>= λ features_compat.
    be_u32 bytes 212 >>= λ features_ro_compat. be_u32 bytes 216 >>= λ features_incompat.
    be_u32 bytes 220 >>= λ features_log_incompat. le_u32 bytes 224 >>= λ crc.
    be_u32 bytes 228 >>= λ sparse_inode_align. be_u64 bytes 232 >>= λ pquotino.
    be_u64 bytes 240 >>= λ lsn. be_u64 bytes 264 >>= λ metadirino. be_u32 bytes 272 >>= λ rgcount.
    be_u32 bytes 276 >>= λ rgextents. index bytes 280 >>= λ rgblklog.
    be_u64 bytes 288 >>= λ rtstart. be_u64 bytes 296 >>= λ rtreserved. done (record {
      features_compat = features_compat;
      features_ro_compat = features_ro_compat;
      features_incompat = features_incompat;
      features_log_incompat = features_log_incompat;
      crc = crc;
      sparse_inode_align = sparse_inode_align;
      pquotino = pquotino;
      lsn = lsn;
      meta_uuid = meta_uuid;
      metadirino = metadirino;
      rgcount = rgcount;
      rgextents = rgextents;
      rgblklog = rgblklog;
      rtstart = rtstart;
      rtreserved = rtreserved;
    })

unfoldable pub parse : Buffer → Exec (Result ParseError Superblock)
parse bytes = and_then (require_len bytes xfs_dsb_size) λ _. be_u32 bytes 0 >>= λ magic.
    if magic == xfs_sb_magic
    then (slice bytes 32 16 >>= λ uuid. slice bytes 108 12 >>= λ fname.
        be_u16 bytes 100 >>= λ version_word. be_u32 bytes 4 >>= λ block_size.
        be_u16 bytes 102 >>= λ sector_size. be_u16 bytes 104 >>= λ inode_size.
        if block_size == 0
        then done (err (invalid_field sb_blocksize block_size))
        else (if sector_size == 0
            then done (err (invalid_field sb_sectsize sector_size))
            else (if inode_size == 0
                then done (err (invalid_field sb_inodesize inode_size))
                else ((if version_word % 16 == xfs_sb_version_5
                      then (parse_v5 bytes >>= λ v. done (some v))
                      else done none)
                    >>= λ v5. be_u64 bytes 8 >>= λ dblocks. be_u64 bytes 16 >>= λ rblocks.
                        be_u64 bytes 24 >>= λ rextents. be_u64 bytes 48 >>= λ logstart.
                        be_u64 bytes 56 >>= λ rootino. be_u64 bytes 64 >>= λ rbmino.
                        be_u64 bytes 72 >>= λ rsumino. be_u32 bytes 80 >>= λ rextsize.
                        be_u32 bytes 84 >>= λ ag_blocks. be_u32 bytes 88 >>= λ ag_count.
                        be_u32 bytes 92 >>= λ rbm_blocks. be_u32 bytes 96 >>= λ log_blocks.
                        be_u16 bytes 106 >>= λ inode_per_block. index bytes 120 >>= λ block_log.
                        index bytes 121 >>= λ sect_log. index bytes 122 >>= λ inode_log.
                        index bytes 123 >>= λ inopblog. index bytes 124 >>= λ agblklog.
                        index bytes 125 >>= λ rextslog. index bytes 126 >>= λ inprogress_byte.
                        index bytes 127 >>= λ imax_pct. be_u64 bytes 128 >>= λ icount.
                        be_u64 bytes 136 >>= λ ifree. be_u64 bytes 144 >>= λ fdblocks.
                        be_u64 bytes 152 >>= λ frextents. be_u64 bytes 160 >>= λ uquotino.
                        be_u64 bytes 168 >>= λ gquotino. be_u16 bytes 176 >>= λ qflags.
                        index bytes 178 >>= λ flags. index bytes 179 >>= λ shared_vn.
                        be_u32 bytes 180 >>= λ inoalignmt. be_u32 bytes 184 >>= λ unit.
                        be_u32 bytes 188 >>= λ width. be_u16 bytes 194 >>= λ log_sector_size.
                        be_u32 bytes 196 >>= λ log_sunit. be_u32 bytes 200 >>= λ features2.
                        be_u32 bytes 204 >>= λ bad_features2. done (
                          ok (record {
                            block_size = block_size;
                            dblocks = dblocks;
                            rblocks = rblocks;
                            rextents = rextents;
                            uuid = uuid;
                            logstart = logstart;
                            rootino = rootino;
                            rbmino = rbmino;
                            rsumino = rsumino;
                            rextsize = rextsize;
                            ag_blocks = ag_blocks;
                            ag_count = ag_count;
                            rbm_blocks = rbm_blocks;
                            log_blocks = log_blocks;
                            version = version_word % 16;
                            sector_size = sector_size;
                            inode_size = inode_size;
                            inode_per_block = inode_per_block;
                            fname = fname;
                            block_log = block_log;
                            sect_log = sect_log;
                            inode_log = inode_log;
                            inopblog = inopblog;
                            agblklog = agblklog;
                            rextslog = rextslog;
                            inprogress = not (inprogress_byte == 0);
                            imax_pct = imax_pct;
                            icount = icount;
                            ifree = ifree;
                            fdblocks = fdblocks;
                            frextents = frextents;
                            uquotino = uquotino;
                            gquotino = gquotino;
                            qflags = qflags;
                            flags = flags;
                            shared_vn = shared_vn;
                            inoalignmt = inoalignmt;
                            unit = unit;
                            width = width;
                            log_sector_size = log_sector_size;
                            log_sunit = log_sunit;
                            features2 = features2;
                            bad_features2 = bad_features2;
                            v5 = v5;
                          }))))))
    else done (err (invalid_magic xfs_sb_magic magic))

unfoldable pub is_v5 : Superblock → Bool
is_v5 self = self.version == xfs_sb_version_5

unfoldable pub has_incompat_feature : Superblock → ℕ → Bool
has_incompat_feature self feature = elim self.v5 [
  | none ↦ false
  | some v ↦ not (bit_and v.features_incompat feature == 0)
]

unfoldable pub has_ro_compat_feature : Superblock → ℕ → Bool
has_ro_compat_feature self feature = elim self.v5 [
  | none ↦ false
  | some v ↦ not (bit_and v.features_ro_compat feature == 0)
]

abbrev pub v5_stores : Option V5Fields → List Put
v5_stores none = []
v5_stores (some v5) =
    put_be32 208 v5.features_compat
    ∷ put_be32 212 v5.features_ro_compat
    ∷ put_be32 216 v5.features_incompat
    ∷ put_be32 220 v5.features_log_incompat
    ∷ put_be32 228 v5.sparse_inode_align
    ∷ put_be64 232 v5.pquotino
    ∷ put_be64 240 v5.lsn
    ∷ put 248 16 v5.meta_uuid
    ∷ put_be64 264 v5.metadirino
    ∷ put_be32 272 v5.rgcount
    ∷ put_be32 276 v5.rgextents
    ∷ put_byte 280 v5.rgblklog
    ∷ put_be64 288 v5.rtstart
    ∷ put_be64 296 v5.rtreserved
    ∷ []

-- The stores that `serialize` makes, in their order.
abbrev pub stores : Superblock → List Put
stores self =
    put_be32 0 xfs_sb_magic
    ∷ put_be32 4 self.block_size
    ∷ put_be64 8 self.dblocks
    ∷ put_be64 16 self.rblocks
    ∷ put_be64 24 self.rextents
    ∷ put 32 16 self.uuid
    ∷ put_be64 48 self.logstart
    ∷ put_be64 56 self.rootino
    ∷ put_be64 64 self.rbmino
    ∷ put_be64 72 self.rsumino
    ∷ put_be32 80 self.rextsize
    ∷ put_be32 84 self.ag_blocks
    ∷ put_be32 88 self.ag_count
    ∷ put_be32 92 self.rbm_blocks
    ∷ put_be32 96 self.log_blocks
    ∷ put_be16 100 self.version
    ∷ put_be16 102 self.sector_size
    ∷ put_be16 104 self.inode_size
    ∷ put_be16 106 self.inode_per_block
    ∷ put 108 12 self.fname
    ∷ put_byte 120 self.block_log
    ∷ put_byte 121 self.sect_log
    ∷ put_byte 122 self.inode_log
    ∷ put_byte 123 self.inopblog
    ∷ put_byte 124 self.agblklog
    ∷ put_byte 125 self.rextslog
    ∷ put_byte 126 (if self.inprogress then 1 else 0)
    ∷ put_byte 127 self.imax_pct
    ∷ put_be64 128 self.icount
    ∷ put_be64 136 self.ifree
    ∷ put_be64 144 self.fdblocks
    ∷ put_be64 152 self.frextents
    ∷ put_be64 160 self.uquotino
    ∷ put_be64 168 self.gquotino
    ∷ put_be16 176 self.qflags
    ∷ put_byte 178 self.flags
    ∷ put_byte 179 self.shared_vn
    ∷ put_be32 180 self.inoalignmt
    ∷ put_be32 184 self.unit
    ∷ put_be32 188 self.width
    ∷ put_byte 192 0
    ∷ put_byte 193 0
    ∷ put_be16 194 self.log_sector_size
    ∷ put_be32 196 self.log_sunit
    ∷ put_be32 200 self.features2
    ∷ put_be32 204 self.bad_features2
    ∷ v5_stores self.v5

unfoldable pub serialize : Superblock → Buffer → Exec (Result ParseError (Unit {0}) × Buffer)
serialize self bytes =
    try (require_len bytes xfs_dsb_size) bytes
      λ _. apply_all (stores self) bytes >>= λ bytes. done (ok tt, bytes)
