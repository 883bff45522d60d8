-- ===== src/Crabfs/FileData.antt =====
-- `lib/crabfs/reader.rs`: the data of files and whole directories from a block device.
pub mod Bounds
pub mod Inside
use theos.Base.{
  ℕ, zero, suc, ◌+◌, ◌-◌, ◌*◌, min, List, [], ◌∷◌, ◌++◌, length, take, replicate, Bool, true, false,
  ◌&&◌, ◌||◌, not, Option, none, some,
}
use theos.Base.{
  Exec, done, ◌>>=◌, ◌>>?◌, Result, ok, err, try, slice, slice_from, leb, ltb, ◌==◌, if◌then◌else◌,
}
use theos.Base.Bits.{bit_and}
use theos.Crabfs.Error.{ParseError, invalid_field, mode_field, ReadError, read_parse}
use theos.Crabfs.Endian.{Buffer}
use theos.Crabfs.OnDisk.Bmap as BmapBlock
use theos.Crabfs.OnDisk.Bmap.{BmapExtent}
use theos.Crabfs.OnDisk.Inode.{
  Inode, InodeFormat, dev, inline, extents, btree, uuid_format, i64_as_u64,
}
use theos.Crabfs.OnDisk.Superblock.{
  Superblock, V5Fields, xfs_sb_feat_incompat_ftype, has_incompat_feature,
}
use theos.Crabfs.ExtentDir.{
  Memory, Decoder, DirEntry, dot_entries, bytes_eq, crabfs_extent_dir_magic,
  parse_extent_dir_entries, find_extent_dir_entry,
}
use theos.Crabfs.ShortDir.{list_short, find_short}
use theos.Crabfs.Reader.{BlockDevice, with_read, parsed, read_inode, extent_to_physical_offset}

-- The file type in a mode.
abbrev pub mode_type : ℕ → ℕ
mode_type mode = bit_and mode 0xf000

-- `n` extents of the fork from the `i`-th on.
unfoldable pub parse_extents : Buffer → ℕ → ℕ → Exec (Result ParseError (List BmapExtent))
parse_extents fork zero i = done (ok [])
parse_extents fork (suc n) i = slice_from fork (i * 16) >>= λ ext_bytes.
    BmapBlock.parse ext_bytes >>? λ ext.
    parse_extents fork n (i + 1) >>? λ rest. done (ok (ext ∷ rest))

abbrev pub ext_start_bytes : Superblock → BmapExtent → ℕ
ext_start_bytes sb ext = ext.startoff * sb.block_size

abbrev pub ext_len_bytes : Superblock → BmapExtent → ℕ
ext_len_bytes sb ext = ext.blockcount * sb.block_size

abbrev pub covers : Superblock → BmapExtent → ℕ → Bool
covers sb ext current_off =
    leb (ext_start_bytes sb ext) current_off
    && ltb current_off (ext_start_bytes sb ext + ext_len_bytes sb ext)

-- How much is read of an extent that covers the offset.
abbrev pub to_read : Superblock → BmapExtent → ℕ → ℕ → ℕ
to_read sb ext current_off remaining =
    min (ext_len_bytes sb ext - (current_off - ext_start_bytes sb ext)) remaining

abbrev pub phy_off : Superblock → BmapExtent → ℕ → ℕ
phy_off sb ext current_off =
    extent_to_physical_offset sb ext + (current_off - ext_start_bytes sb ext)

-- `?` behind a parser, in a function that holds the device.
abbrev pub with_parsed {ℓ} :
    {D : Type 0} {A B : Type ℓ}
    → Exec (Result ParseError A)
    → D
    → (A → Exec (Result ReadError B × D))
    → Exec (Result ReadError B × D)
with_parsed m d k = m >>= λ p. try (parsed p) d k

abbrev pub is_extent_dir : Buffer → Bool
is_extent_dir bytes =
    leb (length crabfs_extent_dir_magic) (length bytes)
    && bytes_eq (take (length crabfs_extent_dir_magic) bytes) crabfs_extent_dir_magic

module _ {D : Type 0} (device : BlockDevice D) (sb : Superblock) where
  -- The loop over the extents, which stops when nothing remains.
  unfoldable pub copy_extents :
      List BmapExtent → ℕ → ℕ → List ℕ → D → Exec (Result ReadError (List ℕ) × D)
  copy_extents [] remaining current_off result d = done (ok result, d)
  copy_extents (ext ∷ exts) remaining current_off result d = elim (covers sb ext current_off) [
    | true ↦
        let n = to_read sb ext current_off remaining in
        with_read (device.read_at d (phy_off sb ext current_off) n) (λ d. d)
          (λ buf d. elim (remaining - n == 0) [
            | true ↦ done (ok (result ++ buf), d)
            | false ↦ copy_extents exts (remaining - n) (current_off + n) (result ++ buf) d
          ])
    | false ↦ copy_extents exts remaining current_off result d
  ]

  unfoldable pub read_extent_range :
      D → Inode → Buffer → ℕ → ℕ → Exec (Result ReadError (List ℕ) × D)
  read_extent_range d inode scratch offset size = slice_from scratch 176 >>= λ fork.
      with_parsed (parse_extents fork inode.nextents 0) d λ exts.
        let file_size = i64_as_u64 inode.size in
        if leb file_size offset
        then done (ok [], d)
        else copy_extents exts (min size (file_size - offset)) offset [] d

  abbrev pub read_extent_payload : D → Inode → Buffer → ℕ → Exec (Result ReadError (List ℕ) × D)
  read_extent_payload d inode scratch size = read_extent_range d inode scratch 0 size

  -- An inode through a scratch buffer of its size.
  abbrev pub with_inode {ℓ} :
      {A : Type ℓ}
      → D
      → ℕ
      → (D → Inode → Buffer → Exec (Result ReadError A × D))
      → Exec (Result ReadError A × D)
  with_inode d ino k = read_inode device d sb ino (replicate sb.inode_size 0) >>= λ r.
      try r.0 (r.1.0) λ inode. k r.1.0 inode r.1.1

  -- The data that stand in the inode itself.
  abbrev pub read_local : D → Inode → Buffer → ℕ → ℕ → Exec (Result ReadError (List ℕ) × D)
  read_local d inode scratch offset size = slice_from scratch 176 >>= λ bytes.
      let file_size = i64_as_u64 inode.size in
      if leb file_size offset
      then done (ok [], d)
      else (slice bytes offset (min (offset + size) file_size - offset) >>= λ found.
          done (ok found, d))

  abbrev pub read_format :
      InodeFormat → D → Inode → Buffer → ℕ → ℕ → Exec (Result ReadError (List ℕ) × D)
  read_format inline d inode scratch offset size = read_local d inode scratch offset size
  read_format extents d inode scratch offset size = read_extent_range d inode scratch offset size
  read_format dev d inode scratch offset size = done (ok [], d)
  read_format btree d inode scratch offset size = done (ok [], d)
  read_format uuid_format d inode scratch offset size = done (ok [], d)

  -- Only regular files and symbolic links have data.
  unfoldable pub read_file_data : D → ℕ → ℕ → ℕ → Exec (Result ReadError (List ℕ) × D)
  read_file_data d ino_num offset size = with_inode d ino_num λ d inode scratch.
      if not (mode_type inode.mode == 0x8000) && not (mode_type inode.mode == 0xa000)
      then done (ok [], d)
      else read_format inode.format d inode scratch offset size

  -- `Err` for an inode that is no directory.
  abbrev pub with_directory {ℓ} :
      {A : Type ℓ}
      → D
      → ℕ
      → (D → Inode → Buffer → Exec (Result ReadError A × D))
      → Exec (Result ReadError A × D)
  with_directory d ino k = with_inode d ino λ d inode scratch.
      if not (mode_type inode.mode == 0x4000)
      then done (err (read_parse (invalid_field mode_field inode.mode)), d)
      else k d inode scratch

  module _ (memory : Memory) (from_utf8_lossy : Decoder) where
    abbrev pub list_format :
        InodeFormat → D → ℕ → Inode → Buffer → Exec (Result ReadError (List DirEntry) × D)
    list_format inline d ino_num inode scratch = slice_from scratch 176 >>= λ bytes.
        list_short from_utf8_lossy bytes ino_num
          (has_incompat_feature sb xfs_sb_feat_incompat_ftype)
        >>= λ p. done (parsed p, d)
    list_format extents d ino_num inode scratch =
        read_extent_payload d inode scratch (i64_as_u64 inode.size) >>= λ r. try r.0 r.1 λ bytes.
          if is_extent_dir bytes
          then (parse_extent_dir_entries memory from_utf8_lossy bytes ino_num >>= λ p.
              done (parsed p, r.1))
          else done (ok (dot_entries ino_num ino_num), r.1)
    list_format dev d ino_num inode scratch = done (ok [], d)
    list_format btree d ino_num inode scratch = done (ok [], d)
    list_format uuid_format d ino_num inode scratch = done (ok [], d)

    unfoldable pub list_dir_entries : D → ℕ → Exec (Result ReadError (List DirEntry) × D)
    list_dir_entries d ino_num =
        with_directory d ino_num λ d inode scratch. list_format inode.format d ino_num inode scratch

  module _ (from_utf8_lossy : Decoder) where
    abbrev pub find_format :
        InodeFormat → D → ℕ → List ℕ → Inode → Buffer → Exec (Result ReadError (Option (ℕ × ℕ)) × D)
    find_format inline d dir_ino target inode scratch = slice_from scratch 176 >>= λ bytes.
        find_short from_utf8_lossy bytes dir_ino
          (has_incompat_feature sb xfs_sb_feat_incompat_ftype) target
        >>= λ p. done (parsed p, d)
    find_format extents d dir_ino target inode scratch =
        read_extent_payload d inode scratch (i64_as_u64 inode.size) >>= λ r. try r.0 r.1 λ bytes.
          if is_extent_dir bytes
          then (find_extent_dir_entry bytes dir_ino target >>= λ p. done (parsed p, r.1))
          else (if bytes_eq target (46 ∷ []) || bytes_eq target (46 ∷ 46 ∷ [])
              then done (ok (some (dir_ino, 2)), r.1)
              else done (ok none, r.1))
    find_format dev d dir_ino target inode scratch = done (ok none, d)
    find_format btree d dir_ino target inode scratch = done (ok none, d)
    find_format uuid_format d dir_ino target inode scratch = done (ok none, d)

    unfoldable pub find_dir_entry : D → ℕ → List ℕ → Exec (Result ReadError (Option (ℕ × ℕ)) × D)
    find_dir_entry d dir_ino target =
        with_directory d dir_ino
          λ d inode scratch. find_format inode.format d dir_ino target inode scratch
