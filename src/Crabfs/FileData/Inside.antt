-- ===== src/Crabfs/FileData/Inside.antt =====
-- A read that lies inside one extent.
use theos.Base.{
  ℕ, ◌+◌, ◌-◌, ◌*◌, ◌≤◌, ◌<◌, ◌≡◌, refl, ◌∙◌, min, arith, List, [], ◌∷◌, Bool, true, false, Exec,
  done, Result, ok, slice_from, ◌==◌, le→leb, lt→ltb,
}
use theos.Base.{lt→not-leb}
use theos.Crabfs.Error.{ReadError}
use theos.Crabfs.Endian.{Buffer}
use theos.Crabfs.OnDisk.Bmap.{BmapExtent}
use theos.Crabfs.OnDisk.Inode.{Inode, i64_as_u64}
use theos.Crabfs.OnDisk.Superblock.{Superblock}
use theos.Crabfs.Reader.{BlockDevice, with_read, extent_to_physical_offset}
use theos.Crabfs.FileData.{
  ext_start_bytes, ext_len_bytes, covers, to_read, phy_off, parse_extents, copy_extents,
  read_extent_range,
}

-- The bytes from `offset` on, of which there are some, are in the extent and in the file.
pub record IsInside (sb : Superblock) (ext : BmapExtent) (file_size offset size : ℕ) : Type 0 where
  pub behind : ext.startoff * sb.block_size ≤ offset
  pub before : offset + size ≤ ext.startoff * sb.block_size + ext.blockcount * sb.block_size
  pub in_file : offset + size ≤ file_size
  pub some_bytes : 0 < size

module _ {D : Type 0} (device : BlockDevice D) (sb : Superblock) (ext : BmapExtent) where
  sub_self : (n : ℕ) → n - n ≡ 0
  sub_self n = omega arith

  covers_lem :
      (file_size offset size : ℕ)
      → IsInside sb ext file_size offset size
      → covers sb ext offset ≡ true
  covers_lem file_size offset size i =
      rw
        (
          le→leb (ext_start_bytes sb ext) offset i.behind,
          lt→ltb offset (ext_start_bytes sb ext + ext_len_bytes sb ext)
              (omega (arith, i.before, i.some_bytes)),
        )
        refl

  to_read_lem :
      (file_size offset size : ℕ)
      → IsInside sb ext file_size offset size
      → to_read sb ext offset size ≡ size
  to_read_lem file_size offset size i = omega (arith, i.before, i.behind)

  when_true : {A : Type 0} (b : Bool) (x y : A) → b ≡ true → (elim b [ true ↦ x | false ↦ y ]) ≡ x
  when_true true x y h = refl
  when_true false x y h = cc

  -- A read of all that remains is the last.
  one_read :
      (place n size : ℕ) (d d' : D) (bytes : Buffer)
      (more : Buffer → D → Exec (Result ReadError (List ℕ) × D))
      → n ≡ size
      → device.read_at d place size ≡ (ok bytes, d')
      → with_read
          (device.read_at d place n)
          (λ d. d)
          (λ buf d. elim (size - n == 0) [ true ↦ done (ok buf, d) | false ↦ more buf d ])
        ≡ done (ok bytes, d')
  one_read place n size d d' bytes more e r =
      rw (e, r) (when_true (size - size == 0) _ _ (rw (sub_self size) refl))

  copy_extents_inside :
      (exts : List BmapExtent) (file_size offset size : ℕ) (d d' : D) (bytes : Buffer)
      → IsInside sb ext file_size offset size
      → device.read_at d (phy_off sb ext offset) size ≡ (ok bytes, d')
      → copy_extents device sb (ext ∷ exts) size offset [] d ≡ done (ok bytes, d')
  unfolding copy_extents
  copy_extents_inside exts file_size offset size d d' bytes i r =
      when_true (covers sb ext offset) _ _ (covers_lem file_size offset size i)
      ∙ one_read (phy_off sb ext offset) (to_read sb ext offset size) size d d' bytes _
          (to_read_lem file_size offset size i) r

  -- Where the first extent of the fork has all the bytes that are asked for, and the file has them too, one
  -- read of the device gives them: those at the extent's place on the device.
  pub read_extent_range_inside :
      (exts : List BmapExtent) (inode : Inode) (scratch fork : Buffer) (offset size : ℕ) (d d' : D)
      (bytes : Buffer)
      → slice_from scratch 176 ≡ done fork
      → parse_extents fork inode.nextents 0 ≡ done (ok (ext ∷ exts))
      → IsInside sb ext (i64_as_u64 inode.size) offset size
      → device.read_at d
          (extent_to_physical_offset sb ext + (offset - ext.startoff * sb.block_size))
          size
        ≡ (ok bytes, d')
      → read_extent_range device sb d inode scratch offset size ≡ done (ok bytes, d')
  unfolding read_extent_range
  read_extent_range_inside exts inode scratch fork offset size d d' bytes s p i r =
      rw
        (
          s,
          p,
          lt→not-leb (i64_as_u64 inode.size) offset (omega (arith, i.in_file, i.some_bytes)),
          rest,
        )
        (copy_extents_inside exts (i64_as_u64 inode.size) offset size d d' bytes i r)
    where
      rest : min size (i64_as_u64 inode.size - offset) ≡ size
      rest = omega (arith, i.in_file)
