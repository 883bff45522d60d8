-- ===== src/Crabfs/FileData/Bounds.antt =====
-- A read of a file gives no more bytes than it was asked for.
use theos.Base.{
  ℕ, ◌+◌, ◌-◌, ◌≤◌, ◌⊎◌, inl, inr, subst, sym, ◌≡◌, refl, min, arith, List, [], ◌∷◌, ◌++◌, length,
  take, drop, Bool, true, false, Exec, done, panic, ◌>>=◌, Result, ok, err, try, slice, slice_from,
  replicate, not, ◌&&◌, leb, ◌==◌, if◌then◌else◌, length-append, length-take,
}
use theos.Crabfs.Error.{ReadError, DeviceError}
use theos.Crabfs.Endian.{Buffer}
use theos.Crabfs.OnDisk.Bmap.{BmapExtent}
use theos.Crabfs.OnDisk.Inode.{
  Inode, InodeFormat, dev, inline, extents, btree, uuid_format, i64_as_u64,
}
use theos.Crabfs.OnDisk.Superblock.{Superblock}
use theos.Crabfs.Reader.{BlockDevice, with_read, parsed, read_inode}
use theos.Crabfs.FileData.{
  covers, to_read, phy_off, parse_extents, copy_extents, read_extent_range, read_format,
  read_file_data, mode_type,
}

-- What a run returns, if it returns without an error, has the property.
unfoldable pub Gives : {A D : Type 0} → (A → Type 0) → Exec (Result ReadError A × D) → Type 0
Gives P (done (ok a, d)) = P a
Gives P (done (err e, d)) = Unit {0}
Gives P panic = Unit {0}

weaken-Gives :
    {A D : Type 0} {P Q : A → Type 0}
    → ((a : A) → P a → Q a)
    → (m : Exec (Result ReadError A × D)) → Gives P m
    → Gives Q m
unfolding Gives
weaken-Gives f (done (ok a, d)) h = f a h
weaken-Gives f (done (err e, d)) h = tt
weaken-Gives f panic h = tt

slice-cases :
    (xs : List ℕ) (off len : ℕ)
    → (slice xs off len ≡ done (take len (drop off xs))) ⊎ (slice xs off len ≡ panic)
slice-cases xs off len = cases (leb (off + len) (length xs)) _
  where
    cases :
        (b : Bool) (x : Exec (List ℕ))
        → ((if b then x else panic) ≡ x) ⊎ ((if b then x else panic) ≡ panic)
    cases true x = inl refl
    cases false x = inr refl

module _ {A B D : Type 0} (P : A → Type 0) where
  try-Gives :
      (r : Result ReadError B) (d : D) (k : B → Exec (Result ReadError A × D))
      → ((b : B) → Gives P (k b))
      → Gives P (try r d k)
  unfolding Gives
  try-Gives (ok b) d k h = h b
  try-Gives (err e) d k h = tt

  bind-Gives :
      (m : Exec B) (k : B → Exec (Result ReadError A × D))
      → ((b : B) → Gives P (k b))
      → Gives P (m >>= k)
  unfolding Gives
  bind-Gives (done b) k h = h b
  bind-Gives panic k h = tt

module _ {A D : Type 0} (P : A → Type 0) where
  with_read-Gives :
      (r : Result DeviceError Buffer × D) (k : Buffer → D → Exec (Result ReadError A × D))
      → ((bytes : Buffer) (d : D) → r ≡ (ok bytes, d) → Gives P (k bytes d))
      → Gives P (with_read r (λ d. d) k)
  unfolding Gives
  with_read-Gives (ok bytes, d) k h = h bytes d refl
  with_read-Gives (err e, d) k h = tt

  if-Gives :
      (b : Bool) (x y : Exec (Result ReadError A × D))
      → Gives P x
      → Gives P y
      → Gives P (if b then x else y)
  if-Gives true x y p q = p
  if-Gives false x y p q = q

  choice-Gives :
      (b : Bool) (x y : Exec (Result ReadError A × D))
      → Gives P x
      → Gives P y
      → Gives P (elim b [ true ↦ x | false ↦ y ])
  choice-Gives true x y p q = p
  choice-Gives false x y p q = q

  slice-Gives :
      (xs : List ℕ) (off len : ℕ) (k : List ℕ → Exec (Result ReadError A × D))
      → ((ys : List ℕ) → length ys ≤ len → Gives P (k ys))
      → Gives P (slice xs off len >>= k)
  unfolding Gives
  slice-Gives xs off len k h = elim (slice-cases xs off len) [
    | inl e ↦
        subst (λ m. Gives P (m >>= k)) (sym e) (h _ (omega (arith, length-take len (drop off xs))))
    | inr e ↦ subst (λ m. Gives P (m >>= k)) (sym e) tt
  ]

-- A device that gives as many bytes as it is asked for.
pub record IsExact {D : Type 0} (device : BlockDevice D) : Type 0 where
  pub exact :
      (d d' : D) (off len : ℕ) (bytes : Buffer)
      → device.read_at d off len ≡ (ok bytes, d')
      → length bytes ≡ len

module _ {D : Type 0} (device : BlockDevice D) (exact : IsExact device) (sb : Superblock) where
  copy_extents-Gives :
      (exts : List BmapExtent) (remaining off : ℕ) (result : List ℕ) (d : D) (n : ℕ)
      → length result + remaining ≤ n
      → Gives (λ bytes. length bytes ≤ n) (copy_extents device sb exts remaining off result d)
  unfolding copy_extents Gives
  copy_extents-Gives [] remaining off result d n h = omega (arith, h)
  copy_extents-Gives (ext ∷ exts) remaining off result d n h =
      choice-Gives _ (covers sb ext off) _ _
        (with_read-Gives _ (device.read_at d (phy_off sb ext off) (to_read sb ext off remaining)) _
          λ buf d1 e.
            let size = exact.exact d d1 (phy_off sb ext off) (to_read sb ext off remaining) buf e in
            let both = length-append result buf in
            choice-Gives _ (remaining - to_read sb ext off remaining == 0) _ _
              (omega (arith, h, size, both))
              (copy_extents-Gives exts _ _ (result ++ buf) d1 n (omega (arith, h, size, both))))
        (copy_extents-Gives exts remaining off result d n h)

  -- A device that gives as many bytes as it is asked for: what is read through the extents is no more than was asked for, and ends where the file does.
  pub read_extent_range_bound :
      (d : D) (inode : Inode) (scratch : Buffer) (offset size : ℕ)
      → Gives
          (λ bytes. length bytes ≤ min size (i64_as_u64 inode.size - offset))
          (read_extent_range device sb d inode scratch offset size)
  unfolding read_extent_range Gives
  read_extent_range_bound d inode scratch offset size =
      bind-Gives _ (slice_from scratch 176) _ λ fork.
        bind-Gives _ (parse_extents fork inode.nextents 0) _ λ p. try-Gives _ (parsed p) d _ λ exts.
          if-Gives _ (leb (i64_as_u64 inode.size) offset) _ _ (omega arith)
            (copy_extents-Gives exts _ offset [] d _ (omega arith))

  -- A read of the data in an inode is no longer than it was asked for.
  read_format_bound :
      (format : InodeFormat) (d : D) (inode : Inode) (scratch : Buffer) (offset size : ℕ)
      → Gives
          (λ bytes. length bytes ≤ size)
          (read_format device sb format d inode scratch offset size)
  unfolding Gives
  read_format_bound inline d inode scratch offset size =
      bind-Gives _ (slice_from scratch 176) _ λ bytes.
        if-Gives _ (leb (i64_as_u64 inode.size) offset) _ _ (omega arith)
          (slice-Gives _ bytes offset _ _ λ found h. omega (arith, h))
  read_format_bound extents d inode scratch offset size =
      weaken-Gives {P = λ bytes. length bytes ≤ min size (i64_as_u64 inode.size - offset)}
        {Q = λ bytes. length bytes ≤ size} (λ bytes h. omega (arith, h)) _
        (read_extent_range_bound d inode scratch offset size)
  read_format_bound dev d inode scratch offset size = omega arith
  read_format_bound btree d inode scratch offset size = omega arith
  read_format_bound uuid_format d inode scratch offset size = omega arith

  -- A read of a file, in whatever form its data are, is no longer than it was asked for.
  pub read_file_data_bound :
      (d : D) (ino_num offset size : ℕ)
      → Gives (λ bytes. length bytes ≤ size) (read_file_data device sb d ino_num offset size)
  unfolding read_file_data Gives
  read_file_data_bound d ino_num offset size =
      bind-Gives _ (read_inode device d sb ino_num (replicate sb.inode_size 0)) _ λ r.
        try-Gives _ r.0 r.1.0 _ λ inode.
          if-Gives _ (not (mode_type inode.mode == 0x8000) && not (mode_type inode.mode == 0xa000))
            _ _ (omega arith) (read_format_bound inode.format r.1.0 inode r.1.1 offset size)
