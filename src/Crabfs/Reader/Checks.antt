-- ===== src/Crabfs/Reader/Checks.antt =====
-- No block of a version 5 image is accepted with a wrong checksum.
use theos.Base.{
  ℕ, ◌≤◌, ◌≡◌, refl, sym, subst, ap, ◌∙◌, Bool, true, false, Exec, done, panic, ◌>>=◌, Result, ok,
  err,
}
use theos.Base.{try, if◌then◌else◌, length, overwrite, inl, inr, ltb, ◌⊎◌, subst₂, arith}
use theos.Crabfs.Error.{ReadError, ParseError, DeviceError}
use theos.Crabfs.Endian.{Buffer}
use theos.Crabfs.Crc.{verify_xfs_crc}
use theos.Crabfs.OnDisk.Inode as InodeBlock
use theos.Crabfs.OnDisk.Inode.{Inode, xfs_dinode_crc_off}
use theos.Crabfs.OnDisk.Superblock as SuperblockBlock
use theos.Crabfs.OnDisk.Superblock.{Superblock, is_v5, xfs_sb_crc_off}
use theos.Crabfs.Reader.{
  BlockDevice, with_read, parsed, ensure_sector_size, read_superblock, read_inode, inode_offset,
}

-- What a run that succeeds went through.
data Bound {A B : Type 0} (m : Exec A) (k : A → Exec B) (b : B) : Type 0 where
  bound : (a : A) → m ≡ done a → k a ≡ done b → Bound m k b

bind-done : {A B : Type 0} (m : Exec A) (k : A → Exec B) (b : B) → (m >>= k) ≡ done b → Bound m k b
bind-done (done a) k b e = bound a refl e
bind-done panic k b e = cc

data Tried {A B S : Type 0} (r : Result ReadError A) (s' : S)
    (k : A → Exec (Result ReadError B × S)) (b : B) : Type 0 where
  tried : (a : A) → r ≡ ok a → k a ≡ done (ok b, s') → Tried r s' k b

try-ok :
    {A B S : Type 0} (r : Result ReadError A) (s s' : S) (k : A → Exec (Result ReadError B × S))
    (b : B)
    → try r s k ≡ done (ok b, s')
    → Tried r s' k b
try-ok (ok a) s s' k b e = tried a refl e
try-ok (err x) s s' k b e = cc

data Given {D A S : Type 0} (r : Result DeviceError Buffer × D)
    (k : Buffer → D → Exec (Result ReadError A × S)) (a : A) (s' : S) : Type 0 where
  given :
      (bytes : Buffer) (d : D) → r ≡ (ok bytes, d) → k bytes d ≡ done (ok a, s') → Given r k a s'

with_read-ok :
    {D A S : Type 0} (r : Result DeviceError Buffer × D) (state : D → S)
    (k : Buffer → D → Exec (Result ReadError A × S)) (a : A) (s' : S)
    → with_read r state k ≡ done (ok a, s')
    → Given r k a s'
with_read-ok (ok bytes, d) state k a s' e = given bytes d refl e
with_read-ok (err x, d) state k a s' e = cc

data Passed {B S : Type 0} (c : Bool) (x : Exec (Result ReadError B × S)) (s' : S) (b : B)
    : Type 0 where
  passed : c ≡ true → x ≡ done (ok b, s') → Passed c x s' b

if-ok :
    {B S : Type 0} (c : Bool) (x : Exec (Result ReadError B × S)) (y : ReadError) (s s' : S) (b : B)
    → (if c then x else done (err y, s)) ≡ done (ok b, s')
    → Passed c x s' b
if-ok true x y s s' b e = passed refl e
if-ok false x y s s' b e = cc

done-injective : {A : Type 0} (a b : A) → done a ≡ done b → a ≡ b
done-injective a b e = cc

unwrap : {A : Type 0} (a b : A) → ◌≡◌ {A = Result ReadError A} (ok a) (ok b) → a ≡ b
unwrap a b e = cc

if-cases :
    {A : Type 0} (c : Bool) (x y z : A)
    → (if c then x else y) ≡ z
    → ((c ≡ true) × (x ≡ z)) ⊎ ((c ≡ false) × (y ≡ z))
if-cases true x y z e = inl (refl, e)
if-cases false x y z e = inr (refl, e)

ensure-ok : (size n : ℕ) → ensure_sector_size size ≡ ok n → (n ≡ size) × (size ≤ 4096)
unfolding ensure_sector_size
ensure-ok size n e = elim (if-cases (ltb 4096 size) _ _ _ e) [
  | inl (big, bad) ↦ cc
  | inr (small, good) ↦ (sym (unwrap size n good), ground (arith, small))
]

parsed-ok : {A : Type 0} (r : Result ParseError A) (a : A) → parsed r ≡ ok a → r ≡ ok a
parsed-ok (ok x) a e = cc
parsed-ok (err x) a e = cc

-- An inode that `read_inode` accepts on a version 5 image: a read of an inode's size at the inode's own place
-- gave bytes whose checksum is right, the inode is what they parse to, and they stand at the start
-- of the scratch buffer, which has room for them.
pub read_inode_checked :
    {D : Type 0} (dev : BlockDevice D) (d d' : D) (sb : Superblock) (ino : ℕ)
    (scratch scratch' : Buffer) (inode : Inode)
    → is_v5 sb ≡ true
    → read_inode dev d sb ino scratch ≡ done (ok inode, (d', scratch'))
    → (raw : Buffer) × (offset : ℕ) × (inode_offset sb ino ≡ ok offset)
      × (dev.read_at d offset sb.inode_size ≡ (ok raw, d'))
      × (sb.inode_size ≤ length scratch)
      × (verify_xfs_crc raw xfs_dinode_crc_off ≡ done true)
      × (InodeBlock.parse raw ≡ done (ok inode))
      × (scratch' ≡ overwrite scratch 0 raw)
unfolding read_inode
read_inode_checked {D} dev d d' sb ino scratch scratch' inode v e =
    elim (if-cases (ltb (length scratch) sb.inode_size) _ _ _ e) [
      | inl (short, bad) ↦ cc
      | inr (roomy, e1) ↦
          let fits : sb.inode_size ≤ length scratch = ground (arith, roomy) in
          elim (try-ok (inode_offset sb ino) _ _ _ inode e1) [
            | tried offset at e2 ↦
                elim (with_read-ok {D = D} (dev.read_at d offset sb.inode_size) _ _ inode _ e2) [
                  | given raw d1 r e3 ↦ elim (bind-done _ _ _ e3) [
                    | bound good crc e4 ↦ elim (if-ok good _ _ _ _ inode e4) [
                      | passed right e5 ↦ elim (bind-done (InodeBlock.parse raw) _ _ e5) [
                        | bound p read e6 ↦
                            let same = done-injective _ _ e6 in
                            (
                              raw,
                              offset,
                              at,
                              r ∙ ap (λ x. (ok raw, x.1.0)) same,
                              fits,
                              subst
                                    (λ b.
                                      (if b
                                        then verify_xfs_crc raw xfs_dinode_crc_off
                                        else done true)
                                      ≡ done good)
                                    v crc
                                  ∙ ap done right,
                              read ∙ ap done (parsed-ok p inode (ap (λ x. x.0) same)),
                              sym (ap (λ x. x.1.1) same),
                            )
                      ]
                    ]
                  ]
                ]
          ]
    ]

-- A version 5 superblock that `read_superblock` accepts: its sector size is at most 4096, and the
-- device gave a sector of that size whose checksum is right.
pub read_superblock_checked :
    {D : Type 0} (dev : BlockDevice D) (d d' : D) (sb : Superblock)
    → is_v5 sb ≡ true
    → read_superblock dev d ≡ done (ok sb, d')
    → (sector : Buffer) × ((d1 : D) × ((dev.read_at d1 0 sb.sector_size ≡ (ok sector, d'))
          × ((verify_xfs_crc sector xfs_sb_crc_off ≡ done true) × (sb.sector_size ≤ 4096))))
unfolding read_superblock
read_superblock_checked {D} dev d d' sb v e =
    elim (with_read-ok {D = D} (dev.read_at d 0 304) _ _ sb _ e) [
      | given raw d1 r e1 ↦ elim (bind-done (SuperblockBlock.parse raw) _ _ e1) [
        | bound p read e2 ↦ elim (try-ok (parsed p) _ _ _ sb e2) [
          | tried sb1 at e3 ↦ elim (if-cases (is_v5 sb1) _ _ _ e3) [
            | inl (five, e4) ↦ elim (try-ok (ensure_sector_size sb1.sector_size) _ _ _ sb e4) [
              | tried n size e5 ↦ elim (with_read-ok {D = D} (dev.read_at d1 0 n) _ _ sb _ e5) [
                | given sector d2 r2 e6 ↦
                    elim (bind-done (verify_xfs_crc sector xfs_sb_crc_off) _ _ e6) [
                      | bound good crc e7 ↦ elim (if-ok good _ _ _ _ sb e7) [
                        | passed right e8 ↦
                            accept sb1 n sector d1 d2 (ensure-ok sb1.sector_size n size) r2
                              (crc ∙ ap done right) (done-injective _ _ e8)
                      ]
                    ]
              ]
            ]
            | inr (other, e4) ↦
                absurd
                  (not_five sb1 sb other v (unwrap sb1 sb (ap (λ x. x.0) (done-injective _ _ e4))))
          ]
        ]
      ]
    ]
  where
    not_five : (a b : Superblock) → is_v5 a ≡ false → is_v5 b ≡ true → a ≡ b → ⊥
    not_five a b f t q = cc

    accept :
        (sb1 : Superblock) (n : ℕ) (sector : Buffer) (d1 d2 : D)
        → (n ≡ sb1.sector_size) × (sb1.sector_size ≤ 4096)
        → dev.read_at d1 0 n ≡ (ok sector, d2)
        → verify_xfs_crc sector xfs_sb_crc_off ≡ done true
        → ◌≡◌ {A = Result ReadError Superblock × D} (ok sb1, d2) (ok sb, d')
        → (sector : Buffer) × ((d1 : D) × ((dev.read_at d1 0 sb.sector_size ≡ (ok sector, d'))
              × ((verify_xfs_crc sector xfs_sb_crc_off ≡ done true) × (sb.sector_size ≤ 4096))))
    accept sb1 n sector d1 d2 (same, small) r good e =
        let q = unwrap sb1 sb (ap (λ x. x.0) e) in
        (
          sector,
          (
            d1,
            (
              subst₂ (λ m y. dev.read_at d1 0 m ≡ (ok sector, y)) (same ∙ ap (λ x. x.sector_size) q)
                  (ap (λ x. x.1) e) r,
              (good, subst (λ x. x.sector_size ≤ 4096) q small),
            ),
          ),
        )
