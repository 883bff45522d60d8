-- ===== src/Crabfs/OnDisk/Agi/Buckets.antt =====
-- The loops over the unlinked buckets of `lib/crabfs/on_disk/agi.rs`: what one stores, the other reads.
use theos.Base.{
  Exec, zero, suc, ==_self, ℕ, ◌+◌, ◌*◌, ◌≤◌, ◌<◌, ◌≡◌, refl, arith, true, List, [], ◌∷◌, length,
  length-overwrite, overwrite, done, ◌>>=◌, le→leb,
}
use theos.Crabfs.Endian.{Buffer, Put, put_be32, bound, be_u32, to_be_bytes}
use theos.Crabfs.Endian.Layout.{
  Fits, after, within, spares, stored, Sized, be_u32-after, be_u32-spared, spared,
}
use theos.Crabfs.Endian.Rows.{starts, starts-spares, and_both}
use theos.Crabfs.OnDisk.Agi.{bucket_stores, read_buckets}

-- Every bucket is a number of 32 bits.
unfoldable pub AllU32 : List ℕ → Type 0
AllU32 [] = Unit {0}
AllU32 (v ∷ vs) = (v < bound 4) × AllU32 vs

pub starts-bucket_stores :
    (m off : ℕ) (vals : List ℕ) → m ≤ off → starts m (bucket_stores vals off) ≡ true
unfolding starts
starts-bucket_stores m off [] h = refl
starts-bucket_stores m off (v ∷ vs) h =
    and_both _ _ (le→leb m off h) (starts-bucket_stores m (off + 4) vs (omega (arith, h)))

pub within-bucket_stores :
    (n off : ℕ) (vals : List ℕ)
    → off + 4 * length vals ≤ n
    → within n (bucket_stores vals off) ≡ true
unfolding within
within-bucket_stores n off [] h = refl
within-bucket_stores n off (v ∷ vs) h =
    and_both _ _ (le→leb (off + 4) n (omega (arith, h)))
      (within-bucket_stores n (off + 4) vs (omega (arith, h)))

Sized-bucket_stores : (off : ℕ) (vals : List ℕ) → Sized (bucket_stores vals off)
unfolding Sized
Sized-bucket_stores off [] = tt
Sized-bucket_stores off (v ∷ vs) = (refl, Sized-bucket_stores (off + 4) vs)

-- The row fits where all of its buckets do.
pub bucket_stores-Fits :
    (n off : ℕ) (vals : List ℕ) (bytes : Buffer)
    → off + 4 * length vals ≤ n
    → n ≤ length bytes
    → Fits n (bucket_stores vals off) bytes
bucket_stores-Fits n off vals bytes h room = record {
  inside = within-bucket_stores n off vals h;
  sized = Sized-bucket_stores off vals;
  room = room;
}

-- A number behind which only later places are stored to is read back.
be_u32-first :
    (v off : ℕ) (vs : List ℕ) (bytes : Buffer)
    → v < bound 4
    → off + 4 + 4 * length vs ≤ length bytes
    → be_u32 (after (put_be32 off v ∷ bucket_stores vs (off + 4)) bytes) off ≡ done v
unfolding after stored spares within Sized
be_u32-first v off vs bytes b h =
    let bytes1 = overwrite bytes off (to_be_bytes 4 v) in
    be_u32-spared
      (bucket_stores-Fits (length bytes) (off + 4) vs bytes1 h
        (omega (arith, length-overwrite bytes off (to_be_bytes 4 v))))
      off v
      (starts-spares (off + 4) off 4 (bucket_stores vs (off + 4))
        (starts-bucket_stores (off + 4) (off + 4) vs (omega arith)) (omega arith))
      (le→leb (off + 4) (length bytes) (omega (arith, h)))
      (be_u32-after {n = length bytes} {ps = put_be32 off v ∷ []} {bytes = bytes}
        (record {
          inside = and_both _ _ (le→leb (off + 4) (length bytes) (omega (arith, h))) refl;
          sized = (refl, tt);
          room = omega arith;
        })
        off v b (rw (==_self off) refl) (le→leb (off + 4) (length bytes) (omega (arith, h))))

bind-cons :
    (m : Exec ℕ) (n : Exec (List ℕ)) (v : ℕ) (vs : List ℕ)
    → m ≡ done v
    → n ≡ done vs
    → (m >>= λ b. n >>= λ r. done (b ∷ r)) ≡ done (v ∷ vs)
bind-cons m n v vs p q = rw (p, q) refl

-- The buckets that are stored are read back.
pub read_buckets-bucket_stores :
    (vals : List ℕ) (off : ℕ) (bytes : Buffer)
    → AllU32 vals
    → off + 4 * length vals ≤ length bytes
    → read_buckets (after (bucket_stores vals off) bytes) (length vals) off ≡ done vals
unfolding read_buckets AllU32 after
read_buckets-bucket_stores [] off bytes b h = refl
read_buckets-bucket_stores (v ∷ vs) off bytes (b, bs) h =
    bind-cons _ _ v vs (be_u32-first v off vs bytes b (omega (arith, h))) (
      read_buckets-bucket_stores vs (off + 4) (overwrite bytes off (to_be_bytes 4 v)) bs
        (omega (arith, h, length-overwrite bytes off (to_be_bytes 4 v))))

-- A row that starts behind the buckets leaves them as they are.
pub read_buckets-spared :
    (n m : ℕ) (ps : List Put) (bytes : Buffer) (count off : ℕ)
    → Fits n ps bytes
    → starts m ps ≡ true
    → off + 4 * count ≤ m
    → m ≤ n
    → read_buckets (after ps bytes) count off ≡ read_buckets bytes count off
unfolding read_buckets be_u32
read_buckets-spared n m ps bytes zero off f s h room = refl
read_buckets-spared n m ps bytes (suc count) off f s h room =
    rw
      (
        spared f off 4 (starts-spares m off 4 ps s (omega (arith, h)))
            (le→leb (off + 4) n (omega (arith, h, room))),
        read_buckets-spared n m ps bytes count (off + 4) f s (omega (arith, h)) room,
      )
      refl
