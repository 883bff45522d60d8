-- ===== src/Crabfs/OnDisk/Agi/RoundTrip.antt =====
-- What `Agi::serialize` writes, `Agi::parse` reads back: the row of the fields before the buckets, that of
-- the buckets and that of the fields behind them.
use theos.Base.{
  ℕ, ◌+◌, ◌≡◌, ◌≤◌, ◌<◌, refl, subst, ◌∙◌, length, done, ok, arith, ◌>>=◌, leb, leb→le, true, ◌++◌,
}
use theos.Crabfs.Endian.{Buffer, bound, be_u32, require_len_lem}
use theos.Crabfs.Endian.Layout.{Fits, after, within, spares, stored, Sized, apply_all_lem}
use theos.Crabfs.Endian.Layout.{
  be_u32-after, be_u64-after, slice-after, be_u32-spared, length-after,
}
use theos.Crabfs.Endian.Rows.{starts, starts-spares, within-spares, apply_all-append}
use theos.Crabfs.OnDisk.Agi.{
  Agi, parse, serialize, head_stores, bucket_stores, tail_stores, read_buckets, xfs_agi_magic,
  xfs_agi_version,
}
use theos.Crabfs.OnDisk.Agi.Buckets.{
  AllU32, starts-bucket_stores, within-bucket_stores, bucket_stores-Fits,
  read_buckets-bucket_stores, read_buckets-spared,
}

-- The widths of the fields.
pub record IsValid (a : Agi) : Type 0 where
  pub seqno_u32 : a.seqno < bound 4
  pub length_u32 : a.length < bound 4
  pub count_u32 : a.count < bound 4
  pub root_u32 : a.root < bound 4
  pub level_u32 : a.level < bound 4
  pub freecount_u32 : a.freecount < bound 4
  pub newino_u32 : a.newino < bound 4
  pub dirino_u32 : a.dirino < bound 4
  pub unlinked_array : length a.unlinked ≡ 64
  pub unlinked_u32 : AllU32 a.unlinked
  pub uuid_array : length a.uuid ≡ 16
  pub lsn_u64 : a.lsn < bound 8
  pub free_root_u32 : a.free_root < bound 4
  pub free_level_u32 : a.free_level < bound 4
  pub iblocks_u32 : a.iblocks < bound 4
  pub fblocks_u32 : a.fblocks < bound 4

module _ (a : Agi) (bytes : Buffer) (v : IsValid a) (h : 344 ≤ length bytes) where
  abbrev headed : Buffer
  headed = after (head_stores a) bytes

  abbrev bucketed : Buffer
  bucketed = after (bucket_stores a.unlinked 40) headed

  abbrev written : Buffer
  written = after (tail_stores a) bucketed

  head : Fits 344 (head_stores a) bytes
  unfolding within Sized
  head = record { inside = refl; sized = search depth 60; room = h }

  buckets : Fits 344 (bucket_stores a.unlinked 40) headed
  buckets =
      bucket_stores-Fits 344 40 a.unlinked headed (omega (arith, v.unlinked_array))
        (omega (arith, h, length-after (head_stores a) bytes))

  tail : Fits 344 (tail_stores a) bucketed
  unfolding within Sized
  tail = record {
    inside = refl;
    sized = search (v.uuid_array) depth 60;
    room = omega (arith, buckets.room, length-after (bucket_stores a.unlinked 40) headed);
  }

  -- What stands before the buckets stays.
  from_head :
      (o x : ℕ)
      → leb (o + 4) 40 ≡ true
      → spares o 4 (tail_stores a) ≡ true
      → leb (o + 4) 344 ≡ true
      → be_u32 headed o ≡ done x
      → be_u32 written o ≡ done x
  from_head o x low s room e = be_u32-spared tail o x s room (
      be_u32-spared buckets o x
        (starts-spares 40 o 4 _ (starts-bucket_stores 40 40 a.unlinked (omega arith))
          (leb→le (o + 4) 40 low))
        room e)

  buckets_lem : read_buckets written 64 40 ≡ done a.unlinked
  unfolding starts
  buckets_lem =
      read_buckets-spared 344 296 (tail_stores a) bucketed 64 40 tail refl (omega arith)
        (omega arith)
      ∙ subst (λ n. read_buckets bucketed n 40 ≡ done a.unlinked) v.unlinked_array
          (read_buckets-bucket_stores a.unlinked 40 headed v.unlinked_u32
            (omega (arith, buckets.room, v.unlinked_array)))

  crc_lem : be_u32 bytes 312 ≡ done a.crc → be_u32 written 312 ≡ done a.crc
  unfolding spares
  crc_lem c = be_u32-spared tail 312 a.crc refl refl (
      be_u32-spared buckets 312 a.crc
        (within-spares 312 312 4 _
          (within-bucket_stores 312 40 a.unlinked (omega (arith, v.unlinked_array))) (omega arith))
        refl (be_u32-spared head 312 a.crc refl refl c))

  serialize-after : serialize a bytes ≡ done (ok tt, written)
  unfolding serialize
  serialize-after =
      rw
        (
          require_len_lem bytes 344 h,
          apply_all-append (head_stores a) (bucket_stores a.unlinked 40 ++ tail_stores a) bytes,
          apply_all_lem head,
          apply_all-append (bucket_stores a.unlinked 40) (tail_stores a) headed,
          apply_all_lem buckets,
          apply_all_lem tail,
        )
        refl

  parse-after : be_u32 bytes 312 ≡ done a.crc → parse written ≡ done (ok a)
  unfolding parse stored spares
  parse-after c =
      rw
        (
          require_len_lem written 344
              (omega (arith, tail.room, length-after (tail_stores a) bucketed)),
          from_head 0 xfs_agi_magic refl refl refl
              (be_u32-after head 0 xfs_agi_magic (omega arith) refl refl),
          from_head 4 xfs_agi_version refl refl refl
              (be_u32-after head 4 xfs_agi_version (omega arith) refl refl),
          buckets_lem,
          slice-after tail 296 16 a.uuid refl refl,
          from_head 8 a.seqno refl refl refl (be_u32-after head 8 a.seqno v.seqno_u32 refl refl),
          from_head 12 a.length refl refl refl
              (be_u32-after head 12 a.length v.length_u32 refl refl),
          from_head 16 a.count refl refl refl (be_u32-after head 16 a.count v.count_u32 refl refl),
          from_head 20 a.root refl refl refl (be_u32-after head 20 a.root v.root_u32 refl refl),
          from_head 24 a.level refl refl refl (be_u32-after head 24 a.level v.level_u32 refl refl),
          from_head 28 a.freecount refl refl refl
              (be_u32-after head 28 a.freecount v.freecount_u32 refl refl),
          from_head 32 a.newino refl refl refl
              (be_u32-after head 32 a.newino v.newino_u32 refl refl),
          from_head 36 a.dirino refl refl refl
              (be_u32-after head 36 a.dirino v.dirino_u32 refl refl),
          crc_lem c,
          be_u64-after tail 320 a.lsn v.lsn_u64 refl refl,
          be_u32-after tail 328 a.free_root v.free_root_u32 refl refl,
          be_u32-after tail 332 a.free_level v.free_level_u32 refl refl,
          be_u32-after tail 336 a.iblocks v.iblocks_u32 refl refl,
          be_u32-after tail 340 a.fblocks v.fblocks_u32 refl refl,
        )
        refl

-- A header whose fields have their widths, with 64 buckets, stored into a buffer of at least 344 bytes that
-- holds its checksum field already, is read back the same: `serialize` and then `parse` return it.
pub parse-serialize_agi :
    (a : Agi) (bytes : Buffer)
    → IsValid a
    → 344 ≤ length bytes
    → be_u32 bytes 312 ≡ done a.crc
    → (serialize a bytes >>= λ r. parse r.1) ≡ done (ok a)
parse-serialize_agi a bytes v h c = rw (serialize-after a bytes v h) (parse-after a bytes v h c)
