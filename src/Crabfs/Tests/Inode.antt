-- ===== src/Crabfs/Tests/Inode.antt =====
-- `Inode` at a concrete value.
use theos.Base.{replicate, done, ok, ◌>>=◌, ◌≡◌, refl, arith}
use theos.Crabfs.Endian.{le_u32, bytes_at}
use theos.Base.Int.{pos, negsuc}
use theos.Crabfs.OnDisk.Inode.{Inode, inline, extents, parse, serialize, xfs_dinode_magic}
use theos.Crabfs.OnDisk.Inode.RoundTrip.{IsValid, parse-serialize_inode}

abbrev inode : Inode
inode = record {
  magic = xfs_dinode_magic;
  mode = 16877;
  version = 3;
  format = inline;
  onlink = 13;
  uid = 16;
  gid = 19;
  nlink = 22;
  projid = 70000;
  flushiter = 28;
  atime = (negsuc 4, 7);
  mtime = (pos 5, 8);
  ctime = (pos 6, 9);
  size = pos 100;
  nblocks = 43;
  extsize = 46;
  nextents = 49;
  anextents = 52;
  forkoff = 55;
  aformat = extents;
  dmevmask = 61;
  dmstate = 64;
  flags = 67;
  generation = 70;
  next_unlinked = 73;
  crc = 0;
  change_count = 79;
  lsn = 82;
  flags2 = 85;
  cowextsize = 88;
  crtime = (negsuc 0, 0);
  ino = 94;
  uuid = replicate 16 7;
}

inode-IsValid : IsValid inode
inode-IsValid = record {
  magic_u16 = omega arith;
  mode_u16 = omega arith;
  onlink_u16 = omega arith;
  uid_u32 = omega arith;
  gid_u32 = omega arith;
  nlink_u32 = omega arith;
  flushiter_u16 = omega arith;
  nblocks_u64 = omega arith;
  extsize_u32 = omega arith;
  nextents_u32 = omega arith;
  anextents_u16 = omega arith;
  dmevmask_u32 = omega arith;
  dmstate_u16 = omega arith;
  flags_u16 = omega arith;
  generation_u32 = omega arith;
  next_unlinked_u32 = omega arith;
  change_count_u64 = omega arith;
  lsn_u64 = omega arith;
  flags2_u64 = omega arith;
  cowextsize_u32 = omega arith;
  ino_u64 = omega arith;
  uuid_array = refl;
  projid_u32 = omega arith;
  size_i64 = omega arith;
  magic_lem = refl;
  atime_i32 = omega arith;
  atime_u32 = omega arith;
  mtime_i32 = omega arith;
  mtime_u32 = omega arith;
  ctime_i32 = omega arith;
  ctime_u32 = omega arith;
  crtime_i32 = omega arith;
  crtime_u32 = omega arith;
}

parse-serialize_inode_example :
    (serialize inode (replicate 176 0) >>= λ r. parse r.1) ≡ done (ok inode)
unfolding le_u32 bytes_at
parse-serialize_inode_example =
    parse-serialize_inode inode (replicate 176 0) inode-IsValid (omega arith) refl
