-- ===== src/NineP/Messages/Attributes.antt =====
-- The messages on attributes: the interfaces of
-- runtime/ninep/protocol.ts, and their cases in `encode` and `decode`.
use Prim.Native.Nat.{ℕ}
use nix_wasm.Text.{Str}
use nix_wasm.NineP.Writer
use nix_wasm.NineP.Writer.{Qid, Put, ◌>>◌}
use nix_wasm.NineP.Reader
use nix_wasm.NineP.Reader.{Reader, ◌>>=◌, pure}

pub record Tstatfs : Type 0 where
  pub fid : ℕ

unfoldable pub write_tstatfs : Tstatfs → Put
write_tstatfs m = Writer.u32 m.fid

unfoldable pub read_tstatfs : Reader Tstatfs
read_tstatfs = do fid ← Reader.u32; pure (record { fid = fid })

pub record Rstatfs : Type 0 where
  pub fstype : ℕ
  pub bsize : ℕ
  pub blocks : ℕ
  pub bfree : ℕ
  pub bavail : ℕ
  pub files : ℕ
  pub ffree : ℕ
  pub fsid : ℕ
  pub namelen : ℕ

unfoldable pub write_rstatfs : Rstatfs → Put
write_rstatfs m = do
  Writer.u32 m.fstype
  Writer.u32 m.bsize
  Writer.u64 m.blocks
  Writer.u64 m.bfree
  Writer.u64 m.bavail
  Writer.u64 m.files
  Writer.u64 m.ffree
  Writer.u64 m.fsid
  Writer.u32 m.namelen

unfoldable pub read_rstatfs : Reader Rstatfs
read_rstatfs = do
  fstype ← Reader.u32
  bsize ← Reader.u32
  blocks ← Reader.u64
  bfree ← Reader.u64
  bavail ← Reader.u64
  files ← Reader.u64
  ffree ← Reader.u64
  fsid ← Reader.u64
  namelen ← Reader.u32
  pure (record {
    fstype = fstype;
    bsize = bsize;
    blocks = blocks;
    bfree = bfree;
    bavail = bavail;
    files = files;
    ffree = ffree;
    fsid = fsid;
    namelen = namelen;
  })

pub record Tgetattr : Type 0 where
  pub fid : ℕ
  pub request_mask : ℕ

unfoldable pub write_tgetattr : Tgetattr → Put
write_tgetattr m = do Writer.u32 m.fid; Writer.u64 m.request_mask

unfoldable pub read_tgetattr : Reader Tgetattr
read_tgetattr = do
  fid ← Reader.u32
  request_mask ← Reader.u64
  pure (record { fid = fid; request_mask = request_mask })

pub record Rgetattr : Type 0 where
  pub valid : ℕ
  pub qid : Qid
  pub mode : ℕ
  pub uid : ℕ
  pub gid : ℕ
  pub nlink : ℕ
  pub rdev : ℕ
  pub size : ℕ
  pub blksize : ℕ
  pub blocks : ℕ
  pub atime_sec : ℕ
  pub atime_nsec : ℕ
  pub mtime_sec : ℕ
  pub mtime_nsec : ℕ
  pub ctime_sec : ℕ
  pub ctime_nsec : ℕ
  pub btime_sec : ℕ
  pub btime_nsec : ℕ
  pub gen : ℕ
  pub data_version : ℕ

unfoldable pub write_rgetattr : Rgetattr → Put
write_rgetattr m = do
  Writer.u64 m.valid
  Writer.qid m.qid
  Writer.u32 m.mode
  Writer.u32 m.uid
  Writer.u32 m.gid
  Writer.u64 m.nlink
  Writer.u64 m.rdev
  Writer.u64 m.size
  Writer.u64 m.blksize
  Writer.u64 m.blocks
  Writer.u64 m.atime_sec
  Writer.u64 m.atime_nsec
  Writer.u64 m.mtime_sec
  Writer.u64 m.mtime_nsec
  Writer.u64 m.ctime_sec
  Writer.u64 m.ctime_nsec
  Writer.u64 m.btime_sec
  Writer.u64 m.btime_nsec
  Writer.u64 m.gen
  Writer.u64 m.data_version

unfoldable pub read_rgetattr : Reader Rgetattr
read_rgetattr = do
  valid ← Reader.u64
  qid ← Reader.qid
  mode ← Reader.u32
  uid ← Reader.u32
  gid ← Reader.u32
  nlink ← Reader.u64
  rdev ← Reader.u64
  size ← Reader.u64
  blksize ← Reader.u64
  blocks ← Reader.u64
  atime_sec ← Reader.u64
  atime_nsec ← Reader.u64
  mtime_sec ← Reader.u64
  mtime_nsec ← Reader.u64
  ctime_sec ← Reader.u64
  ctime_nsec ← Reader.u64
  btime_sec ← Reader.u64
  btime_nsec ← Reader.u64
  gen ← Reader.u64
  data_version ← Reader.u64
  pure (record {
    valid = valid;
    qid = qid;
    mode = mode;
    uid = uid;
    gid = gid;
    nlink = nlink;
    rdev = rdev;
    size = size;
    blksize = blksize;
    blocks = blocks;
    atime_sec = atime_sec;
    atime_nsec = atime_nsec;
    mtime_sec = mtime_sec;
    mtime_nsec = mtime_nsec;
    ctime_sec = ctime_sec;
    ctime_nsec = ctime_nsec;
    btime_sec = btime_sec;
    btime_nsec = btime_nsec;
    gen = gen;
    data_version = data_version;
  })

pub record Tsetattr : Type 0 where
  pub fid : ℕ
  pub valid : ℕ
  pub mode : ℕ
  pub uid : ℕ
  pub gid : ℕ
  pub size : ℕ
  pub atime_sec : ℕ
  pub atime_nsec : ℕ
  pub mtime_sec : ℕ
  pub mtime_nsec : ℕ

unfoldable pub write_tsetattr : Tsetattr → Put
write_tsetattr m = do
  Writer.u32 m.fid
  Writer.u32 m.valid
  Writer.u32 m.mode
  Writer.u32 m.uid
  Writer.u32 m.gid
  Writer.u64 m.size
  Writer.u64 m.atime_sec
  Writer.u64 m.atime_nsec
  Writer.u64 m.mtime_sec
  Writer.u64 m.mtime_nsec

unfoldable pub read_tsetattr : Reader Tsetattr
read_tsetattr = do
  fid ← Reader.u32
  valid ← Reader.u32
  mode ← Reader.u32
  uid ← Reader.u32
  gid ← Reader.u32
  size ← Reader.u64
  atime_sec ← Reader.u64
  atime_nsec ← Reader.u64
  mtime_sec ← Reader.u64
  mtime_nsec ← Reader.u64
  pure (record {
    fid = fid;
    valid = valid;
    mode = mode;
    uid = uid;
    gid = gid;
    size = size;
    atime_sec = atime_sec;
    atime_nsec = atime_nsec;
    mtime_sec = mtime_sec;
    mtime_nsec = mtime_nsec;
  })

pub record Txattrwalk : Type 0 where
  pub fid : ℕ
  pub newfid : ℕ
  pub name : Str

unfoldable pub write_txattrwalk : Txattrwalk → Put
write_txattrwalk m = do Writer.u32 m.fid; Writer.u32 m.newfid; Writer.str m.name

unfoldable pub read_txattrwalk : Reader Txattrwalk
read_txattrwalk = do
  fid ← Reader.u32
  newfid ← Reader.u32
  name ← Reader.str
  pure (record { fid = fid; newfid = newfid; name = name })
