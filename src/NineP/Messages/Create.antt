-- ===== src/NineP/Messages/Create.antt =====
-- The messages that open files and make new ones: the interfaces of
-- runtime/ninep/protocol.ts, and their cases in `encode` and `decode`.
use Prim.Native.Nat.{ℕ}
use nix_wasm.Text.{Str}
use nix_wasm.NineP.Writer
use nix_wasm.NineP.Writer.{Qid, Put, ◌>>◌}
use nix_wasm.NineP.Reader
use nix_wasm.NineP.Reader.{Reader, ◌>>=◌, pure}

pub record Tlopen : Type 0 where
  pub fid : ℕ
  pub flags : ℕ

unfoldable pub write_tlopen : Tlopen → Put
write_tlopen m = do Writer.u32 m.fid; Writer.u32 m.flags

unfoldable pub read_tlopen : Reader Tlopen
read_tlopen = do fid ← Reader.u32; flags ← Reader.u32; pure (record { fid = fid; flags = flags })

pub record Rlopen : Type 0 where
  pub qid : Qid
  pub iounit : ℕ

unfoldable pub write_rlopen : Rlopen → Put
write_rlopen m = do Writer.qid m.qid; Writer.u32 m.iounit

unfoldable pub read_rlopen : Reader Rlopen
read_rlopen = do qid ← Reader.qid; iounit ← Reader.u32; pure (record { qid = qid; iounit = iounit })

pub record Tlcreate : Type 0 where
  pub fid : ℕ
  pub name : Str
  pub flags : ℕ
  pub mode : ℕ
  pub gid : ℕ

unfoldable pub write_tlcreate : Tlcreate → Put
write_tlcreate m = do
  Writer.u32 m.fid
  Writer.str m.name
  Writer.u32 m.flags
  Writer.u32 m.mode
  Writer.u32 m.gid

unfoldable pub read_tlcreate : Reader Tlcreate
read_tlcreate = do
  fid ← Reader.u32
  name ← Reader.str
  flags ← Reader.u32
  mode ← Reader.u32
  gid ← Reader.u32
  pure (record { fid = fid; name = name; flags = flags; mode = mode; gid = gid })

pub record Rlcreate : Type 0 where
  pub qid : Qid
  pub iounit : ℕ

unfoldable pub write_rlcreate : Rlcreate → Put
write_rlcreate m = do Writer.qid m.qid; Writer.u32 m.iounit

unfoldable pub read_rlcreate : Reader Rlcreate
read_rlcreate = do
  qid ← Reader.qid
  iounit ← Reader.u32
  pure (record { qid = qid; iounit = iounit })

pub record Tsymlink : Type 0 where
  pub fid : ℕ
  pub name : Str
  pub symtgt : Str
  pub gid : ℕ

unfoldable pub write_tsymlink : Tsymlink → Put
write_tsymlink m = do Writer.u32 m.fid; Writer.str m.name; Writer.str m.symtgt; Writer.u32 m.gid

unfoldable pub read_tsymlink : Reader Tsymlink
read_tsymlink = do
  fid ← Reader.u32
  name ← Reader.str
  symtgt ← Reader.str
  gid ← Reader.u32
  pure (record { fid = fid; name = name; symtgt = symtgt; gid = gid })

pub record Rsymlink : Type 0 where
  pub qid : Qid

unfoldable pub write_rsymlink : Rsymlink → Put
write_rsymlink m = Writer.qid m.qid

unfoldable pub read_rsymlink : Reader Rsymlink
read_rsymlink = do qid ← Reader.qid; pure (record { qid = qid })

pub record Tmknod : Type 0 where
  pub dfid : ℕ
  pub name : Str
  pub mode : ℕ
  pub major : ℕ
  pub minor : ℕ
  pub gid : ℕ

unfoldable pub write_tmknod : Tmknod → Put
write_tmknod m = do
  Writer.u32 m.dfid
  Writer.str m.name
  Writer.u32 m.mode
  Writer.u32 m.major
  Writer.u32 m.minor
  Writer.u32 m.gid

unfoldable pub read_tmknod : Reader Tmknod
read_tmknod = do
  dfid ← Reader.u32
  name ← Reader.str
  mode ← Reader.u32
  major ← Reader.u32
  minor ← Reader.u32
  gid ← Reader.u32
  pure (record { dfid = dfid; name = name; mode = mode; major = major; minor = minor; gid = gid })

pub record Rmknod : Type 0 where
  pub qid : Qid

unfoldable pub write_rmknod : Rmknod → Put
write_rmknod m = Writer.qid m.qid

unfoldable pub read_rmknod : Reader Rmknod
read_rmknod = do qid ← Reader.qid; pure (record { qid = qid })

pub record Tmkdir : Type 0 where
  pub dfid : ℕ
  pub name : Str
  pub mode : ℕ
  pub gid : ℕ

unfoldable pub write_tmkdir : Tmkdir → Put
write_tmkdir m = do Writer.u32 m.dfid; Writer.str m.name; Writer.u32 m.mode; Writer.u32 m.gid

unfoldable pub read_tmkdir : Reader Tmkdir
read_tmkdir = do
  dfid ← Reader.u32
  name ← Reader.str
  mode ← Reader.u32
  gid ← Reader.u32
  pure (record { dfid = dfid; name = name; mode = mode; gid = gid })

pub record Rmkdir : Type 0 where
  pub qid : Qid

unfoldable pub write_rmkdir : Rmkdir → Put
write_rmkdir m = Writer.qid m.qid

unfoldable pub read_rmkdir : Reader Rmkdir
read_rmkdir = do qid ← Reader.qid; pure (record { qid = qid })
