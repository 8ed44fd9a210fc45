-- ===== src/NineP/Messages/Names.antt =====
-- The messages on names and links: the interfaces of
-- runtime/ninep/protocol.ts, and their cases in `encode` and `decode`.
use Prim.Native.Nat.{ℕ}
use nix_wasm.Text.{Str}
use nix_wasm.NineP.Writer
use nix_wasm.NineP.Writer.{Put, ◌>>◌}
use nix_wasm.NineP.Reader
use nix_wasm.NineP.Reader.{Reader, ◌>>=◌, pure}

pub record Trename : Type 0 where
  pub fid : ℕ
  pub dfid : ℕ
  pub name : Str

unfoldable pub write_trename : Trename → Put
write_trename m = do Writer.u32 m.fid; Writer.u32 m.dfid; Writer.str m.name

unfoldable pub read_trename : Reader Trename
read_trename = do
  fid ← Reader.u32
  dfid ← Reader.u32
  name ← Reader.str
  pure (record { fid = fid; dfid = dfid; name = name })

pub record Treadlink : Type 0 where
  pub fid : ℕ

unfoldable pub write_treadlink : Treadlink → Put
write_treadlink m = Writer.u32 m.fid

unfoldable pub read_treadlink : Reader Treadlink
read_treadlink = do fid ← Reader.u32; pure (record { fid = fid })

pub record Rreadlink : Type 0 where
  pub target : Str

unfoldable pub write_rreadlink : Rreadlink → Put
write_rreadlink m = Writer.str m.target

unfoldable pub read_rreadlink : Reader Rreadlink
read_rreadlink = do target ← Reader.str; pure (record { target = target })

pub record Trenameat : Type 0 where
  pub olddirfid : ℕ
  pub oldname : Str
  pub newdirfid : ℕ
  pub newname : Str

unfoldable pub write_trenameat : Trenameat → Put
write_trenameat m = do
  Writer.u32 m.olddirfid
  Writer.str m.oldname
  Writer.u32 m.newdirfid
  Writer.str m.newname

unfoldable pub read_trenameat : Reader Trenameat
read_trenameat = do
  olddirfid ← Reader.u32
  oldname ← Reader.str
  newdirfid ← Reader.u32
  newname ← Reader.str
  pure (record {
    olddirfid = olddirfid;
    oldname = oldname;
    newdirfid = newdirfid;
    newname = newname;
  })

pub record Tunlinkat : Type 0 where
  pub dirfid : ℕ
  pub name : Str
  pub flags : ℕ

unfoldable pub write_tunlinkat : Tunlinkat → Put
write_tunlinkat m = do Writer.u32 m.dirfid; Writer.str m.name; Writer.u32 m.flags

unfoldable pub read_tunlinkat : Reader Tunlinkat
read_tunlinkat = do
  dirfid ← Reader.u32
  name ← Reader.str
  flags ← Reader.u32
  pure (record { dirfid = dirfid; name = name; flags = flags })
