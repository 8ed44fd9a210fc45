-- ===== src/NineP/Messages/Content.antt =====
-- The messages on the content of files and folders: the interfaces of
-- runtime/ninep/protocol.ts, and their cases in `encode` and `decode`.
use Prim.Native.Nat.{ℕ}
use mathlib.Core.List.{List}
use nix_wasm.NineP.Writer
use nix_wasm.NineP.Writer.{Put, ◌>>◌}
use nix_wasm.NineP.Reader
use nix_wasm.NineP.Reader.{Reader, ◌>>=◌, pure}

pub record Treaddir : Type 0 where
  pub fid : ℕ
  pub offset : ℕ
  pub count : ℕ

unfoldable pub write_treaddir : Treaddir → Put
write_treaddir m = do Writer.u32 m.fid; Writer.u64 m.offset; Writer.u32 m.count

unfoldable pub read_treaddir : Reader Treaddir
read_treaddir = do
  fid ← Reader.u32
  offset ← Reader.u64
  count ← Reader.u32
  pure (record { fid = fid; offset = offset; count = count })

pub record Rreaddir : Type 0 where
  pub payload : List ℕ

unfoldable pub write_rreaddir : Rreaddir → Put
write_rreaddir m = Writer.blob m.payload

unfoldable pub read_rreaddir : Reader Rreaddir
read_rreaddir = do payload ← Reader.blob; pure (record { payload = payload })

pub record Tfsync : Type 0 where
  pub fid : ℕ
  pub datasync : ℕ

unfoldable pub write_tfsync : Tfsync → Put
write_tfsync m = do Writer.u32 m.fid; Writer.u32 m.datasync

unfoldable pub read_tfsync : Reader Tfsync
read_tfsync = do
  fid ← Reader.u32
  datasync ← Reader.u32
  pure (record { fid = fid; datasync = datasync })

pub record Tread : Type 0 where
  pub fid : ℕ
  pub offset : ℕ
  pub count : ℕ

unfoldable pub write_tread : Tread → Put
write_tread m = do Writer.u32 m.fid; Writer.u64 m.offset; Writer.u32 m.count

unfoldable pub read_tread : Reader Tread
read_tread = do
  fid ← Reader.u32
  offset ← Reader.u64
  count ← Reader.u32
  pure (record { fid = fid; offset = offset; count = count })

pub record Rread : Type 0 where
  pub payload : List ℕ

unfoldable pub write_rread : Rread → Put
write_rread m = Writer.blob m.payload

unfoldable pub read_rread : Reader Rread
read_rread = do payload ← Reader.blob; pure (record { payload = payload })

pub record Twrite : Type 0 where
  pub fid : ℕ
  pub offset : ℕ
  pub payload : List ℕ

unfoldable pub write_twrite : Twrite → Put
write_twrite m = do Writer.u32 m.fid; Writer.u64 m.offset; Writer.blob m.payload

unfoldable pub read_twrite : Reader Twrite
read_twrite = do
  fid ← Reader.u32
  offset ← Reader.u64
  payload ← Reader.blob
  pure (record { fid = fid; offset = offset; payload = payload })

pub record Rwrite : Type 0 where
  pub count : ℕ

unfoldable pub write_rwrite : Rwrite → Put
write_rwrite m = Writer.u32 m.count

unfoldable pub read_rwrite : Reader Rwrite
read_rwrite = do count ← Reader.u32; pure (record { count = count })
