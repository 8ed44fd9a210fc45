-- ===== src/NineP/Messages/Locks.antt =====
-- The messages on byte-range locks: the interfaces of
-- runtime/ninep/protocol.ts, and their cases in `encode` and `decode`.
use Prim.Native.Nat.{ℕ}
use nix_wasm.Text.{Str}
use nix_wasm.NineP.Writer
use nix_wasm.NineP.Writer.{Put, ◌>>◌}
use nix_wasm.NineP.Reader
use nix_wasm.NineP.Reader.{Reader, ◌>>=◌, pure}

pub record Tlock : Type 0 where
  pub fid : ℕ
  pub locktype : ℕ
  pub flags : ℕ
  pub start : ℕ
  pub length : ℕ
  pub proc_id : ℕ
  pub client_id : Str

unfoldable pub write_tlock : Tlock → Put
write_tlock m = do
  Writer.u32 m.fid
  Writer.u8 m.locktype
  Writer.u32 m.flags
  Writer.u64 m.start
  Writer.u64 m.length
  Writer.u32 m.proc_id
  Writer.str m.client_id

unfoldable pub read_tlock : Reader Tlock
read_tlock = do
  fid ← Reader.u32
  locktype ← Reader.u8
  flags ← Reader.u32
  start ← Reader.u64
  length ← Reader.u64
  proc_id ← Reader.u32
  client_id ← Reader.str
  pure (record {
    fid = fid;
    locktype = locktype;
    flags = flags;
    start = start;
    length = length;
    proc_id = proc_id;
    client_id = client_id;
  })

pub record Rlock : Type 0 where
  pub status : ℕ

unfoldable pub write_rlock : Rlock → Put
write_rlock m = Writer.u8 m.status

unfoldable pub read_rlock : Reader Rlock
read_rlock = do status ← Reader.u8; pure (record { status = status })

pub record Tgetlock : Type 0 where
  pub fid : ℕ
  pub locktype : ℕ
  pub start : ℕ
  pub length : ℕ
  pub proc_id : ℕ
  pub client_id : Str

unfoldable pub write_tgetlock : Tgetlock → Put
write_tgetlock m = do
  Writer.u32 m.fid
  Writer.u8 m.locktype
  Writer.u64 m.start
  Writer.u64 m.length
  Writer.u32 m.proc_id
  Writer.str m.client_id

unfoldable pub read_tgetlock : Reader Tgetlock
read_tgetlock = do
  fid ← Reader.u32
  locktype ← Reader.u8
  start ← Reader.u64
  length ← Reader.u64
  proc_id ← Reader.u32
  client_id ← Reader.str
  pure (record {
    fid = fid;
    locktype = locktype;
    start = start;
    length = length;
    proc_id = proc_id;
    client_id = client_id;
  })

pub record Rgetlock : Type 0 where
  pub locktype : ℕ
  pub start : ℕ
  pub length : ℕ
  pub proc_id : ℕ
  pub client_id : Str

unfoldable pub write_rgetlock : Rgetlock → Put
write_rgetlock m = do
  Writer.u8 m.locktype
  Writer.u64 m.start
  Writer.u64 m.length
  Writer.u32 m.proc_id
  Writer.str m.client_id

unfoldable pub read_rgetlock : Reader Rgetlock
read_rgetlock = do
  locktype ← Reader.u8
  start ← Reader.u64
  length ← Reader.u64
  proc_id ← Reader.u32
  client_id ← Reader.str
  pure (record {
    locktype = locktype;
    start = start;
    length = length;
    proc_id = proc_id;
    client_id = client_id;
  })
