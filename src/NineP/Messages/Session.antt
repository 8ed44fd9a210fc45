-- ===== src/NineP/Messages/Session.antt =====
-- The messages that open a session and walk to files: the interfaces of
-- runtime/ninep/protocol.ts, and their cases in `encode` and `decode`.
use Prim.Native.Nat.{ℕ}
use mathlib.Core.List.{List}
use nix_wasm.Text.{Str}
use nix_wasm.NineP.Writer
use nix_wasm.NineP.Writer.{Qid, Put, ◌>>◌}
use nix_wasm.NineP.Reader
use nix_wasm.NineP.Reader.{Reader, ◌>>=◌, pure}

pub record Tversion : Type 0 where
  pub msize : ℕ
  pub version : Str

unfoldable pub write_tversion : Tversion → Put
write_tversion m = do Writer.u32 m.msize; Writer.str m.version

unfoldable pub read_tversion : Reader Tversion
read_tversion = do
  msize ← Reader.u32
  version ← Reader.str
  pure (record { msize = msize; version = version })

pub record Rversion : Type 0 where
  pub msize : ℕ
  pub version : Str

unfoldable pub write_rversion : Rversion → Put
write_rversion m = do Writer.u32 m.msize; Writer.str m.version

unfoldable pub read_rversion : Reader Rversion
read_rversion = do
  msize ← Reader.u32
  version ← Reader.str
  pure (record { msize = msize; version = version })

pub record Tauth : Type 0 where
  pub afid : ℕ
  pub uname : Str
  pub aname : Str
  pub n_uname : ℕ

unfoldable pub write_tauth : Tauth → Put
write_tauth m = do Writer.u32 m.afid; Writer.str m.uname; Writer.str m.aname; Writer.u32 m.n_uname

unfoldable pub read_tauth : Reader Tauth
read_tauth = do
  afid ← Reader.u32
  uname ← Reader.str
  aname ← Reader.str
  n_uname ← Reader.u32
  pure (record { afid = afid; uname = uname; aname = aname; n_uname = n_uname })

pub record Rauth : Type 0 where
  pub aqid : Qid

unfoldable pub write_rauth : Rauth → Put
write_rauth m = Writer.qid m.aqid

unfoldable pub read_rauth : Reader Rauth
read_rauth = do aqid ← Reader.qid; pure (record { aqid = aqid })

pub record Tattach : Type 0 where
  pub fid : ℕ
  pub afid : ℕ
  pub uname : Str
  pub aname : Str
  pub n_uname : ℕ

unfoldable pub write_tattach : Tattach → Put
write_tattach m = do
  Writer.u32 m.fid
  Writer.u32 m.afid
  Writer.str m.uname
  Writer.str m.aname
  Writer.u32 m.n_uname

unfoldable pub read_tattach : Reader Tattach
read_tattach = do
  fid ← Reader.u32
  afid ← Reader.u32
  uname ← Reader.str
  aname ← Reader.str
  n_uname ← Reader.u32
  pure (record { fid = fid; afid = afid; uname = uname; aname = aname; n_uname = n_uname })

pub record Rattach : Type 0 where
  pub qid : Qid

unfoldable pub write_rattach : Rattach → Put
write_rattach m = Writer.qid m.qid

unfoldable pub read_rattach : Reader Rattach
read_rattach = do qid ← Reader.qid; pure (record { qid = qid })

pub record Rlerror : Type 0 where
  pub ecode : ℕ

unfoldable pub write_rlerror : Rlerror → Put
write_rlerror m = Writer.u32 m.ecode

unfoldable pub read_rlerror : Reader Rlerror
read_rlerror = do ecode ← Reader.u32; pure (record { ecode = ecode })

pub record Tflush : Type 0 where
  pub oldtag : ℕ

unfoldable pub write_tflush : Tflush → Put
write_tflush m = Writer.u16 m.oldtag

unfoldable pub read_tflush : Reader Tflush
read_tflush = do oldtag ← Reader.u16; pure (record { oldtag = oldtag })

pub record Twalk : Type 0 where
  pub fid : ℕ
  pub newfid : ℕ
  pub wnames : List Str

unfoldable pub write_twalk : Twalk → Put
write_twalk m = do Writer.u32 m.fid; Writer.u32 m.newfid; Writer.wnames m.wnames

unfoldable pub read_twalk : Reader Twalk
read_twalk = do
  fid ← Reader.u32
  newfid ← Reader.u32
  wnames ← Reader.wnames
  pure (record { fid = fid; newfid = newfid; wnames = wnames })

pub record Rwalk : Type 0 where
  pub qids : List Qid

unfoldable pub write_rwalk : Rwalk → Put
write_rwalk m = Writer.qids m.qids

unfoldable pub read_rwalk : Reader Rwalk
read_rwalk = do qids ← Reader.qids; pure (record { qids = qids })

pub record Tclunk : Type 0 where
  pub fid : ℕ

unfoldable pub write_tclunk : Tclunk → Put
write_tclunk m = Writer.u32 m.fid

unfoldable pub read_tclunk : Reader Tclunk
read_tclunk = do fid ← Reader.u32; pure (record { fid = fid })

pub record Tremove : Type 0 where
  pub fid : ℕ

unfoldable pub write_tremove : Tremove → Put
write_tremove m = Writer.u32 m.fid

unfoldable pub read_tremove : Reader Tremove
read_tremove = do fid ← Reader.u32; pure (record { fid = fid })
