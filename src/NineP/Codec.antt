-- ===== src/NineP/Codec.antt =====
-- `encode`, `decode` and `peekTag` of runtime/ninep/protocol.ts, over the cases in Messages/.
pub mod Frame
pub mod RoundTrip
use nix_wasm.Prelude.{ℕ, ◌+◌, ◌*◌, List, Option, none, some, ltb, if◌then◌else◌, length, get_elem?}
use nix_wasm.NineP.Writer
use nix_wasm.NineP.Writer.{Put, ◌>>◌, new_writer, patch_u32, out}
use nix_wasm.NineP.Wire.{skip}
use nix_wasm.NineP.Reader
use nix_wasm.NineP.Reader.{Reader, Result, ok, err, unknown_type, ◌>>=◌, pure, throw}
use nix_wasm.NineP.Message.{
  Kind, code, msg_name, Request, Reply, Body, request, reply, Message, body_kind,
}
use nix_wasm.NineP.Messages.Session.{
  write_tversion, read_tversion, write_rversion, read_rversion, write_tauth, read_tauth,
  write_rauth, read_rauth, write_tattach, read_tattach, write_rattach, read_rattach, write_rlerror,
  read_rlerror, write_tflush, read_tflush, write_twalk, read_twalk, write_rwalk, read_rwalk,
  write_tclunk, read_tclunk, write_tremove, read_tremove,
}
use nix_wasm.NineP.Messages.Attributes.{
  write_tstatfs, read_tstatfs, write_rstatfs, read_rstatfs, write_tgetattr, read_tgetattr,
  write_rgetattr, read_rgetattr, write_tsetattr, read_tsetattr, write_txattrwalk, read_txattrwalk,
}
use nix_wasm.NineP.Messages.Create.{
  write_tlopen, read_tlopen, write_rlopen, read_rlopen, write_tlcreate, read_tlcreate,
  write_rlcreate, read_rlcreate, write_tsymlink, read_tsymlink, write_rsymlink, read_rsymlink,
  write_tmknod, read_tmknod, write_rmknod, read_rmknod, write_tmkdir, read_tmkdir, write_rmkdir,
  read_rmkdir,
}
use nix_wasm.NineP.Messages.Names.{
  write_trename, read_trename, write_treadlink, read_treadlink, write_rreadlink, read_rreadlink,
  write_trenameat, read_trenameat, write_tunlinkat, read_tunlinkat,
}
use nix_wasm.NineP.Messages.Content.{
  write_treaddir, read_treaddir, write_rreaddir, read_rreaddir, write_tfsync, read_tfsync,
  write_tread, read_tread, write_rread, read_rread, write_twrite, read_twrite, write_rwrite,
  read_rwrite,
}
use nix_wasm.NineP.Messages.Locks.{
  write_tlock, read_tlock, write_rlock, read_rlock, write_tgetlock, read_tgetlock, write_rgetlock,
  read_rgetlock,
}

unfoldable pub write_request : Request → Put
write_request (Request.tversion m) = write_tversion m
write_request (Request.tauth m) = write_tauth m
write_request (Request.tattach m) = write_tattach m
write_request (Request.tstatfs m) = write_tstatfs m
write_request (Request.tlopen m) = write_tlopen m
write_request (Request.tlcreate m) = write_tlcreate m
write_request (Request.tsymlink m) = write_tsymlink m
write_request (Request.tmknod m) = write_tmknod m
write_request (Request.trename m) = write_trename m
write_request (Request.treadlink m) = write_treadlink m
write_request (Request.tgetattr m) = write_tgetattr m
write_request (Request.tsetattr m) = write_tsetattr m
write_request (Request.txattrwalk m) = write_txattrwalk m
write_request (Request.treaddir m) = write_treaddir m
write_request (Request.tfsync m) = write_tfsync m
write_request (Request.tlock m) = write_tlock m
write_request (Request.tgetlock m) = write_tgetlock m
write_request (Request.tmkdir m) = write_tmkdir m
write_request (Request.trenameat m) = write_trenameat m
write_request (Request.tunlinkat m) = write_tunlinkat m
write_request (Request.tflush m) = write_tflush m
write_request (Request.twalk m) = write_twalk m
write_request (Request.tread m) = write_tread m
write_request (Request.twrite m) = write_twrite m
write_request (Request.tclunk m) = write_tclunk m
write_request (Request.tremove m) = write_tremove m

unfoldable pub write_reply : Reply → Put
write_reply (Reply.rversion m) = write_rversion m
write_reply (Reply.rauth m) = write_rauth m
write_reply (Reply.rattach m) = write_rattach m
write_reply (Reply.rlerror m) = write_rlerror m
write_reply (Reply.rstatfs m) = write_rstatfs m
write_reply (Reply.rlopen m) = write_rlopen m
write_reply (Reply.rlcreate m) = write_rlcreate m
write_reply (Reply.rsymlink m) = write_rsymlink m
write_reply (Reply.rmknod m) = write_rmknod m
write_reply Reply.rrename = skip
write_reply (Reply.rreadlink m) = write_rreadlink m
write_reply (Reply.rgetattr m) = write_rgetattr m
write_reply Reply.rsetattr = skip
write_reply (Reply.rreaddir m) = write_rreaddir m
write_reply Reply.rfsync = skip
write_reply (Reply.rlock m) = write_rlock m
write_reply (Reply.rgetlock m) = write_rgetlock m
write_reply (Reply.rmkdir m) = write_rmkdir m
write_reply Reply.rrenameat = skip
write_reply Reply.runlinkat = skip
write_reply Reply.rflush = skip
write_reply (Reply.rwalk m) = write_rwalk m
write_reply (Reply.rread m) = write_rread m
write_reply (Reply.rwrite m) = write_rwrite m
write_reply Reply.rclunk = skip
write_reply Reply.rremove = skip

-- The `switch` of `encode`.
unfoldable pub write_body : Body → Put
unfolding write_request write_reply
write_body (request m) = write_request m
write_body (reply m) = write_reply m

abbrev pub tag_or_zero : Option ℕ → ℕ
tag_or_zero none = 0
tag_or_zero (some t) = t

-- What is written before the size is patched in.
unfoldable pub write_message : Message → Put
write_message m = do
  Writer.u32 0
  Writer.u8 (code (body_kind m.body))
  Writer.u16 (tag_or_zero m.tag)
  write_body m.body

unfoldable pub encode : Message → List ℕ
unfolding write_message
encode m = let w = write_message m new_writer in out (patch_u32 0 w.pos w)

-- The `switch` of `decode`, case by case.
unfoldable pub read_body : Kind → Reader Body
read_body Kind.rxattrwalk = throw (unknown_type 31)
read_body Kind.rlerror = do m ← read_rlerror; pure (reply (Reply.rlerror m))
read_body Kind.tstatfs = do m ← read_tstatfs; pure (request (Request.tstatfs m))
read_body Kind.rstatfs = do m ← read_rstatfs; pure (reply (Reply.rstatfs m))
read_body Kind.tlopen = do m ← read_tlopen; pure (request (Request.tlopen m))
read_body Kind.rlopen = do m ← read_rlopen; pure (reply (Reply.rlopen m))
read_body Kind.tlcreate = do m ← read_tlcreate; pure (request (Request.tlcreate m))
read_body Kind.rlcreate = do m ← read_rlcreate; pure (reply (Reply.rlcreate m))
read_body Kind.tsymlink = do m ← read_tsymlink; pure (request (Request.tsymlink m))
read_body Kind.rsymlink = do m ← read_rsymlink; pure (reply (Reply.rsymlink m))
read_body Kind.tmknod = do m ← read_tmknod; pure (request (Request.tmknod m))
read_body Kind.rmknod = do m ← read_rmknod; pure (reply (Reply.rmknod m))
read_body Kind.trename = do m ← read_trename; pure (request (Request.trename m))
read_body Kind.rrename = pure (reply Reply.rrename)
read_body Kind.treadlink = do m ← read_treadlink; pure (request (Request.treadlink m))
read_body Kind.rreadlink = do m ← read_rreadlink; pure (reply (Reply.rreadlink m))
read_body Kind.tgetattr = do m ← read_tgetattr; pure (request (Request.tgetattr m))
read_body Kind.rgetattr = do m ← read_rgetattr; pure (reply (Reply.rgetattr m))
read_body Kind.tsetattr = do m ← read_tsetattr; pure (request (Request.tsetattr m))
read_body Kind.rsetattr = pure (reply Reply.rsetattr)
read_body Kind.txattrwalk = do m ← read_txattrwalk; pure (request (Request.txattrwalk m))
read_body Kind.treaddir = do m ← read_treaddir; pure (request (Request.treaddir m))
read_body Kind.rreaddir = do m ← read_rreaddir; pure (reply (Reply.rreaddir m))
read_body Kind.tfsync = do m ← read_tfsync; pure (request (Request.tfsync m))
read_body Kind.rfsync = pure (reply Reply.rfsync)
read_body Kind.tlock = do m ← read_tlock; pure (request (Request.tlock m))
read_body Kind.rlock = do m ← read_rlock; pure (reply (Reply.rlock m))
read_body Kind.tgetlock = do m ← read_tgetlock; pure (request (Request.tgetlock m))
read_body Kind.rgetlock = do m ← read_rgetlock; pure (reply (Reply.rgetlock m))
read_body Kind.tmkdir = do m ← read_tmkdir; pure (request (Request.tmkdir m))
read_body Kind.rmkdir = do m ← read_rmkdir; pure (reply (Reply.rmkdir m))
read_body Kind.trenameat = do m ← read_trenameat; pure (request (Request.trenameat m))
read_body Kind.rrenameat = pure (reply Reply.rrenameat)
read_body Kind.tunlinkat = do m ← read_tunlinkat; pure (request (Request.tunlinkat m))
read_body Kind.runlinkat = pure (reply Reply.runlinkat)
read_body Kind.tversion = do m ← read_tversion; pure (request (Request.tversion m))
read_body Kind.rversion = do m ← read_rversion; pure (reply (Reply.rversion m))
read_body Kind.tauth = do m ← read_tauth; pure (request (Request.tauth m))
read_body Kind.rauth = do m ← read_rauth; pure (reply (Reply.rauth m))
read_body Kind.tattach = do m ← read_tattach; pure (request (Request.tattach m))
read_body Kind.rattach = do m ← read_rattach; pure (reply (Reply.rattach m))
read_body Kind.tflush = do m ← read_tflush; pure (request (Request.tflush m))
read_body Kind.rflush = pure (reply Reply.rflush)
read_body Kind.twalk = do m ← read_twalk; pure (request (Request.twalk m))
read_body Kind.rwalk = do m ← read_rwalk; pure (reply (Reply.rwalk m))
read_body Kind.tread = do m ← read_tread; pure (request (Request.tread m))
read_body Kind.rread = do m ← read_rread; pure (reply (Reply.rread m))
read_body Kind.twrite = do m ← read_twrite; pure (request (Request.twrite m))
read_body Kind.rwrite = do m ← read_rwrite; pure (reply (Reply.rwrite m))
read_body Kind.tclunk = do m ← read_tclunk; pure (request (Request.tclunk m))
read_body Kind.rclunk = pure (reply Reply.rclunk)
read_body Kind.tremove = do m ← read_tremove; pure (request (Request.tremove m))
read_body Kind.rremove = pure (reply Reply.rremove)

-- A type that no `case` names is an error.
unfoldable pub read_type : ℕ → Reader Body
unfolding read_body msg_name
read_type n = elim (msg_name n) [ none ↦ throw (unknown_type n) | some k ↦ read_body k ]

unfoldable pub read_message : Reader Message
unfolding read_type
read_message = do
  size ← Reader.u32
  n ← Reader.u8
  tag ← Reader.u16
  body ← read_type n
  pure (record { tag = some tag; body = body })

-- Bytes behind the message are not looked at.
unfoldable pub decode : List ℕ → Result Message
unfolding read_message
decode input = elim (read_message input) [ ok (m, rest) ↦ ok m | err e ↦ err e ]

abbrev byte_at : ℕ → List ℕ → ℕ
byte_at i bs = elim (get_elem? bs i) [ none ↦ 0 | some b ↦ b ]

abbrev pub no_tag : ℕ
no_tag = 0xffff

-- The tag at offset 5, or `NOTAG` for a frame too short to have one.
unfoldable pub peek_tag : List ℕ → ℕ
peek_tag input = if ltb (length input) 7 then no_tag else byte_at 5 input + 256 * byte_at 6 input
