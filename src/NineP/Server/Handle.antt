-- ===== src/NineP/Server/Handle.antt =====
-- `dispatch` of runtime/ninep/server.ts over its cases, and `handle`.
use nix_wasm.Prelude.{ℕ, List}
use nix_wasm.Prelude.{Option, some}
use nix_wasm.NineP.Reader
use nix_wasm.NineP.Messages.Attributes.{Rstatfs}
use nix_wasm.NineP.Messages.Locks.{Tgetlock}
use nix_wasm.NineP.Message.{Request, Reply, Body, request, reply, Message}
use nix_wasm.NineP.Codec.{encode, decode, peek_tag}
use nix_wasm.NineP.Server.{
  p9err, Result, ok, err, M, ◌>>=◌, pure, throw, Vfs, Server, Config, errno_from_error,
}
use nix_wasm.NineP.Server.Parts.{get_fid}
use nix_wasm.NineP.Server.Handlers.{
  einval, enosys, enodata, on_version, on_attach, on_walk, on_getattr,
}
use nix_wasm.NineP.Server.Creates.{on_setattr, on_lopen, on_lcreate, on_mkdir, on_symlink}
use nix_wasm.NineP.Server.Dispatch.{
  on_readlink, on_read, on_write, on_readdir, on_clunk, on_remove, on_unlinkat, on_rename,
  on_renameat, on_fsync,
}

abbrev pub statfs : Rstatfs
statfs = record {
  fstype = 0x01021997;
  bsize = 4096;
  blocks = 1048576;
  bfree = 1048576;
  bavail = 1048576;
  files = 65536;
  ffree = 65536;
  fsid = 0;
  namelen = 255;
}

module _ {V : Type 0} (backend : ℕ → Vfs V) (config : Config) (cid : ℕ) where
  -- No lock conflicts: the range is given back.
  abbrev pub unlocked : Tgetlock → Reply
  unlocked m = Reply.rgetlock (record {
    locktype = 2;
    start = m.start;
    length = m.length;
    proc_id = m.proc_id;
    client_id = m.client_id;
  })

  unfoldable pub dispatch : Request → M (Server V) Reply
  unfolding on_readlink on_read on_write on_readdir on_clunk on_remove on_unlinkat on_rename
      on_renameat on_fsync
  dispatch (Request.tversion m) = on_version backend config cid m
  dispatch (Request.tattach m) = on_attach backend config cid m
  dispatch (Request.twalk m) = on_walk backend config cid m
  dispatch (Request.tgetattr m) = on_getattr backend config cid m
  dispatch (Request.tsetattr m) = on_setattr backend config cid m
  dispatch (Request.tlopen m) = on_lopen backend config cid m
  dispatch (Request.tlcreate m) = on_lcreate backend config cid m
  dispatch (Request.tmkdir m) = on_mkdir backend config cid m
  dispatch (Request.tsymlink m) = on_symlink backend config cid m
  dispatch (Request.treadlink m) = on_readlink backend config cid m
  dispatch (Request.tread m) = on_read backend config cid m
  dispatch (Request.twrite m) = on_write backend config cid m
  dispatch (Request.treaddir m) = on_readdir backend config cid m
  dispatch (Request.tclunk m) = on_clunk backend config cid m
  dispatch (Request.tremove m) = on_remove backend config cid m
  dispatch (Request.tunlinkat m) = on_unlinkat backend config cid m
  dispatch (Request.trename m) = on_rename backend config cid m
  dispatch (Request.trenameat m) = on_renameat backend config cid m
  dispatch (Request.tstatfs m) = do o ← get_fid config cid m.fid; pure (Reply.rstatfs statfs)
  dispatch (Request.tflush m) = pure Reply.rflush
  dispatch (Request.tfsync m) = on_fsync backend config cid m
  dispatch (Request.tlock m) = do
    o ← get_fid config cid m.fid
    pure (Reply.rlock (record { status = 0 }))
  dispatch (Request.tgetlock m) = do o ← get_fid config cid m.fid; pure (unlocked m)
  dispatch (Request.txattrwalk m) = throw (p9err enodata)
  dispatch (Request.tauth m) = throw (p9err enosys)
  dispatch (Request.tmknod m) = throw (p9err enosys)

  -- A reply that is sent as a request has no case either.
  unfoldable pub dispatch_body : Body → M (Server V) Reply
  unfolding dispatch
  dispatch_body (request r) = dispatch r
  dispatch_body (reply r) = throw (p9err enosys)

abbrev pub error_reply : ℕ → ℕ → List ℕ
error_reply tag errno =
    encode (record { tag = some tag; body = reply (Reply.rlerror (record { ecode = errno })) })

-- The frame of a reply, or of the errno of what was thrown.
abbrev pub framed : Option ℕ → Result Reply → List ℕ
framed tag (ok r) = encode (record { tag = tag; body = reply r })
framed tag (err e) =
    encode
      (record { tag = tag; body = reply (Reply.rlerror (record { ecode = errno_from_error e })) })

module _ {V : Type 0} (backend : ℕ → Vfs V) (config : Config) where
  unfoldable pub handle_decoded :
      List ℕ → ℕ → nix_wasm.NineP.Reader.Result Message → Server V → List ℕ × Server V
  unfolding dispatch_body
  handle_decoded input cid (nix_wasm.NineP.Reader.Result.err e) s =
      (error_reply (peek_tag input) einval, s)
  handle_decoded input cid (nix_wasm.NineP.Reader.Result.ok m) s =
      let r = dispatch_body backend config cid m.body s in (framed m.tag r.0, r.1)

  -- `handle`: the reply's frame, whatever comes in.
  unfoldable pub handle : List ℕ → ℕ → Server V → List ℕ × Server V
  unfolding handle_decoded
  handle input cid s = handle_decoded input cid (decode input) s
