-- ===== src/NineP/Server/Frames.antt =====
-- Every case of `dispatch` of runtime/ninep/server.ts, and every frame, makes only the changes that a
-- relation allows.
use nix_wasm.Prelude.{ℕ, List}
use nix_wasm.NineP.Reader
use nix_wasm.NineP.Codec.{decode}
use nix_wasm.NineP.Message.{Message, Request, Reply, Body, request, reply}
use nix_wasm.NineP.Server.{◌>>=◌, pure, Server, p9err}
use nix_wasm.NineP.Server.Parts.{get_fid}
use nix_wasm.NineP.Server.Handlers.{enosys, enodata}
use nix_wasm.NineP.Server.Handle.{dispatch, dispatch_body, handle_decoded, handle}
use nix_wasm.NineP.Server.Steps.{Setting, Does, Does-pure, Does-throw, Does-bind, Does-get_fid}
use nix_wasm.NineP.Server.Opens.{Does-on_version, Does-on_attach, Does-on_walk, Does-on_getattr}
use nix_wasm.NineP.Server.Makes.{
  Does-on_setattr, Does-on_lopen, Does-on_lcreate, Does-on_mkdir, Does-on_symlink,
}
use nix_wasm.NineP.Server.Requests.{
  Does-on_readlink, Does-on_read, Does-on_write, Does-on_readdir, Does-on_clunk, Does-on_remove,
  Does-on_unlinkat, Does-on_rename, Does-on_renameat, Does-on_fsync,
}

module _ {V : Type 0} (k : Setting V) where
  open k use {backend, config, cid, R, allows}

  -- A request that only asks whether the fid is there.
  Does-known : (fid : ℕ) (r : Reply) → Does k (get_fid config cid fid >>= (λ o. pure r))
  Does-known fid r = Does-bind k _ _ (Does-get_fid k fid) (λ o. Does-pure k r)

  Does-dispatch : (r : Request) → Does k (dispatch backend config cid r)
  unfolding dispatch
  Does-dispatch (Request.tversion m) = Does-on_version k m
  Does-dispatch (Request.tattach m) = Does-on_attach k m
  Does-dispatch (Request.twalk m) = Does-on_walk k m
  Does-dispatch (Request.tgetattr m) = Does-on_getattr k m
  Does-dispatch (Request.tsetattr m) = Does-on_setattr k m
  Does-dispatch (Request.tlopen m) = Does-on_lopen k m
  Does-dispatch (Request.tlcreate m) = Does-on_lcreate k m
  Does-dispatch (Request.tmkdir m) = Does-on_mkdir k m
  Does-dispatch (Request.tsymlink m) = Does-on_symlink k m
  Does-dispatch (Request.treadlink m) = Does-on_readlink k m
  Does-dispatch (Request.tread m) = Does-on_read k m
  Does-dispatch (Request.twrite m) = Does-on_write k m
  Does-dispatch (Request.treaddir m) = Does-on_readdir k m
  Does-dispatch (Request.tclunk m) = Does-on_clunk k m
  Does-dispatch (Request.tremove m) = Does-on_remove k m
  Does-dispatch (Request.tunlinkat m) = Does-on_unlinkat k m
  Does-dispatch (Request.trename m) = Does-on_rename k m
  Does-dispatch (Request.trenameat m) = Does-on_renameat k m
  Does-dispatch (Request.tstatfs m) = Does-known m.fid _
  Does-dispatch (Request.tflush m) = Does-pure k Reply.rflush
  Does-dispatch (Request.tfsync m) = Does-on_fsync k m
  Does-dispatch (Request.tlock m) = Does-known m.fid _
  Does-dispatch (Request.tgetlock m) = Does-known m.fid _
  Does-dispatch (Request.txattrwalk m) = Does-throw k _ (p9err enodata)
  Does-dispatch (Request.tauth m) = Does-throw k _ (p9err enosys)
  Does-dispatch (Request.tmknod m) = Does-throw k _ (p9err enosys)

  pub Does-dispatch_body : (b : Body) → Does k (dispatch_body backend config cid b)
  unfolding dispatch_body
  Does-dispatch_body (request r) = Does-dispatch r
  Does-dispatch_body (reply r) = Does-throw k _ (p9err enosys)

  -- The relation holds of the states before and after a frame.
  pub handle_lem : (input : List ℕ) (s : Server V) → R s (handle backend config input cid s).1
  unfolding Does handle handle_decoded
  handle_lem input s = given (decode input)
    where
      given :
          (d : nix_wasm.NineP.Reader.Result Message)
          → R s (handle_decoded backend config input cid d s).1
      given (nix_wasm.NineP.Reader.Result.err e) = allows.same s
      given (nix_wasm.NineP.Reader.Result.ok m) = Does-dispatch_body m.body s
