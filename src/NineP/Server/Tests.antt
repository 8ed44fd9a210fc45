-- ===== src/NineP/Server/Tests.antt =====
-- A server of one folder that holds one file, whose bytes are what is stored, and two connections.
use nix_wasm.Prelude.{ℕ, List, [], ◌∷◌, ◌≡◌, refl, Option, none, some, arith, ap, if◌then◌else◌}
use nix_wasm.Text.{Str}
use nix_wasm.NineP.Message.{Request, Reply, request}
use nix_wasm.NineP.Codec.{peek_tag}
use nix_wasm.NineP.Codec.RoundTrip.{decode_short}
use nix_wasm.NineP.Server.{
  ok, M, ◌>>=◌, join_name, pure, throw, plain, folder, file, VfsRecord, Vfs, Server, Config, root,
  str_eq,
}
use nix_wasm.NineP.Server.Parts.{
  find_conn, new_conn, new_fid, resolve_attach, bind_fid, get_fid, inode_of, qid_of, qid_path_for,
}
use nix_wasm.NineP.Server.Files.{read_bytes}
use nix_wasm.NineP.Server.Handlers.{on_attach, on_walk, walk_names}
use nix_wasm.NineP.Server.Dispatch.{on_read}
use nix_wasm.NineP.Server.Handle.{dispatch, dispatch_body, error_reply, handle_decoded, handle}
use nix_wasm.NineP.Server.Qids.{handle_all, qid_of-handle_all}
use nix_wasm.NineP.Server.Inodes.{Numbered}
use nix_wasm.NineP.Writer.{Qid}
use mathlib.Core.Logic.{◌↔◌}
use nix_wasm.NineP.Server.Isolation.{handle-Unmoved}

abbrev Disk : Type 0
Disk = List ℕ

-- "/a"
abbrev path_a : Str
path_a = 47 ∷ 97 ∷ []

abbrev record_root : VfsRecord
record_root = record {
  inode = some (49 ∷ []);
  rtype = folder;
  name = [];
  path = root;
  modified_at = 5000;
  size = none;
  target = [];
}

abbrev record_a : VfsRecord
record_a = record {
  inode = none;
  rtype = file;
  name = 97 ∷ [];
  path = path_a;
  modified_at = 7000;
  size = none;
  target = [];
}

abbrev done : M Disk (Unit {0})
done = pure tt

abbrev stat_of : Str → M Disk (Option VfsRecord)
stat_of path =
    if str_eq path root
    then pure (some record_root)
    else if str_eq path path_a
    then pure (some record_a)
    else pure none

abbrev backend : ℕ → Vfs Disk
backend n = record {
  stat = stat_of;
  list = λ path. pure (record_a ∷ []);
  read_blob = λ path s. pure s s;
  write = λ path r. done;
  mkdir = λ path. throw (plain []);
  remove = λ path. throw (plain []);
  move = λ src dst. throw (plain []);
  open_write = none;
  writer_size = λ w s. 0;
  writer_write = λ w bytes. done;
  writer_truncate = λ w n. done;
  writer_flush = λ w. done;
  writer_close = λ w. done;
}

abbrev config : Config
config = record {
  max_msize = 65536;
  uid = 0;
  gid = 0;
  exports = record { name = root; vfs = 0; root = root } ∷ [];
}

abbrev start : Server Disk
start = record {
  store = 104 ∷ 105 ∷ [];
  heap = [];
  conns = new_conn config 8 ∷ [];
  owners = [];
  qid_paths = [];
  qid_seq = 1;
  negotiated = 65536;
}

start-Numbered : Numbered start.qid_paths start.qid_seq
unfolding Numbered
start-Numbered = ((λ i v p. cc p), (λ i j v p q. cc p))

-- Tattach of fid 1 by the empty name.
abbrev attach_frame : List ℕ
attach_frame =
    23 ∷ 0 ∷ 0 ∷ 0 ∷ 104 ∷ 9 ∷ 0 ∷ 1 ∷ 0 ∷ 0 ∷ 0 ∷ 255 ∷ 255 ∷ 255 ∷ 255 ∷ 0 ∷ 0 ∷ 0 ∷ 0 ∷ 0 ∷ 0 ∷ 0
    ∷ 0 ∷ []

attached : M (Server Disk) Reply
attached = dispatch_body backend config 7 (
    request (
      Request.tattach (record { fid = 1; afid = 0xffffffff; uname = []; aname = []; n_uname = 0 })))

attach : attached start ≡ (
  ok (Reply.rattach (record { qid = record { qtype = 0x80; version = 5; path = 1 } })),
  record start {
    heap = new_fid 0 root ∷ [];
    conns = new_conn config 8 ∷ record { cid = 7; msize = 65536; fids = (1, 0) ∷ [] } ∷ [];
    qid_paths = (49 ∷ [], 1) ∷ [];
    qid_seq = 2;
  },
)
unfolding attached dispatch_body dispatch on_attach resolve_attach bind_fid qid_of qid_path_for
attach = refl

-- Attaching, walking to the file and reading from its second byte.
abbrev session : M (Server Disk) Reply
session = attached >>= λ r.
    dispatch_body backend config 7
      (request (Request.twalk (record { fid = 1; newfid = 2; wnames = (97 ∷ []) ∷ [] })))
    >>= λ q.
        dispatch_body backend config 7
          (request (Request.tread (record { fid = 2; offset = 1; count = 9 })))

reads : (session start).0 ≡ ok (Reply.rread (record { payload = 105 ∷ [] }))
unfolding attached dispatch_body dispatch on_attach resolve_attach bind_fid qid_of qid_path_for
    on_walk walk_names join_name get_fid on_read read_bytes
reads = refl

-- A frame that is cut short is answered with EINVAL.
abbrev cut : List ℕ
cut = 23 ∷ 0 ∷ 0 ∷ 0 ∷ 104 ∷ []

cut_answer : handle backend config cut 7 start ≡ (error_reply (peek_tag cut) 22, start)
unfolding handle handle_decoded
cut_answer = ap (λ d. handle_decoded backend config cut 7 d start) (decode_short cut (omega arith))

-- A qid for the folder, a frame of another connection that asks for it, and a qid for the file.
qid_of-handle_all_example :
    let early = qid_of record_root start in
    let late = qid_of record_a (handle_all backend config ((7, attach_frame) ∷ []) early.1) in
    (p : Qid) × (q : Qid) × (early.0 ≡ ok p)
    × (late.0 ≡ ok q)
    × ((p.path ≡ q.path) ↔ (inode_of record_root ≡ inode_of record_a))
    × Numbered late.1.qid_paths late.1.qid_seq
qid_of-handle_all_example =
    qid_of-handle_all backend config ((7, attach_frame) ∷ []) record_root record_a start
      start-Numbered

handle-Unmoved_example :
    find_conn ((handle backend config attach_frame 7 start).1.conns) 8 ≡ some (new_conn config 8)
handle-Unmoved_example = handle-Unmoved backend config 7 8 (omega arith) attach_frame start
