-- ===== src/NineP/Server/Handlers.antt =====
-- `dispatch` of runtime/ninep/server.ts, a definition for each case that does more than answer.
use nix_wasm.Prelude.{ℕ, ◌+◌, ◌-◌, ◌*◌, ◌/◌, ◌%◌, List, [], ◌∷◌, ◌++◌}
use nix_wasm.Prelude.{
  Bool, true, false, Option, none, some, ltb, leb, ◌==◌, if◌then◌else◌, length, take, overwrite,
  replicate,
}
use nix_wasm.Text.{Str}
use nix_wasm.NineP.Writer.{Qid}
use nix_wasm.NineP.Dirent.{Dirent, pack_dirent}
use nix_wasm.NineP.Messages.Session.{Tversion, Tattach, Twalk}
use nix_wasm.NineP.Messages.Attributes.{Tgetattr}
use nix_wasm.NineP.Message.{Reply}
use nix_wasm.NineP.Server.{
  p9err, ok, err, M, ◌>>=◌, ◌>>◌, pure, throw, RecordType, folder, alias, file, VfsRecord, Vfs,
  Fids, Conn, Server, Config, str_eq, join_name,
}
use nix_wasm.NineP.Server.Parts.{
  enoent, lift_result, resolve_attach, get_conn, save_conn, get_fid, deref, bind_fid, qid_of,
  mode_of,
}
use nix_wasm.NineP.Server.Files.{stat, or_throw, size_of, close_writer}

abbrev pub eisdir : ℕ
eisdir = 21

abbrev pub einval : ℕ
einval = 22

abbrev pub enosys : ℕ
enosys = 38

abbrev pub enodata : ℕ
enodata = 61

abbrev pub is_folder : RecordType → Bool
is_folder folder = true
is_folder alias = false
is_folder file = false

abbrev min : ℕ → ℕ → ℕ
min a b = if leb a b then a else b

-- The size of a message that both sides agree on.
abbrev pub agreed : Config → ℕ → ℕ
agreed config msize = min (if msize == 0 then 8192 else msize) config.max_msize

-- "9P2000.L" and "unknown".
abbrev pub dotl : Str
dotl = 57 ∷ 80 ∷ 50 ∷ 48 ∷ 48 ∷ 48 ∷ 46 ∷ 76 ∷ []

abbrev pub unknown : Str
unknown = 117 ∷ 110 ∷ 107 ∷ 110 ∷ 111 ∷ 119 ∷ 110 ∷ []

-- The first `size` bytes, zeros behind them.
abbrev pub resized : ℕ → List ℕ → List ℕ
resized size bytes = take size bytes ++ replicate (size - length bytes) 0

-- The file with `bytes` at an offset, zeros in a gap.
abbrev pub patched : List ℕ → ℕ → List ℕ → List ℕ
patched cur off bytes = overwrite (cur ++ replicate (off + length bytes - length cur) 0) off bytes

-- The entries behind a cookie, as many whole ones as fit.
unfoldable pub packed_from : ℕ → ℕ → ℕ → List Dirent → List ℕ
packed_from offset count total [] = []
packed_from offset count total (d ∷ ds) =
    let bytes = pack_dirent d in
    let rest = packed_from offset count (total + length bytes) ds in
    if leb d.offset offset
    then packed_from offset count total ds
    else if ltb count (total + length bytes)
    then []
    else (bytes ++ rest)

module _ {V : Type 0} (backend : ℕ → Vfs V) (config : Config) (cid : ℕ) where
  -- Every writer is closed, and then the first error is thrown.
  abbrev pub close_all : Fids → M (Server V) (Unit {0})
  close_all [] s = (ok tt, s)
  close_all ((fid, o) ∷ fids) s =
      let one = close_writer backend o s in
      let rest = close_all fids one.1 in (elim (one.0) [ ok u ↦ rest.0 | err e ↦ err e ], rest.1)

  abbrev pub set_negotiated : ℕ → M (Server V) (Unit {0})
  set_negotiated n s = (ok tt, record s { negotiated = n })

  -- A session starts anew: every fid goes.
  abbrev pub restart : ℕ → Str → Conn → M (Server V) Reply
  restart msize version c = do
    save_conn (record c { msize = msize })
    close_all c.fids
    save_conn (record c { msize = msize; fids = [] })
    set_negotiated msize
    pure (
        Reply.rversion (record {
          msize = msize;
          version = if str_eq (take 8 version) dotl then dotl else unknown;
        }))

  unfoldable pub on_version : Tversion → M (Server V) Reply
  on_version m = do c ← get_conn config cid; restart (agreed config m.msize) m.version c

  unfoldable pub on_attach : Tattach → M (Server V) Reply
  on_attach m = do
    place ← lift_result (resolve_attach config m.aname)
    found ← stat backend (place.0) place.1
    r ← or_throw backend (p9err enoent) found
    bind_fid config cid m.fid (place.0) place.1
    qid ← qid_of r
    pure (Reply.rattach (record { qid = qid }))

  -- The qids of the names that are there, and where the walk ended; the first must be there.
  abbrev pub walked :
      (M (Server V) (List Qid × Str))
      → Bool
      → Option VfsRecord
      → Str
      → M (Server V) (List Qid × Str)
  walked rest is_first none cur = if is_first then throw (p9err enoent) else pure ([], cur)
  walked rest is_first (some r) cur = do qid ← qid_of r; more ← rest; pure (qid ∷ more.0, more.1)

  unfoldable pub walk_names : ℕ → Str → List Str → Bool → M (Server V) (List Qid × Str)
  walk_names vfs cur [] is_first = pure ([], cur)
  walk_names vfs cur (name ∷ names) is_first = do
    next ← lift_result (join_name cur name)
    found ← stat backend vfs next
    walked (walk_names vfs next names false) is_first found cur

  unfoldable pub on_walk : Twalk → M (Server V) Reply
  unfolding walk_names
  on_walk m = do
    o ← get_fid config cid m.fid
    f ← deref o
    w ← walk_names f.vfs f.path m.wnames true
    if length w.0 == length m.wnames
        then (do bind_fid config cid m.newfid f.vfs w.1; pure (Reply.rwalk (record { qids = w.0 })))
        else pure (Reply.rwalk (record { qids = w.0 }))

  unfoldable pub on_getattr : Tgetattr → M (Server V) Reply
  on_getattr m = do
    o ← get_fid config cid m.fid
    f ← deref o
    found ← stat backend f.vfs f.path
    r ← or_throw backend (p9err enoent) found
    size ← size_of backend f.vfs r
    qid ← qid_of r
    let sec = r.modified_at / 1000
    let nsec = r.modified_at % 1000 * 1000000
    pure (
        Reply.rgetattr (record {
          valid = 0x7ff;
          qid = qid;
          mode = mode_of r.rtype;
          uid = config.uid;
          gid = config.gid;
          nlink = if is_folder r.rtype then 2 else 1;
          rdev = 0;
          size = size;
          blksize = 4096;
          blocks = (size + 511) / 512;
          atime_sec = sec;
          atime_nsec = nsec;
          mtime_sec = sec;
          mtime_nsec = nsec;
          ctime_sec = sec;
          ctime_nsec = nsec;
          btime_sec = 0;
          btime_nsec = 0;
          gen = 0;
          data_version = 0;
        }))
