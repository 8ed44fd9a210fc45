-- ===== src/NineP/Server/Parts.antt =====
-- What the handlers of runtime/ninep/server.ts share: connections and fids, qids, whole files, deferred
-- writers and the entries of a directory.
use nix_wasm.Prelude.{ℕ, zero, suc, ◌+◌, ◌/◌, ◌%◌, ◌^◌, List, [], ◌∷◌, ◌++◌}
use nix_wasm.Prelude.{false, ◌&&◌, Option, none, some, ◌==◌, if◌then◌else◌, length, get_elem?}
use nix_wasm.Text.{Str}
use nix_wasm.NineP.Writer.{Qid}
use nix_wasm.NineP.Server.{
  p9err, plain, Result, ok, err, M, ◌>>=◌, pure, throw, RecordType, folder, alias, file, VfsRecord,
  Fid, Fids, Conn, Owner, Server, Export, Config, str_eq, slash, root, join_name,
}

abbrev pub ebadf : ℕ
ebadf = 9

abbrev pub enoent : ℕ
enoent = 2

abbrev pub lift_result {ℓ} : {S : Type 0} {A : Type ℓ} → Result A → M S A
lift_result r s = (r, s)

-- `normAname`, of an attach name.
abbrev pub norm_aname : Str → Str
norm_aname [] = root
norm_aname (c ∷ cs) = if c == slash then norm_aname cs else (c ∷ cs)

-- `split("/")`, and the walk of `joinPath` over the parts that are not empty.
abbrev pub split_slash : Str → List Str
split_slash [] = [] ∷ []
split_slash (c ∷ cs) = elim (split_slash cs) [
  | [] ↦ [] ∷ []
  | part ∷ parts ↦ if c == slash then ([] ∷ part ∷ parts) else ((c ∷ part) ∷ parts)
]

abbrev pub join_parts : Str → List Str → Result Str
join_parts cur [] = ok cur
join_parts cur (part ∷ parts) = elim (join_name cur part) [
  | ok next ↦ join_parts next parts
  | err e ↦ err e
]

abbrev pub join_path : Str → Str → Result Str
join_path base rel = join_parts base (split_slash rel)

abbrev pub find_export : Str → List Export → Option Export
find_export name [] = none
find_export name (e ∷ es) = if str_eq e.name name then some e else find_export name es

abbrev pub first : List Export → Option Export
first [] = none
first (e ∷ es) = some e

abbrev pub or_else {ℓ} : {A : Type ℓ} → Option A → Option A → Option A
or_else none b = b
or_else (some a) b = some a

abbrev pub default_export : Config → Option Export
default_export config = or_else (find_export root config.exports) (first config.exports)

abbrev pub at_export : Option Export → Str → Result (ℕ × Str)
at_export none aname = err (plain [])
at_export (some e) aname =
    if str_eq aname root
    then ok (e.vfs, e.root)
    else (elim (join_path e.root aname) [ ok path ↦ ok (e.vfs, path) | err x ↦ err x ])

-- The backend and the path of an attach name; the empty name has no parts to walk.
unfoldable pub resolve_attach : Config → Str → Result (ℕ × Str)
resolve_attach config aname = elim (find_export (norm_aname aname) config.exports) [
  | some e ↦ ok (e.vfs, e.root)
  | none ↦ at_export (default_export config) aname
]

abbrev pub find_conn : List Conn → ℕ → Option Conn
find_conn [] cid = none
find_conn (c ∷ cs) cid = if c.cid == cid then some c else find_conn cs cid

abbrev pub set_conn : List Conn → Conn → List Conn
set_conn [] c = c ∷ []
set_conn (d ∷ ds) c = if d.cid == c.cid then (c ∷ ds) else (d ∷ set_conn ds c)

abbrev pub find_fid : Fids → ℕ → Option ℕ
find_fid [] fid = none
find_fid ((f, o) ∷ fids) fid = if f == fid then some o else find_fid fids fid

abbrev pub put_fid : Fids → ℕ → ℕ → Fids
put_fid [] fid o = (fid, o) ∷ []
put_fid ((f, p) ∷ fids) fid o = if f == fid then ((f, o) ∷ fids) else ((f, p) ∷ put_fid fids fid o)

abbrev pub drop_fid : Fids → ℕ → Fids
drop_fid [] fid = []
drop_fid ((f, p) ∷ fids) fid = if f == fid then fids else ((f, p) ∷ drop_fid fids fid)

abbrev pub new_conn : Config → ℕ → Conn
new_conn config cid = record { cid = cid; msize = config.max_msize; fids = [] }

abbrev pub or_new : Config → ℕ → Option Conn → Conn
or_new config cid none = new_conn config cid
or_new config cid (some c) = c

abbrev pub find_qid : List (Str × ℕ) → Str → Option ℕ
find_qid [] inode = none
find_qid ((k, v) ∷ qids) inode = if str_eq k inode then some v else find_qid qids inode

abbrev pub find_owner : List Owner → ℕ → Str → Option ℕ
find_owner [] vfs path = none
find_owner (o ∷ os) vfs path =
    if (o.vfs == vfs) && str_eq o.path path then some o.object else find_owner os vfs path

abbrev pub drop_owner : List Owner → ℕ → Str → List Owner
drop_owner [] vfs path = []
drop_owner (o ∷ os) vfs path =
    if (o.vfs == vfs) && str_eq o.path path then os else (o ∷ drop_owner os vfs path)

abbrev pub put_owner : List Owner → ℕ → Str → ℕ → List Owner
put_owner [] vfs path object = record { vfs = vfs; path = path; object = object } ∷ []
put_owner (o ∷ os) vfs path object =
    if (o.vfs == vfs) && str_eq o.path path
    then (record o { object = object } ∷ os)
    else (o ∷ put_owner os vfs path object)

-- The element at an index, changed.
abbrev pub update : {A : Type 0} → List A → ℕ → (A → A) → List A
update [] i f = []
update (x ∷ xs) zero f = f x ∷ xs
update (x ∷ xs) (suc i) f = x ∷ update xs i f

abbrev pub new_fid : ℕ → Str → Fid
new_fid vfs path = record {
  path = path;
  vfs = vfs;
  opened = false;
  dirents = none;
  writer = none;
  writer_path = none;
}

abbrev pub qtype_of : RecordType → ℕ
qtype_of folder = 0x80
qtype_of alias = 2
qtype_of file = 0

abbrev pub inode_of : VfsRecord → Str
inode_of r = elim (r.inode) [ none ↦ r.path | some id ↦ id ]

module _ {V : Type 0} where
  abbrev pub on_store : {A : Type 0} → M V A → M (Server V) A
  on_store m s = let r = m s.store in (r.0, record s { store = r.1 })

  -- `conn(cid)`: a connection that is not there is made.
  abbrev pub get_conn : Config → ℕ → M (Server V) Conn
  get_conn config cid s =
      let c = or_new config cid (find_conn s.conns cid) in
      (ok c, record s { conns = set_conn s.conns c })

  abbrev pub save_conn : Conn → M (Server V) (Unit {0})
  save_conn c s = (ok tt, record s { conns = set_conn s.conns c })

  abbrev pub fid_or_bad : Option ℕ → M (Server V) ℕ
  fid_or_bad none = throw (p9err ebadf)
  fid_or_bad (some o) = pure o

  -- The object of a fid.
  unfoldable pub get_fid : Config → ℕ → ℕ → M (Server V) ℕ
  get_fid config cid fid = do c ← get_conn config cid; fid_or_bad (find_fid c.fids fid)

  abbrev pub object_or : Option Fid → M (Server V) Fid
  object_or none = throw (plain [])
  object_or (some f) = pure f

  -- The fields of an object; an address that the heap does not have names none.
  abbrev pub deref : ℕ → M (Server V) Fid
  deref o s = object_or (get_elem? s.heap o) s

  abbrev pub modify : ℕ → (Fid → Fid) → M (Server V) (Unit {0})
  modify o f s = (ok tt, record s { heap = update s.heap o f })

  -- `fids.set(fid, { path, vfs })`
  abbrev pub enter_fid : Conn → ℕ → ℕ → Str → M (Server V) (Unit {0})
  enter_fid c fid vfs path s = (
    ok tt,
    record s {
      heap = s.heap ++ (new_fid vfs path ∷ []);
      conns = set_conn s.conns (record c { fids = put_fid c.fids fid (length s.heap) });
    },
  )

  unfoldable pub bind_fid : Config → ℕ → ℕ → ℕ → Str → M (Server V) (Unit {0})
  bind_fid config cid fid vfs path = do c ← get_conn config cid; enter_fid c fid vfs path

  unfoldable pub unbind_fid : Config → ℕ → ℕ → M (Server V) (Unit {0})
  unbind_fid config cid fid = do
    c ← get_conn config cid
    save_conn (record c { fids = drop_fid c.fids fid })

  -- The number of an inode, a new one where it has none.
  abbrev pub interned : Str → Option ℕ → M (Server V) ℕ
  interned inode (some v) s = (ok v, s)
  interned inode none s = (
    ok s.qid_seq,
    record s { qid_paths = s.qid_paths ++ ((inode, s.qid_seq) ∷ []); qid_seq = s.qid_seq + 1 },
  )

  unfoldable pub qid_path_for : Str → M (Server V) ℕ
  qid_path_for inode s = interned inode (find_qid s.qid_paths inode) s

  unfoldable pub qid_of : VfsRecord → M (Server V) Qid
  unfolding qid_path_for
  qid_of r = do
    path ← qid_path_for (inode_of r)
    pure (record { qtype = qtype_of r.rtype; version = r.modified_at / 1000 % 2 ^ 32; path = path })

abbrev pub dtype_of : RecordType → ℕ
dtype_of folder = 4
dtype_of alias = 10
dtype_of file = 8

abbrev pub mode_of : RecordType → ℕ
mode_of folder = 16384 + 493
mode_of alias = 40960 + 511
mode_of file = 32768 + 493
