-- ===== src/NineP/Server/Opens.antt =====
-- The cases of `dispatch` of runtime/ninep/server.ts from Tversion to Tsymlink make only the changes that a
-- relation allows.
use nix_wasm.Prelude.{ℕ, List, [], ◌∷◌, ◌≡◌}
use nix_wasm.Prelude.{Bool, true, false, Option, none, some, ◌==◌, if◌then◌else◌, length, take}
use nix_wasm.Text.{Str}
use nix_wasm.NineP.Writer.{Qid}
use nix_wasm.NineP.Messages.Session.{Tversion, Tattach, Twalk}
use nix_wasm.NineP.Messages.Attributes.{Tgetattr}
use nix_wasm.NineP.Message.{Reply}
use nix_wasm.NineP.Server.{
  Thrown, M, ◌>>=◌, VfsRecord, Fid, Fids, Conn, Server, join_name, p9err, str_eq,
}
use nix_wasm.NineP.Server.Parts.{enoent, get_fid, deref}
use nix_wasm.NineP.Server.Files.{stat, or_throw, close_writer}
use nix_wasm.NineP.Server.Handlers.{
  agreed, dotl, unknown, close_all, set_negotiated, restart, on_version, on_attach, walked,
  walk_names, on_walk, on_getattr,
}
use nix_wasm.NineP.Server.Steps.{
  Setting, Does, Does-pure, Does-throw, Does-result, Does-bind, Does-if, Does-conn, Does-save,
  Does-deref, Does-get_fid, Does-bind_fid, Does-qid_of,
}
use nix_wasm.NineP.Server.Deeds.{Does-stat, Does-or_throw, Does-size_of, Does-close_writer}

module _ {V : Type 0} (k : Setting V) where
  open k use {backend, config, cid, R, allows}

  -- A test of the state between two steps.
  pub Does-test :
      {A : Type 0} (b : Server V → Bool) (m n : M (Server V) A)
      → Does k m
      → Does k n
      → Does k (λ s. if b s then m s else n s)
  unfolding Does
  Does-test b m n hm hn s = by_test (b s)
    where
      by_test : (c : Bool) → R s (if c then m s else n s).1
      by_test true = hm s
      by_test false = hn s

  -- What is done with the object of a fid.
  pub Does-fid :
      {A : Type 0} (fid : ℕ) (f : ℕ → Fid → M (Server V) A)
      → ((o : ℕ) (g : Fid) → Does k (f o g))
      → Does k (get_fid config cid fid >>= (λ o. deref o >>= (λ g. f o g)))
  Does-fid fid f h =
      Does-bind k _ _ (Does-get_fid k fid) (λ o. Does-bind k _ _ (Does-deref k o) (λ g. h o g))

  -- What is done with the record of a path, if there is one.
  pub Does-record :
      {A : Type 0} (e : Thrown) (vfs : ℕ) (path : Str) (f : VfsRecord → M (Server V) A)
      → ((r : VfsRecord) → Does k (f r))
      → Does k (stat backend vfs path >>= (λ found. or_throw backend e found >>= (λ r. f r)))
  Does-record e vfs path f h =
      Does-bind k _ _ (Does-stat k vfs path)
        (λ found. Does-bind k _ _ (Does-or_throw k e found) (λ r. h r))

  Does-close_all : (fids : Fids) → Does k (close_all backend config cid fids)
  unfolding Does
  Does-close_all [] s = allows.same s
  Does-close_all ((fid, o) ∷ fids) s =
      allows.then_ s (close_writer backend o s).1 _ (Does-close_writer k o s)
        (Does-close_all fids (close_writer backend o s).1)

  Does-negotiated : (n : ℕ) → Does k (set_negotiated backend config cid n)
  unfolding Does
  Does-negotiated n s = allows.sizes s n

  Does-restart :
      (msize : ℕ) (version : Str) (c : Conn)
      → c.cid ≡ cid
      → Does k (restart backend config cid msize version c)
  Does-restart msize version c e =
      Does-bind k _ _ (Does-save k (record c { msize = msize }) e) (λ a.
        Does-bind k _ _ (Does-close_all c.fids) (λ b.
          Does-bind k _ _ (Does-save k (record c { msize = msize; fids = [] }) e) (λ d.
            Does-bind k _ _ (Does-negotiated msize) (λ f. Does-pure k (
              Reply.rversion (record {
                msize = msize;
                version = if str_eq (take 8 version) dotl then dotl else unknown;
              }))))))

  pub Does-on_version : (m : Tversion) → Does k (on_version backend config cid m)
  unfolding on_version
  Does-on_version m =
      Does-conn k (λ c. restart backend config cid (agreed config m.msize) m.version c)
        (λ c e. Does-restart (agreed config m.msize) m.version c e)

  pub Does-on_attach : (m : Tattach) → Does k (on_attach backend config cid m)
  unfolding on_attach
  Does-on_attach m = Does-bind k _ _ (Does-result k _) (λ place.
      Does-record _ (place.0) (place.1) _ (λ r.
        Does-bind k _ _ (Does-bind_fid k m.fid (place.0) (place.1))
          (λ a. Does-bind k _ _ (Does-qid_of k r) (λ qid. Does-pure k _))))

  Does-walked :
      (rest : M (Server V) (List Qid × Str)) (is_first : Bool) (r : Option VfsRecord) (cur : Str)
      → Does k rest
      → Does k (walked backend config cid rest is_first r cur)
  Does-walked rest is_first none cur h =
      Does-if k is_first _ _ (Does-throw k _ (p9err enoent)) (Does-pure k ([], cur))
  Does-walked rest is_first (some r) cur h =
      Does-bind k _ _ (Does-qid_of k r) (λ qid. Does-bind k _ _ h (λ more. Does-pure k _))

  Does-walk_names :
      (vfs : ℕ) (cur : Str) (names : List Str) (is_first : Bool)
      → Does k (walk_names backend config cid vfs cur names is_first)
  unfolding walk_names
  Does-walk_names vfs cur [] is_first = Does-pure k ([], cur)
  Does-walk_names vfs cur (name ∷ names) is_first =
      Does-bind k _ _ (Does-result k (join_name cur name)) (λ next.
        Does-bind k _ _ (Does-stat k vfs next)
          (λ found. Does-walked _ is_first found cur (Does-walk_names vfs next names false)))

  pub Does-on_walk : (m : Twalk) → Does k (on_walk backend config cid m)
  unfolding on_walk
  Does-on_walk m = Does-fid m.fid _ (λ o f.
      Does-bind k _ _ (Does-walk_names f.vfs f.path m.wnames true) (λ w.
        Does-if k (length w.0 == length m.wnames) _ _
          (Does-bind k _ _ (Does-bind_fid k m.newfid f.vfs (w.1)) (λ a. Does-pure k _))
          (Does-pure k _)))

  pub Does-on_getattr : (m : Tgetattr) → Does k (on_getattr backend config cid m)
  unfolding on_getattr
  Does-on_getattr m = Does-fid m.fid _ (λ o f. Does-record _ f.vfs f.path _ (λ r.
      Does-bind k _ _ (Does-size_of k f.vfs r)
        (λ size. Does-bind k _ _ (Does-qid_of k r) (λ qid. Does-pure k _))))
