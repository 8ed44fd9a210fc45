-- ===== src/NineP/Server/Steps.antt =====
-- A relation between the states of runtime/ninep/server.ts before and after a request holds where it holds
-- of the single changes that the handlers make: what those are, and what is made of them.
use nix_wasm.Prelude.{ℕ, ◌+◌, List, [], ◌∷◌, ◌++◌, ◌≡◌, refl, sym, ap, ◌∙◌}
use nix_wasm.Prelude.{
  Bool, true, false, Option, none, some, ◌==◌, if◌then◌else◌, Bool-cases, inl, inr, length,
  get_elem?, arith,
}
use mathlib.Core.Option.{some-injective}
use nix_wasm.Text.{Str}
use nix_wasm.NineP.Server.{
  Thrown, Result, ok, err, M, and_then, ◌>>=◌, pure, throw, caught, try, VfsRecord, Vfs, Fid, Conn,
  Owner, Server, Config, plain, p9err,
}
use nix_wasm.NineP.Server.Parts.{
  ebadf, lift_result, find_conn, set_conn, or_new, find_fid, find_qid, on_store, get_conn,
  save_conn, fid_or_bad, get_fid, object_or, deref, modify, bind_fid, unbind_fid, interned,
  qid_path_for, qid_of, inode_of, update, enter_fid, new_fid, put_fid, drop_fid,
}

-- What is to be shown of a relation, for the requests of one connection.
pub record Allows {V : Type 0} (cid : ℕ) (R : Server V → Server V → Type 0) : Type 0 where
  pub same : (s : Server V) → R s s
  pub then_ : (s t u : Server V) → R s t → R t u → R s u
  pub stores : (s : Server V) (v : V) → R s (record s { store = v })
  pub objects : (s : Server V) (h : List Fid) → R s (record s { heap = h })
  pub owned : (s : Server V) (os : List Owner) → R s (record s { owners = os })
  pub sizes : (s : Server V) (n : ℕ) → R s (record s { negotiated = n })
  pub connects :
      (s : Server V) (c : Conn) → c.cid ≡ cid → R s (record s { conns = set_conn s.conns c })
  pub interns :
      (s : Server V) (inode : Str)
      → find_qid s.qid_paths inode ≡ none
      → R s (record s {
        qid_paths = s.qid_paths ++ ((inode, s.qid_seq) ∷ []);
        qid_seq = s.qid_seq + 1;
      })

pub find_conn-cid : (cs : List Conn) (cid : ℕ) (c : Conn) → find_conn cs cid ≡ some c → c.cid ≡ cid
find_conn-cid [] cid c e = cc e
find_conn-cid (d ∷ cs) cid c e = elim (Bool-cases (d.cid == cid)) [
  | inl h ↦ found (rw h at e) (ground (arith, h))
  | inr h ↦ find_conn-cid cs cid c (rw h at e)
]
  where
    found : some d ≡ some c → d.cid ≡ cid → c.cid ≡ cid
    found same is = ap (λ (x : Conn). x.cid) (sym (some-injective _ _ same)) ∙ is

-- The server, one of its connections, and a relation that its changes are in.
pub record Setting (V : Type 0) : Type 1 where
  pub backend : ℕ → Vfs V
  pub config : Config
  pub cid : ℕ
  pub R : Server V → Server V → Type 0
  pub allows : Allows cid R

module _ {V : Type 0} (k : Setting V) where
  open k use {backend, config, cid, R, allows}

  -- A step whose changes the relation allows, whether it throws or not.
  unfoldable pub Does : {A : Type 0} → M (Server V) A → Type 0
  Does m = (s : Server V) → R s (m s).1

  pub Does-throw : (A : Type 0) (e : Thrown) → Does (throw {A = A} e)
  unfolding Does
  Does-throw A e s = allows.same s

  module _ {A : Type 0} where
    pub Does-pure : (a : A) → Does (pure a)
    unfolding Does
    Does-pure a s = allows.same s

    pub Does-result : (r : Result A) → Does (lift_result r)
    unfolding Does
    Does-result r s = allows.same s

    pub Does-bind :
        {B : Type 0} (m : M (Server V) A) (f : A → M (Server V) B)
        → Does m
        → ((a : A) → Does (f a))
        → Does (m >>= f)
    unfolding Does
    Does-bind m f hm hf s = next (m s) (hm s)
      where
        next : (r : Result A × Server V) → R s r.1 → R s (and_then r f).1
        next (ok a, t) h = allows.then_ s t _ h (hf a t)
        next (err e, t) h = h

    pub Does-try : (m k : M (Server V) A) → Does m → Does k → Does (try m k)
    unfolding Does
    Does-try m k hm hk s = next (m s) (hm s)
      where
        next : (r : Result A × Server V) → R s r.1 → R s (caught r k).1
        next (ok a, t) h = h
        next (err e, t) h = allows.then_ s t _ h (hk t)

    pub Does-if : (b : Bool) (m k : M (Server V) A) → Does m → Does k → Does (if b then m else k)
    Does-if true m k hm hk = hm
    Does-if false m k hm hk = hk

    -- A step that is chosen by the state.
    pub Does-at :
        (f : Server V → M (Server V) A) → ((s : Server V) → Does (f s)) → Does (λ s. f s s)
    unfolding Does
    Does-at f h s = h s s

    pub Does-store : (m : M V A) → Does (on_store m)
    unfolding Does
    Does-store m s = allows.stores s (m s.store).1

    -- What follows on the connection.
    pub Does-conn :
        (f : Conn → M (Server V) A)
        → ((c : Conn) → c.cid ≡ cid → Does (f c))
        → Does (get_conn config cid >>= f)
    unfolding Does
    Does-conn f h s =
        allows.then_ s _ _ (allows.connects s c is_cid)
          (h c is_cid (record s { conns = set_conn s.conns c }))
      where
        c : Conn
        c = or_new config cid (find_conn s.conns cid)

        is_cid : c.cid ≡ cid
        is_cid = made (find_conn s.conns cid) refl
          where
            made : (o : Option Conn) → find_conn s.conns cid ≡ o → (or_new config cid o).cid ≡ cid
            made none e = refl
            made (some d) e = find_conn-cid s.conns cid d e

  pub Does-save : (c : Conn) → c.cid ≡ cid → Does (save_conn c)
  unfolding Does
  Does-save c e s = allows.connects s c e

  pub Does-modify : (o : ℕ) (f : Fid → Fid) → Does (modify o f)
  unfolding Does
  Does-modify o f s = allows.objects s (update s.heap o f)

  pub Does-deref : (o : ℕ) → Does (deref o)
  Does-deref o = Does-at (λ s. object_or (get_elem? s.heap o)) (λ s. given (get_elem? s.heap o))
    where
      given : (f : Option Fid) → Does (object_or f)
      given none = Does-throw _ (plain [])
      given (some f) = Does-pure f

  pub Does-get_fid : (fid : ℕ) → Does (get_fid config cid fid)
  unfolding get_fid
  Does-get_fid fid = Does-conn _ (λ c e. given (find_fid c.fids fid))
    where
      given : (o : Option ℕ) → Does (fid_or_bad o)
      given none = Does-throw _ (p9err ebadf)
      given (some o) = Does-pure o

  Does-enter_fid :
      (c : Conn) (fid vfs : ℕ) (path : Str) → c.cid ≡ cid → Does (enter_fid c fid vfs path)
  unfolding Does
  Does-enter_fid c fid vfs path e s =
      let t = record s { heap = s.heap ++ (new_fid vfs path ∷ []) } in
      allows.then_ s t _ (allows.objects s t.heap)
        (allows.connects t (record c { fids = put_fid c.fids fid (length s.heap) }) e)

  pub Does-bind_fid : (fid vfs : ℕ) (path : Str) → Does (bind_fid config cid fid vfs path)
  unfolding bind_fid
  Does-bind_fid fid vfs path =
      Does-conn (λ c. enter_fid c fid vfs path) (λ c e. Does-enter_fid c fid vfs path e)

  pub Does-unbind_fid : (fid : ℕ) → Does (unbind_fid config cid fid)
  unfolding unbind_fid
  Does-unbind_fid fid =
      Does-conn (λ c. save_conn (record c { fids = drop_fid c.fids fid }))
        (λ c e. Does-save (record c { fids = drop_fid c.fids fid }) e)

  Does-interned : (inode : Str) → Does (qid_path_for inode)
  unfolding qid_path_for Does
  Does-interned inode s = given (find_qid s.qid_paths inode) refl
    where
      given : (o : Option ℕ) → find_qid s.qid_paths inode ≡ o → R s (interned inode o s).1
      given none e = allows.interns s inode e
      given (some v) e = allows.same s

  pub Does-qid_of : (r : VfsRecord) → Does (qid_of r)
  unfolding qid_of
  Does-qid_of r = Does-bind _ _ (Does-interned (inode_of r)) (λ path. Does-pure _)
