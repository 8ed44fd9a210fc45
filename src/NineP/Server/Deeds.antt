-- ===== src/NineP/Server/Deeds.antt =====
-- What the whole files, deferred writers and directories of runtime/ninep/server.ts change is allowed.
use nix_wasm.Prelude.{ℕ, ◌+◌, List, [], ◌∷◌}
use nix_wasm.Prelude.{Bool, true, false, Option, none, some, ◌==◌}
use nix_wasm.Text.{Str}
use nix_wasm.NineP.Server.{
  Thrown, M, pure, RecordType, folder, alias, file, VfsRecord, Fid, parent_of,
}
use nix_wasm.NineP.Server.Parts.{find_owner}
use nix_wasm.NineP.Server.Files.{
  stat, or_throw, size_known, size_by, size_of, read_bytes, write_bytes, disown, close_handle,
  close_writer, close_other, close_conflicting_writer, own, open_by, open_writer, dirents_of, named,
  or_self, load_dirents,
}
-- What is to be shown of a relation, for the requests of one connection.
use nix_wasm.NineP.Server.Steps.{
  Setting, Does, Does-pure, Does-throw, Does-bind, Does-try, Does-if, Does-at, Does-store,
  Does-modify, Does-deref, Does-qid_of,
}

module _ {V : Type 0} (k : Setting V) where
  open k use {backend, config, cid, R, allows}

  pub Does-stat : (vfs : ℕ) (path : Str) → Does k (stat backend vfs path)
  Does-stat vfs path = Does-store k _

  pub Does-or_throw : (e : Thrown) (o : Option VfsRecord) → Does k (or_throw backend e o)
  Does-or_throw e none = Does-throw k _ e
  Does-or_throw e (some r) = Does-pure k r

  pub Does-size_of : (vfs : ℕ) (r : VfsRecord) → Does k (size_of backend vfs r)
  unfolding size_of
  Does-size_of vfs r = by_type r.rtype
    where
      known : (o : Option ℕ) → Does k (size_known backend vfs r o)
      known (some n) = Does-pure k n
      known none =
          Does-try k _ _ (Does-bind k _ _ (Does-store k _) (λ blob. Does-pure k _)) (Does-pure k 0)

      by_type : (t : RecordType) → Does k (size_by backend vfs r t)
      by_type folder = Does-pure k 0
      by_type alias = Does-pure k _
      by_type file = known r.size

  pub Does-read_bytes : (vfs : ℕ) (path : Str) → Does k (read_bytes backend vfs path)
  unfolding read_bytes
  Does-read_bytes vfs path = Does-try k _ _ (Does-store k _) (Does-pure k [])

  pub Does-write_bytes :
      (vfs : ℕ) (path : Str) (bytes : List ℕ) → Does k (write_bytes backend vfs path bytes)
  unfolding write_bytes
  Does-write_bytes vfs path bytes = Does-store k _

  Does-disown : (o : ℕ) (f : Fid) (path : Option Str) → Does k (disown backend o f path)
  unfolding Does
  Does-disown o f none s = allows.same s
  Does-disown o f (some path) s = allows.owned s _

  pub Does-close_writer : (o : ℕ) → Does k (close_writer backend o)
  unfolding close_writer
  Does-close_writer o = Does-bind k _ _ (Does-deref k o) (λ f.
      Does-bind k _ _ (Does-modify k o _)
        (λ a. Does-bind k _ _ (Does-disown o f f.writer_path) (λ b. closed f.vfs f.writer)))
    where
      closed : (vfs : ℕ) (w : Option ℕ) → Does k (close_handle backend vfs w)
      closed vfs none = Does-pure k tt
      closed vfs (some w) = Does-store k _

  pub Does-close_conflicting_writer : (o : ℕ) → Does k (close_conflicting_writer backend o)
  unfolding close_conflicting_writer
  Does-close_conflicting_writer o = Does-bind k _ _ (Does-deref k o) (λ f.
      Does-at k (λ s. close_other backend o (find_owner s.owners f.vfs f.path))
        (λ s. other (find_owner s.owners f.vfs f.path)))
    where
      other : (p : Option ℕ) → Does k (close_other backend o p)
      other none = Does-pure k tt
      other (some p) = Does-if k (p == o) (pure tt) _ (Does-pure k tt) (Does-close_writer p)

  Does-own : (o : ℕ) (f : Fid) → Does k (own backend o f)
  unfolding Does
  Does-own o f s = allows.owned s _

  pub Does-open_writer : (o : ℕ) (append : Bool) → Does k (open_writer backend o append)
  unfolding open_writer
  Does-open_writer o append =
      Does-bind k _ _ (Does-deref k o) (λ f. by_writers (backend f.vfs).open_write)
    where
      by_writers : (w : Option (Str → Bool → M V ℕ)) → Does k (open_by backend w o append)
      by_writers none = Does-pure k false
      by_writers (some open_write) = Does-bind k _ _ (Does-close_conflicting_writer o) (λ a.
          Does-bind k _ _ (Does-close_writer o) (λ b. Does-bind k _ _ (Does-deref k o) (λ f.
            Does-bind k _ _ (Does-store k (open_write f.path append)) (λ w.
              Does-bind k _ _
                (Does-modify k o (λ g. record g { writer = some w; writer_path = some g.path }))
                (λ c. Does-bind k _ _ (Does-own o f) (λ d. Does-pure k true))))))

  Does-dirents_of :
      (i : ℕ) (entries : List (Str × VfsRecord)) → Does k (dirents_of backend i entries)
  Does-dirents_of i [] = Does-pure k []
  Does-dirents_of i ((name, r) ∷ entries) =
      Does-bind k _ _ (Does-qid_of k r)
        (λ qid. Does-bind k _ _ (Does-dirents_of (i + 1) entries) (λ rest. Does-pure k _))

  pub Does-load_dirents : (vfs : ℕ) (path : Str) → Does k (load_dirents backend vfs path)
  unfolding load_dirents
  Does-load_dirents vfs path = Does-bind k _ _ (Does-stat vfs path) (λ found.
      Does-bind k _ _ (Does-or_throw _ found) (λ self.
        Does-bind k _ _ (Does-stat vfs (parent_of path)) (λ parent.
          Does-bind k _ _ (Does-store k ((backend vfs).list path)) (λ kids.
            Does-dirents_of 0 (
              (46 ∷ [], self)
              ∷ (46 ∷ 46 ∷ [], or_self backend self parent)
              ∷ named backend kids)))))
