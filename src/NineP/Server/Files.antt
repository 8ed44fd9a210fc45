-- ===== src/NineP/Server/Files.antt =====
-- Files, deferred writers and directories of runtime/ninep/server.ts, over its backends.
use nix_wasm.Prelude.{ℕ, ◌+◌, List, [], ◌∷◌}
use nix_wasm.Prelude.{Bool, true, false, Option, none, some, ◌==◌, if◌then◌else◌, length}
use nix_wasm.Text.{Str, utf8_encode}
use nix_wasm.NineP.Dirent.{Dirent}
use nix_wasm.NineP.Server.{
  Thrown, p9err, ok, M, ◌>>=◌, ◌>>◌, pure, throw, try, RecordType, folder, alias, file, VfsRecord,
  file_of, Vfs, Fid, Owner, Server, parent_of,
}
use nix_wasm.NineP.Server.Parts.{
  enoent, find_owner, drop_owner, put_owner, on_store, deref, modify, qid_of, dtype_of,
}

abbrev pub disowned : List Owner → ℕ → Str → ℕ → List Owner
disowned owners vfs path o = elim (find_owner owners vfs path) [
  | none ↦ owners
  | some p ↦ if p == o then drop_owner owners vfs path else owners
]

module _ {V : Type 0} (backend : ℕ → Vfs V) where
  abbrev pub stat : ℕ → Str → M (Server V) (Option VfsRecord)
  stat vfs path = on_store ((backend vfs).stat path)

  -- The record of a path that must have one.
  abbrev pub or_throw : Thrown → Option VfsRecord → M (Server V) VfsRecord
  or_throw e none = throw e
  or_throw e (some r) = pure r

  -- `sizeOf`
  abbrev pub size_known : ℕ → VfsRecord → Option ℕ → M (Server V) ℕ
  size_known vfs r (some n) = pure n
  size_known vfs r none =
      try (do blob ← on_store ((backend vfs).read_blob r.path); pure (length blob)) (pure 0)

  abbrev pub size_by : ℕ → VfsRecord → RecordType → M (Server V) ℕ
  size_by vfs r folder = pure 0
  size_by vfs r alias = pure (length (utf8_encode r.target))
  size_by vfs r file = size_known vfs r r.size

  unfoldable pub size_of : ℕ → VfsRecord → M (Server V) ℕ
  size_of vfs r = size_by vfs r r.rtype

  unfoldable pub read_bytes : ℕ → Str → M (Server V) (List ℕ)
  read_bytes vfs path = try (on_store ((backend vfs).read_blob path)) (pure [])

  unfoldable pub write_bytes : ℕ → Str → List ℕ → M (Server V) (Unit {0})
  write_bytes vfs path bytes = on_store ((backend vfs).write path (file_of bytes))

  -- `if (owners.get(path) === f) owners.delete(path)`
  abbrev pub disown : ℕ → Fid → Option Str → M (Server V) (Unit {0})
  disown o f none s = (ok tt, s)
  disown o f (some path) s = (ok tt, record s { owners = disowned s.owners f.vfs path o })

  abbrev pub close_handle : ℕ → Option ℕ → M (Server V) (Unit {0})
  close_handle vfs none = pure tt
  close_handle vfs (some w) = on_store ((backend vfs).writer_close w)

  -- `closeWriter`
  unfoldable pub close_writer : ℕ → M (Server V) (Unit {0})
  close_writer o = do
    f ← deref o
    modify o (λ g. record g { writer = none; writer_path = none })
    disown o f f.writer_path
    close_handle f.vfs f.writer

  abbrev pub close_other : ℕ → Option ℕ → M (Server V) (Unit {0})
  close_other o none = pure tt
  close_other o (some p) = if p == o then pure tt else close_writer p

  unfoldable pub close_conflicting_writer : ℕ → M (Server V) (Unit {0})
  unfolding close_writer
  close_conflicting_writer o = do
    f ← deref o
    λ s. close_other o (find_owner s.owners f.vfs f.path) s

  abbrev pub own : ℕ → Fid → M (Server V) (Unit {0})
  own o f s = (ok tt, record s { owners = put_owner s.owners f.vfs f.path o })

  -- `openWriter`: whether the backend has writers.
  abbrev pub open_by : Option (Str → Bool → M V ℕ) → ℕ → Bool → M (Server V) Bool
  open_by none o append = pure false
  open_by (some open_write) o append = do
    close_conflicting_writer o
    close_writer o
    f ← deref o
    w ← on_store (open_write f.path append)
    modify o (λ g. record g { writer = some w; writer_path = some g.path })
    own o f
    pure true

  unfoldable pub open_writer : ℕ → Bool → M (Server V) Bool
  unfolding close_conflicting_writer close_writer
  open_writer o append = do f ← deref o; open_by (backend f.vfs).open_write o append

  -- The entries of a directory, the cookie of each being its place, from 1 on.
  abbrev pub dirents_of : ℕ → List (Str × VfsRecord) → M (Server V) (List Dirent)
  dirents_of i [] = pure []
  dirents_of i ((name, r) ∷ entries) = do
    qid ← qid_of r
    rest ← dirents_of (i + 1) entries
    pure (record { qid = qid; offset = i + 1; dtype = dtype_of r.rtype; name = name } ∷ rest)

  abbrev pub named : List VfsRecord → List (Str × VfsRecord)
  named [] = []
  named (r ∷ rs) = (r.name, r) ∷ named rs

  abbrev pub or_self : VfsRecord → Option VfsRecord → VfsRecord
  or_self r none = r
  or_self r (some parent) = parent

  unfoldable pub load_dirents : ℕ → Str → M (Server V) (List Dirent)
  load_dirents vfs path = do
    found ← stat vfs path
    self ← or_throw (p9err enoent) found
    parent ← stat vfs (parent_of path)
    kids ← on_store ((backend vfs).list path)
    dirents_of 0 ((46 ∷ [], self) ∷ (46 ∷ 46 ∷ [], or_self self parent) ∷ named kids)
