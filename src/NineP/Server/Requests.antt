-- ===== src/NineP/Server/Requests.antt =====
-- Every case of `dispatch` of runtime/ninep/server.ts makes only the changes that a relation allows.
use nix_wasm.Prelude.{ℕ, List}
use nix_wasm.Prelude.{true, Option, none, some, ◌==◌}
use nix_wasm.NineP.Dirent.{Dirent}
use nix_wasm.NineP.Messages.Session.{Tclunk, Tremove}
use nix_wasm.NineP.Messages.Names.{Trename, Treadlink, Trenameat, Tunlinkat}
use nix_wasm.NineP.Messages.Content.{Treaddir, Tfsync, Tread, Twrite}
use nix_wasm.NineP.Message.{Reply}
use nix_wasm.NineP.Server.{RecordType, folder, alias, file, VfsRecord, Fid, join_name, p9err}
use nix_wasm.NineP.Server.Handlers.{eisdir, einval, is_folder}
use nix_wasm.NineP.Server.Dispatch.{
  link_by, link_of, on_readlink, on_read, size_or_zero, reopen, write_whole, write_by, on_write,
  entries, on_readdir, on_clunk, on_remove, on_unlinkat, on_rename, on_renameat, flush_handle,
  on_fsync, reload,
}
use nix_wasm.NineP.Server.Steps.{
  Setting, Does, Does-pure, Does-throw, Does-result, Does-bind, Does-if, Does-store, Does-modify,
  Does-deref, Does-get_fid, Does-unbind_fid,
}
use nix_wasm.NineP.Server.Deeds.{
  Does-stat, Does-size_of, Does-read_bytes, Does-write_bytes, Does-close_writer,
  Does-close_conflicting_writer, Does-open_writer, Does-load_dirents,
}
use nix_wasm.NineP.Server.Opens.{Does-test, Does-fid, Does-record}

module _ {V : Type 0} (k : Setting V) where
  open k use {backend, config, cid, R, allows}

  Does-link_of : (r : Option VfsRecord) → Does k (link_of backend config cid r)
  Does-link_of none = Does-throw k _ (p9err einval)
  Does-link_of (some r) = by_type r.rtype
    where
      by_type : (t : RecordType) → Does k (link_by backend config cid r t)
      by_type folder = Does-throw k _ (p9err einval)
      by_type alias = Does-pure k _
      by_type file = Does-throw k _ (p9err einval)

  pub Does-on_readlink : (m : Treadlink) → Does k (on_readlink backend config cid m)
  unfolding on_readlink
  Does-on_readlink m =
      Does-fid k m.fid _
        (λ o f. Does-bind k _ _ (Does-stat k f.vfs f.path) (λ found. Does-link_of found))

  pub Does-on_read : (m : Tread) → Does k (on_read backend config cid m)
  unfolding on_read
  Does-on_read m = Does-fid k m.fid _ (λ o f. Does-record k _ f.vfs f.path _ (λ r.
      Does-if k (is_folder r.rtype) _ _ (Does-throw k _ (p9err eisdir))
        (Does-bind k _ _ (Does-read_bytes k f.vfs f.path) (λ bytes. Does-pure k _))))

  Does-reopen : (o offset : ℕ) (f : Fid) → Does k (reopen backend config cid o offset f)
  Does-reopen o offset f = Does-bind k _ _ (Does-stat k f.vfs f.path) (λ found.
      Does-bind k _ _ (sized found) (λ size.
        Does-if k (offset == size) _ _
          (Does-bind k _ _ (Does-open_writer k o true) (λ streaming. Does-pure k tt))
          (Does-pure k tt)))
    where
      sized : (r : Option VfsRecord) → Does k (size_or_zero backend config cid f.vfs r)
      sized none = Does-pure k 0
      sized (some r) = Does-size_of k f.vfs r

  Does-write_whole : (o : ℕ) (m : Twrite) → Does k (write_whole backend config cid o m)
  Does-write_whole o m = Does-bind k _ _ (Does-close_writer k o) (λ a.
      Does-bind k _ _ (Does-deref k o) (λ f.
        Does-bind k _ _ (Does-read_bytes k f.vfs f.path)
          (λ cur. Does-bind k _ _ (Does-write_bytes k f.vfs f.path _) (λ b. Does-pure k _))))

  Does-write_by :
      (o : ℕ) (m : Twrite) (f : Fid) (w : Option ℕ) → Does k (write_by backend config cid o m f w)
  Does-write_by o m f none = Does-write_whole o m
  Does-write_by o m f (some w) =
      Does-test k _ _ _
        (Does-bind k _ _ (Does-store k ((backend f.vfs).writer_write w m.payload))
          (λ a. Does-pure k _))
        (Does-write_whole o m)

  pub Does-on_write : (m : Twrite) → Does k (on_write backend config cid m)
  unfolding on_write
  Does-on_write m = Does-bind k _ _ (Does-get_fid k m.fid) (λ o.
      Does-bind k _ _ (Does-close_conflicting_writer k o) (λ a.
        Does-bind k _ _ (Does-deref k o) (λ f.
          Does-bind k _ _ (Does-if k _ _ _ (Does-reopen o m.offset f) (Does-pure k tt))
            (λ b. Does-bind k _ _ (Does-deref k o) (λ g. Does-write_by o m g g.writer)))))

  Does-reload : (o : ℕ) (f : Fid) → Does k (reload backend config cid o f)
  Does-reload o f = Does-bind k _ _ (Does-load_dirents k f.vfs f.path) (λ ds.
      Does-bind k _ _ (Does-modify k o (λ g. record g { dirents = some ds })) (λ a. Does-pure k ds))

  Does-entries :
      (o : ℕ) (f : Fid) (offset : ℕ) (ds : Option (List Dirent))
      → Does k (entries backend config cid o f offset ds)
  Does-entries o f offset none = Does-reload o f
  Does-entries o f offset (some ds) = Does-if k (offset == 0) _ _ (Does-reload o f) (Does-pure k ds)

  pub Does-on_readdir : (m : Treaddir) → Does k (on_readdir backend config cid m)
  unfolding on_readdir
  Does-on_readdir m =
      Does-fid k m.fid _
        (λ o f. Does-bind k _ _ (Does-entries o f m.offset f.dirents) (λ ds. Does-pure k _))

  pub Does-on_clunk : (m : Tclunk) → Does k (on_clunk backend config cid m)
  unfolding on_clunk
  Does-on_clunk m = Does-bind k _ _ (Does-get_fid k m.fid) (λ o.
      Does-bind k _ _ (Does-close_writer k o)
        (λ a. Does-bind k _ _ (Does-unbind_fid k m.fid) (λ b. Does-pure k _)))

  pub Does-on_remove : (m : Tremove) → Does k (on_remove backend config cid m)
  unfolding on_remove
  Does-on_remove m = Does-bind k _ _ (Does-get_fid k m.fid) (λ o.
      Does-bind k _ _ (Does-close_writer k o) (λ a. Does-bind k _ _ (Does-deref k o) (λ f.
        Does-bind k _ _ (Does-store k ((backend f.vfs).remove f.path))
          (λ b. Does-bind k _ _ (Does-unbind_fid k m.fid) (λ c. Does-pure k _)))))

  pub Does-on_unlinkat : (m : Tunlinkat) → Does k (on_unlinkat backend config cid m)
  unfolding on_unlinkat
  Does-on_unlinkat m = Does-fid k m.dirfid _ (λ o f.
      Does-bind k _ _ (Does-result k (join_name f.path m.name))
        (λ path. Does-bind k _ _ (Does-store k ((backend f.vfs).remove path)) (λ a. Does-pure k _)))

  pub Does-on_rename : (m : Trename) → Does k (on_rename backend config cid m)
  unfolding on_rename
  Does-on_rename m = Does-bind k _ _ (Does-get_fid k m.fid) (λ o. Does-fid k m.dfid _ (λ p d.
      Does-bind k _ _ (Does-result k (join_name d.path m.name)) (λ dst.
        Does-bind k _ _ (Does-close_writer k o) (λ a. Does-bind k _ _ (Does-deref k o) (λ f.
          Does-bind k _ _ (Does-store k ((backend f.vfs).move f.path dst)) (λ b.
            Does-bind k _ _ (Does-modify k o (λ g. record g { path = dst }))
              (λ c. Does-pure k Reply.rrename)))))))

  pub Does-on_renameat : (m : Trenameat) → Does k (on_renameat backend config cid m)
  unfolding on_renameat
  Does-on_renameat m = Does-bind k _ _ (Does-get_fid k m.olddirfid) (λ o.
      Does-bind k _ _ (Does-get_fid k m.newdirfid) (λ p. Does-bind k _ _ (Does-deref k o) (λ f.
        Does-bind k _ _ (Does-deref k p) (λ d.
          Does-bind k _ _ (Does-result k (join_name f.path m.oldname)) (λ src.
            Does-bind k _ _ (Does-result k (join_name d.path m.newname)) (λ dst.
              Does-bind k _ _ (Does-store k ((backend f.vfs).move src dst))
                (λ a. Does-pure k Reply.rrenameat)))))))

  pub Does-on_fsync : (m : Tfsync) → Does k (on_fsync backend config cid m)
  unfolding on_fsync
  Does-on_fsync m =
      Does-fid k m.fid _
        (λ o f. Does-bind k _ _ (flushed f.vfs f.writer) (λ a. Does-pure k Reply.rfsync))
    where
      flushed : (vfs : ℕ) (w : Option ℕ) → Does k (flush_handle backend config cid vfs w)
      flushed vfs none = Does-pure k tt
      flushed vfs (some w) = Does-store k ((backend vfs).writer_flush w)
