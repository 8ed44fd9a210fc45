-- ===== src/NineP/Server/Dispatch.antt =====
-- The rest of `dispatch` of runtime/ninep/server.ts, and `handle`.
use nix_wasm.Prelude.{ℕ, List}
use nix_wasm.Prelude.{
  Bool, true, false, not, ◌&&◌, Option, none, some, ◌==◌, if◌then◌else◌, length, take, drop,
}
use nix_wasm.NineP.Dirent.{Dirent}
use nix_wasm.NineP.Messages.Session.{Tclunk, Tremove}
use nix_wasm.NineP.Messages.Names.{Trename, Treadlink, Trenameat, Tunlinkat}
use nix_wasm.NineP.Messages.Content.{Treaddir, Tfsync, Tread, Twrite}
use nix_wasm.NineP.Message.{Reply}
use nix_wasm.NineP.Server.{
  p9err, M, ◌>>=◌, ◌>>◌, pure, throw, RecordType, folder, alias, file, VfsRecord, Vfs, Fid, Server,
  Config, join_name,
}
use nix_wasm.NineP.Server.Parts.{enoent, lift_result, get_fid, deref, modify, unbind_fid, on_store}
use nix_wasm.NineP.Server.Files.{
  stat, or_throw, size_of, read_bytes, write_bytes, close_writer, close_conflicting_writer,
  open_writer, load_dirents,
}
use nix_wasm.NineP.Server.Handlers.{eisdir, einval, is_folder, patched, packed_from}

module _ {V : Type 0} (backend : ℕ → Vfs V) (config : Config) (cid : ℕ) where
  abbrev pub link_by : VfsRecord → RecordType → M (Server V) Reply
  link_by r folder = throw (p9err einval)
  link_by r file = throw (p9err einval)
  link_by r alias = pure (Reply.rreadlink (record { target = r.target }))

  abbrev pub link_of : Option VfsRecord → M (Server V) Reply
  link_of none = throw (p9err einval)
  link_of (some r) = link_by r r.rtype

  unfoldable pub on_readlink : Treadlink → M (Server V) Reply
  on_readlink m = do
    o ← get_fid config cid m.fid
    f ← deref o
    found ← stat backend f.vfs f.path
    link_of found

  unfoldable pub on_read : Tread → M (Server V) Reply
  on_read m = do
    o ← get_fid config cid m.fid
    f ← deref o
    found ← stat backend f.vfs f.path
    r ← or_throw backend (p9err enoent) found
    if is_folder r.rtype then throw (p9err eisdir) else (do
      bytes ← read_bytes backend f.vfs f.path
      pure (Reply.rread (record { payload = take m.count (drop m.offset bytes) })))

  abbrev pub size_or_zero : ℕ → Option VfsRecord → M (Server V) ℕ
  size_or_zero vfs none = pure 0
  size_or_zero vfs (some r) = size_of backend vfs r

  -- A fid whose writer another closed gets one again where it goes on at the end.
  abbrev pub reopen : ℕ → ℕ → Fid → M (Server V) (Unit {0})
  reopen o offset f = do
    found ← stat backend f.vfs f.path
    size ← size_or_zero f.vfs found
    if offset == size then (do streaming ← open_writer backend o true; pure tt) else pure tt

  abbrev pub is_none : {A : Type 0} → Option A → Bool
  is_none none = true
  is_none (some a) = false

  abbrev pub write_whole : ℕ → Twrite → M (Server V) Reply
  write_whole o m = do
    close_writer backend o
    f ← deref o
    cur ← read_bytes backend f.vfs f.path
    write_bytes backend f.vfs f.path (patched cur m.offset m.payload)
    pure (Reply.rwrite (record { count = length m.payload }))

  abbrev pub write_by : ℕ → Twrite → Fid → Option ℕ → M (Server V) Reply
  write_by o m f none s = write_whole o m s
  write_by o m f (some w) s =
      if m.offset == (backend f.vfs).writer_size w s.store
      then (do
        on_store ((backend f.vfs).writer_write w m.payload)
        pure (Reply.rwrite (record { count = length m.payload })))
          s
      else write_whole o m s

  unfoldable pub on_write : Twrite → M (Server V) Reply
  on_write m = do
    o ← get_fid config cid m.fid
    close_conflicting_writer backend o
    f ← deref o
    if is_none f.writer && not (is_none (backend f.vfs).open_write)
        then reopen o m.offset f
        else pure tt
    g ← deref o
    write_by o m g g.writer

  abbrev pub reload : ℕ → Fid → M (Server V) (List Dirent)
  reload o f = do
    ds ← load_dirents backend f.vfs f.path
    modify o (λ g. record g { dirents = some ds })
    pure ds

  abbrev pub entries : ℕ → Fid → ℕ → Option (List Dirent) → M (Server V) (List Dirent)
  entries o f offset none = reload o f
  entries o f offset (some ds) = if offset == 0 then reload o f else pure ds

  unfoldable pub on_readdir : Treaddir → M (Server V) Reply
  unfolding packed_from
  on_readdir m = do
    o ← get_fid config cid m.fid
    f ← deref o
    ds ← entries o f m.offset f.dirents
    pure (Reply.rreaddir (record { payload = packed_from m.offset m.count 0 ds }))

  unfoldable pub on_clunk : Tclunk → M (Server V) Reply
  on_clunk m = do
    o ← get_fid config cid m.fid
    close_writer backend o
    unbind_fid config cid m.fid
    pure Reply.rclunk

  unfoldable pub on_remove : Tremove → M (Server V) Reply
  on_remove m = do
    o ← get_fid config cid m.fid
    close_writer backend o
    f ← deref o
    on_store ((backend f.vfs).remove f.path)
    unbind_fid config cid m.fid
    pure Reply.rremove

  unfoldable pub on_unlinkat : Tunlinkat → M (Server V) Reply
  on_unlinkat m = do
    o ← get_fid config cid m.dirfid
    f ← deref o
    path ← lift_result (join_name f.path m.name)
    on_store ((backend f.vfs).remove path)
    pure Reply.runlinkat

  unfoldable pub on_rename : Trename → M (Server V) Reply
  on_rename m = do
    o ← get_fid config cid m.fid
    p ← get_fid config cid m.dfid
    d ← deref p
    dst ← lift_result (join_name d.path m.name)
    close_writer backend o
    f ← deref o
    on_store ((backend f.vfs).move f.path dst)
    modify o (λ g. record g { path = dst })
    pure Reply.rrename

  unfoldable pub on_renameat : Trenameat → M (Server V) Reply
  on_renameat m = do
    o ← get_fid config cid m.olddirfid
    p ← get_fid config cid m.newdirfid
    f ← deref o
    d ← deref p
    src ← lift_result (join_name f.path m.oldname)
    dst ← lift_result (join_name d.path m.newname)
    on_store ((backend f.vfs).move src dst)
    pure Reply.rrenameat

  abbrev pub flush_handle : ℕ → Option ℕ → M (Server V) (Unit {0})
  flush_handle vfs none = pure tt
  flush_handle vfs (some w) = on_store ((backend vfs).writer_flush w)

  unfoldable pub on_fsync : Tfsync → M (Server V) Reply
  on_fsync m = do
    o ← get_fid config cid m.fid
    f ← deref o
    flush_handle f.vfs f.writer
    pure Reply.rfsync
