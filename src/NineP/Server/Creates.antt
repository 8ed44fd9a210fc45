-- ===== src/NineP/Server/Creates.antt =====
-- Tsetattr, Tlopen, Tlcreate, Tmkdir and Tsymlink of `dispatch` of runtime/ninep/server.ts.
use nix_wasm.Prelude.{ℕ, ◌/◌, ◌%◌, List, []}
use nix_wasm.Prelude.{Bool, true, false, Option, none, some, leb, ◌==◌, if◌then◌else◌}
use nix_wasm.Text.{Str}
use nix_wasm.NineP.Dirent.{Dirent}
use nix_wasm.NineP.Messages.Attributes.{Tsetattr}
use nix_wasm.NineP.Messages.Create.{Tlopen, Tlcreate, Tsymlink, Tmkdir}
use nix_wasm.NineP.Message.{Reply}
use nix_wasm.NineP.Server.{
  p9err, plain, M, ◌>>=◌, ◌>>◌, pure, try, RecordType, folder, alias, file, VfsRecord, alias_of,
  Vfs, Fid, Server, Config, join_name,
}
use nix_wasm.NineP.Server.Parts.{enoent, lift_result, get_fid, deref, modify, qid_of, on_store}
use nix_wasm.NineP.Server.Files.{
  stat, or_throw, read_bytes, write_bytes, close_writer, open_writer, load_dirents,
}
use nix_wasm.NineP.Server.Handlers.{is_folder, resized}

module _ {V : Type 0} (backend : ℕ → Vfs V) (config : Config) (cid : ℕ) where
  -- A file is resized as a whole; a folder, or what is gone, is left.
  abbrev pub resize : ℕ → Str → ℕ → Option VfsRecord → M (Server V) (Unit {0})
  resize vfs path size none = pure tt
  resize vfs path size (some r) =
      if is_folder r.rtype
      then pure tt
      else (do cur ← read_bytes backend vfs path; write_bytes backend vfs path (resized size cur))

  abbrev pub resize_whole : ℕ → ℕ → M (Server V) Reply
  resize_whole o size = do
    close_writer backend o
    f ← deref o
    found ← stat backend f.vfs f.path
    resize f.vfs f.path size found
    pure Reply.rsetattr

  abbrev pub resize_by : ℕ → Fid → ℕ → Option ℕ → M (Server V) Reply
  resize_by o f size none s = resize_whole o size s
  resize_by o f size (some w) s =
      if leb size ((backend f.vfs).writer_size w s.store)
      then (do on_store ((backend f.vfs).writer_truncate w size); pure Reply.rsetattr) s
      else resize_whole o size s

  unfoldable pub on_setattr : Tsetattr → M (Server V) Reply
  on_setattr m = do
    o ← get_fid config cid m.fid
    f ← deref o
    if m.valid / 8 % 2 == 1 then resize_by o f m.size f.writer else pure Reply.rsetattr

  -- Without a writer the file is emptied as a whole.
  abbrev pub emptied : ℕ → Str → Bool → M (Server V) (Unit {0})
  emptied vfs path true = pure tt
  emptied vfs path false = write_bytes backend vfs path []

  -- What opening a file does to it, whatever it throws.
  abbrev pub open_file : ℕ → Fid → Bool → M (Server V) (Unit {0})
  open_file o f true =
      try (do streaming ← open_writer backend o false; emptied f.vfs f.path streaming) (pure tt)
  open_file o f false = try (do streaming ← open_writer backend o true; pure tt) (pure tt)

  abbrev pub entries_of : Fid → RecordType → M (Server V) (Option (List Dirent))
  entries_of f folder = do ds ← load_dirents backend f.vfs f.path; pure (some ds)
  entries_of f alias = pure none
  entries_of f file = pure none

  unfoldable pub on_lopen : Tlopen → M (Server V) Reply
  on_lopen m = do
    o ← get_fid config cid m.fid
    f ← deref o
    found ← stat backend f.vfs f.path
    r ← or_throw backend (p9err enoent) found
    if is_folder r.rtype then pure tt else open_file o f (m.flags / 512 % 2 == 1)
    modify o (λ g. record g { opened = true })
    ds ← entries_of f r.rtype
    modify o (λ g. record g { dirents = ds })
    qid ← qid_of r
    pure (Reply.rlopen (record { qid = qid; iounit = 0 }))

  unfoldable pub on_lcreate : Tlcreate → M (Server V) Reply
  on_lcreate m = do
    o ← get_fid config cid m.fid
    f ← deref o
    path ← lift_result (join_name f.path m.name)
    close_writer backend o
    modify o (λ g. record g { path = path })
    streaming ← open_writer backend o false
    emptied f.vfs path streaming
    found ← stat backend f.vfs path
    modify o (λ g. record g { opened = true; dirents = none })
    r ← or_throw backend (plain []) found
    qid ← qid_of r
    pure (Reply.rlcreate (record { qid = qid; iounit = 0 }))

  unfoldable pub on_mkdir : Tmkdir → M (Server V) Reply
  on_mkdir m = do
    o ← get_fid config cid m.dfid
    f ← deref o
    path ← lift_result (join_name f.path m.name)
    on_store ((backend f.vfs).mkdir path)
    found ← stat backend f.vfs path
    r ← or_throw backend (plain []) found
    qid ← qid_of r
    pure (Reply.rmkdir (record { qid = qid }))

  unfoldable pub on_symlink : Tsymlink → M (Server V) Reply
  on_symlink m = do
    o ← get_fid config cid m.fid
    f ← deref o
    path ← lift_result (join_name f.path m.name)
    on_store ((backend f.vfs).write path (alias_of m.symtgt))
    found ← stat backend f.vfs path
    r ← or_throw backend (plain []) found
    qid ← qid_of r
    pure (Reply.rsymlink (record { qid = qid }))
