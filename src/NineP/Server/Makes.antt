-- ===== src/NineP/Server/Makes.antt =====
-- Tsetattr, Tlopen, Tlcreate, Tmkdir and Tsymlink of runtime/ninep/server.ts make only allowed changes.
use nix_wasm.Prelude.{ℕ, ◌/◌, ◌%◌, []}
use nix_wasm.Prelude.{Bool, true, false, Option, none, some, ◌==◌}
use nix_wasm.Text.{Str}
use nix_wasm.NineP.Writer.{Qid}
use nix_wasm.NineP.Messages.Attributes.{Tsetattr}
use nix_wasm.NineP.Messages.Create.{Tlopen, Tlcreate, Tsymlink, Tmkdir}
use nix_wasm.NineP.Message.{Reply}
use nix_wasm.NineP.Server.{
  alias_of, Thrown, ◌>>=◌, pure, RecordType, folder, alias, file, VfsRecord, Fid, join_name, plain,
}
use nix_wasm.NineP.Server.Parts.{qid_of}
use nix_wasm.NineP.Server.Files.{or_throw}
use nix_wasm.NineP.Server.Handlers.{is_folder}
use nix_wasm.NineP.Server.Creates.{
  resize, resize_whole, resize_by, on_setattr, emptied, open_file, entries_of, on_lopen, on_lcreate,
  on_mkdir, on_symlink,
}
use nix_wasm.NineP.Server.Steps.{
  Setting, Does, Does-pure, Does-result, Does-bind, Does-try, Does-if, Does-store, Does-modify,
  Does-deref, Does-qid_of,
}
use nix_wasm.NineP.Server.Deeds.{
  Does-stat, Does-or_throw, Does-read_bytes, Does-write_bytes, Does-close_writer, Does-open_writer,
  Does-load_dirents,
}
use nix_wasm.NineP.Server.Opens.{Does-test, Does-fid, Does-record}

module _ {V : Type 0} (k : Setting V) where
  open k use {backend, config, cid, R, allows}

  Does-resize :
      (vfs : ℕ) (path : Str) (size : ℕ) (r : Option VfsRecord)
      → Does k (resize backend config cid vfs path size r)
  Does-resize vfs path size none = Does-pure k tt
  Does-resize vfs path size (some r) =
      Does-if k (is_folder r.rtype) _ _ (Does-pure k tt)
        (Does-bind k _ _ (Does-read_bytes k vfs path) (λ cur. Does-write_bytes k vfs path _))

  Does-resize_whole : (o size : ℕ) → Does k (resize_whole backend config cid o size)
  Does-resize_whole o size = Does-bind k _ _ (Does-close_writer k o) (λ a.
      Does-bind k _ _ (Does-deref k o) (λ f.
        Does-bind k _ _ (Does-stat k f.vfs f.path)
          (λ found. Does-bind k _ _ (Does-resize f.vfs f.path size found) (λ b. Does-pure k _))))

  Does-resize_by :
      (o : ℕ) (f : Fid) (size : ℕ) (w : Option ℕ) → Does k (resize_by backend config cid o f size w)
  Does-resize_by o f size none = Does-resize_whole o size
  Does-resize_by o f size (some w) =
      Does-test k _ _ _
        (Does-bind k _ _ (Does-store k ((backend f.vfs).writer_truncate w size))
          (λ a. Does-pure k _))
        (Does-resize_whole o size)

  pub Does-on_setattr : (m : Tsetattr) → Does k (on_setattr backend config cid m)
  unfolding on_setattr
  Does-on_setattr m = Does-fid k m.fid _ (λ o f.
      Does-if k (m.valid / 8 % 2 == 1) _ _ (Does-resize_by o f m.size f.writer) (Does-pure k _))

  Does-emptied : (vfs : ℕ) (path : Str) (b : Bool) → Does k (emptied backend config cid vfs path b)
  Does-emptied vfs path true = Does-pure k tt
  Does-emptied vfs path false = Does-write_bytes k vfs path []

  Does-open_file : (o : ℕ) (f : Fid) (b : Bool) → Does k (open_file backend config cid o f b)
  Does-open_file o f true =
      Does-try k _ _
        (Does-bind k _ _ (Does-open_writer k o false)
          (λ streaming. Does-emptied f.vfs f.path streaming))
        (Does-pure k tt)
  Does-open_file o f false =
      Does-try k _ _ (Does-bind k _ _ (Does-open_writer k o true) (λ streaming. Does-pure k tt))
        (Does-pure k tt)

  Does-entries_of : (f : Fid) (t : RecordType) → Does k (entries_of backend config cid f t)
  Does-entries_of f folder =
      Does-bind k _ _ (Does-load_dirents k f.vfs f.path) (λ ds. Does-pure k (some ds))
  Does-entries_of f alias = Does-pure k none
  Does-entries_of f file = Does-pure k none

  pub Does-on_lopen : (m : Tlopen) → Does k (on_lopen backend config cid m)
  unfolding on_lopen
  Does-on_lopen m = Does-fid k m.fid _ (λ o f. Does-record k _ f.vfs f.path _ (λ r.
      Does-bind k _ _
        (Does-if k (is_folder r.rtype) _ _ (Does-pure k tt)
          (Does-open_file o f (m.flags / 512 % 2 == 1)))
        (λ a. Does-bind k _ _ (Does-modify k o (λ g. record g { opened = true })) (λ b.
          Does-bind k _ _ (Does-entries_of f r.rtype) (λ ds.
            Does-bind k _ _ (Does-modify k o (λ g. record g { dirents = ds })) (λ c.
              Does-bind k _ _ (Does-qid_of k r)
                (λ qid. Does-pure k (Reply.rlopen (record { qid = qid; iounit = 0 })))))))))

  -- The qid of what was made, in a reply.
  Does-made :
      {A : Type 0} (e : Thrown) (found : Option VfsRecord) (f : Qid → A)
      → Does k (or_throw backend e found >>= (λ r. qid_of r >>= (λ qid. pure (f qid))))
  Does-made e found f =
      Does-bind k _ _ (Does-or_throw k e found)
        (λ r. Does-bind k _ _ (Does-qid_of k r) (λ qid. Does-pure k _))

  pub Does-on_lcreate : (m : Tlcreate) → Does k (on_lcreate backend config cid m)
  unfolding on_lcreate
  Does-on_lcreate m = Does-fid k m.fid _ (λ o f.
      Does-bind k _ _ (Does-result k (join_name f.path m.name)) (λ path.
        Does-bind k _ _ (Does-close_writer k o) (λ a.
          Does-bind k _ _ (Does-modify k o (λ g. record g { path = path })) (λ b.
            Does-bind k _ _ (Does-open_writer k o false) (λ streaming.
              Does-bind k _ _ (Does-emptied f.vfs path streaming) (λ c.
                Does-bind k _ _ (Does-stat k f.vfs path) (λ found.
                  Does-bind k _ _
                    (Does-modify k o (λ g. record g { opened = true; dirents = none }))
                    (λ d.
                      Does-made (plain []) found
                        (λ qid. Reply.rlcreate (record { qid = qid; iounit = 0 }))))))))))

  pub Does-on_mkdir : (m : Tmkdir) → Does k (on_mkdir backend config cid m)
  unfolding on_mkdir
  Does-on_mkdir m = Does-fid k m.dfid _ (λ o f.
      Does-bind k _ _ (Does-result k (join_name f.path m.name)) (λ path.
        Does-bind k _ _ (Does-store k ((backend f.vfs).mkdir path)) (λ a.
          Does-bind k _ _ (Does-stat k f.vfs path)
            (λ found. Does-made (plain []) found (λ qid. Reply.rmkdir (record { qid = qid }))))))

  pub Does-on_symlink : (m : Tsymlink) → Does k (on_symlink backend config cid m)
  unfolding on_symlink
  Does-on_symlink m = Does-fid k m.fid _ (λ o f.
      Does-bind k _ _ (Does-result k (join_name f.path m.name)) (λ path.
        Does-bind k _ _ (Does-store k ((backend f.vfs).write path (alias_of m.symtgt))) (λ a.
          Does-bind k _ _ (Does-stat k f.vfs path)
            (λ found. Does-made (plain []) found (λ qid. Reply.rsymlink (record { qid = qid }))))))
