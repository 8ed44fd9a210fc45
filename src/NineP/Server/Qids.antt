-- ===== src/NineP/Server/Qids.antt =====
-- The numbers that runtime/ninep/server.ts gives to inodes, for the paths of its qids.
use nix_wasm.Prelude.{ℕ, List, [], ◌∷◌, ◌≡◌, refl, sym, ◌∙◌}
use nix_wasm.Prelude.{some, ◌/◌, ◌%◌, ◌^◌}
use mathlib.Core.Option.{Option, none, some, some-injective}
use nix_wasm.Prelude.{ap, ◌≡◌}
use mathlib.Core.Logic.{◌↔◌}
use nix_wasm.NineP.Writer.{Qid}
use nix_wasm.NineP.Server.{VfsRecord, Result, ok, and_then, pure, Vfs, Server, Config}
use nix_wasm.NineP.Server.Parts.{find_qid, inode_of, qtype_of, interned, qid_path_for, qid_of}
use nix_wasm.NineP.Server.Handle.{handle}
use nix_wasm.NineP.Server.Steps.{Allows}
use nix_wasm.NineP.Server.Frames.{handle_lem}
use nix_wasm.NineP.Server.Inodes.{
  Extends, Numbered, append-Numbered, find_qid-append_some, find_qid-last,
}

Keeps : {V : Type 0} → Server V → Server V → Type 0
Keeps s t =
    Numbered s.qid_paths s.qid_seq
    → Numbered t.qid_paths t.qid_seq × Extends s.qid_paths t.qid_paths

module _ {V : Type 0} (backend : ℕ → Vfs V) (config : Config) (cid : ℕ) where
  keeps : Allows {V = V} cid Keeps
  unfolding Keeps Extends
  keeps = record {
    same = λ s h. (h, λ i v p. p);
    then_ = λ s t u f g h. let k = f h in let l = g (k.0) in (l.0, λ i v p. l.1 i v (k.1 i v p));
    stores = λ s v h. (h, λ i w p. p);
    objects = λ s fs h. (h, λ i v p. p);
    owned = λ s os h. (h, λ i v p. p);
    sizes = λ s n h. (h, λ i v p. p);
    connects = λ s c e h. (h, λ i v p. p);
    interns = λ s inode e h. (
      append-Numbered s.qid_paths s.qid_seq inode h,
      λ i v p. find_qid-append_some s.qid_paths inode s.qid_seq i v p,
    );
  }

  handle-Numbered :
      (input : List ℕ) (s : Server V)
      → Numbered s.qid_paths s.qid_seq
      → let t = (handle backend config input cid s).1 in
        Numbered t.qid_paths t.qid_seq × Extends s.qid_paths t.qid_paths
  unfolding Keeps
  handle-Numbered input s h =
      handle_lem
        (record { backend = backend; config = config; cid = cid; R = Keeps; allows = keeps }) input
        s h

-- Frames of any connections, one behind the other: the state that they leave.
abbrev pub handle_all :
    {V : Type 0} → (ℕ → Vfs V) → Config → List (ℕ × List ℕ) → Server V → Server V
handle_all backend config [] s = s
handle_all backend config ((cid, input) ∷ frames) s =
    handle_all backend config frames (handle backend config input cid s).1

module _ {V : Type 0} where
  handle_all-Keeps :
      (backend : ℕ → Vfs V) (config : Config) (frames : List (ℕ × List ℕ)) (s : Server V)
      → Numbered s.qid_paths s.qid_seq
      → let t = handle_all backend config frames s in
        Numbered t.qid_paths t.qid_seq × Extends s.qid_paths t.qid_paths
  unfolding Extends
  handle_all-Keeps backend config [] s h = (h, λ i v p. p)
  handle_all-Keeps backend config ((cid, input) ∷ frames) s h =
      let k = handle-Numbered backend config cid input s h in
      let l = handle_all-Keeps backend config frames (handle backend config input cid s).1 (k.0) in
      (l.0, λ i v p. l.1 i v (k.1 i v p))

  -- A qid is served: its path is the number that its record's inode has from then on, and the numbers of the
  -- others stay.
  record Serves (r : VfsRecord) (s : Server V) (o : Result Qid × Server V) : Type 0 where
    qid : Qid
    returns : o.0 ≡ ok qid
    entered : find_qid o.1.qid_paths (inode_of r) ≡ some qid.path
    numbered : Numbered o.1.qid_paths o.1.qid_seq
    extends : Extends s.qid_paths o.1.qid_paths

  qid_of-Serves :
      (r : VfsRecord) (s : Server V) → Numbered s.qid_paths s.qid_seq → Serves r s (qid_of r s)
  unfolding qid_of qid_path_for Extends
  qid_of-Serves r s h = given (find_qid s.qid_paths (inode_of r)) refl
    where
      given :
          (o : Option ℕ)
          → find_qid s.qid_paths (inode_of r) ≡ o
          → Serves r s (
              and_then (interned (inode_of r) o s) (λ path. pure (record {
                qtype = qtype_of r.rtype;
                version = r.modified_at / 1000 % 2 ^ 32;
                path = path;
              })))
      given (some v) e = record {
        qid = record {
          qtype = qtype_of r.rtype;
          version = r.modified_at / 1000 % 2 ^ 32;
          path = v;
        };
        returns = refl;
        entered = e;
        numbered = h;
        extends = λ i w p. p;
      }
      given none e = record {
        qid = record {
          qtype = qtype_of r.rtype;
          version = r.modified_at / 1000 % 2 ^ 32;
          path = s.qid_seq;
        };
        returns = refl;
        entered = find_qid-last s.qid_paths (inode_of r) s.qid_seq e;
        numbered = append-Numbered s.qid_paths s.qid_seq (inode_of r) h;
        extends = λ i v p. find_qid-append_some s.qid_paths (inode_of r) s.qid_seq i v p;
      }

  -- From a state whose numbers lie below the next one and belong to one inode each, qidOf makes a qid for one
  -- record, then come any frames of any connections, whatever the backends do or throw, and it makes a qid
  -- for a second record: neither throws, and the two have the same path just when the records have the same
  -- inode. The condition holds again afterwards.
  pub qid_of-handle_all :
      (backend : ℕ → Vfs V) (config : Config) (frames : List (ℕ × List ℕ))
      (first second : VfsRecord) (s : Server V)
      → Numbered s.qid_paths s.qid_seq
      → let early = qid_of first s in
        let late = qid_of second (handle_all backend config frames early.1) in
        (p : Qid) × (q : Qid) × (early.0 ≡ ok p)
        × (late.0 ≡ ok q)
        × ((p.path ≡ q.path) ↔ (inode_of first ≡ inode_of second))
        × Numbered late.1.qid_paths late.1.qid_seq
  unfolding Numbered Extends
  qid_of-handle_all backend config frames first second s h =
      let a = qid_of-Serves first s h in
      let k = handle_all-Keeps backend config frames (qid_of first s).1 a.numbered in
      let t = handle_all backend config frames (qid_of first s).1 in
      let b = qid_of-Serves second t (k.0) in
      let kept : find_qid (qid_of second t).1.qid_paths (inode_of first) ≡ some a.qid.path =
        b.extends (inode_of first) a.qid.path (k.1 (inode_of first) a.qid.path a.entered) in
      (
        a.qid,
        b.qid,
        a.returns,
        b.returns,
        (
          (λ same.
              b.numbered.1 (inode_of first) (inode_of second) b.qid.path (kept ∙ ap some same)
                b.entered),
          (λ same.
              some-injective _ _
                (sym kept ∙ ap (find_qid (qid_of second t).1.qid_paths) same ∙ b.entered)),
        ),
        b.numbered,
      )
