-- ===== src/NineP/Server/Isolation.antt =====
-- What a frame of one connection leaves of the others in runtime/ninep/server.ts.
use nix_wasm.Prelude.{ℕ, List, [], ◌∷◌, ◌≡◌, refl, ◌∙◌}
use nix_wasm.Prelude.{◌==◌, Bool-cases, inl, inr, arith}
use nix_wasm.NineP.Server.{Vfs, Conn, Server, Config}
use nix_wasm.NineP.Server.Parts.{find_conn, set_conn}
use nix_wasm.NineP.Server.Handle.{handle}
use nix_wasm.NineP.Server.Steps.{Allows}
use nix_wasm.NineP.Server.Frames.{handle_lem}

find_conn-set_conn_other :
    (cs : List Conn) (c : Conn) (other : ℕ)
    → ¬ (other ≡ c.cid)
    → find_conn (set_conn cs c) other ≡ find_conn cs other
find_conn-set_conn_other [] c other h = ground (arith, h)
find_conn-set_conn_other (d ∷ ds) c other h = elim (Bool-cases (d.cid == c.cid)) [
  | inl e ↦ ground (arith, h, e)
  | inr e ↦ ground (arith, e, find_conn-set_conn_other ds c other h)
]

Unmoved : {V : Type 0} → ℕ → Server V → Server V → Type 0
Unmoved other s t = find_conn t.conns other ≡ find_conn s.conns other

module _ {V : Type 0} (backend : ℕ → Vfs V) (config : Config) (cid other : ℕ)
    (h : ¬ (other ≡ cid)) where
  unmoved : Allows {V = V} cid (Unmoved other)
  unfolding Unmoved
  unmoved = record {
    same = λ s. refl;
    then_ = λ s t u p q. q ∙ p;
    stores = λ s v. refl;
    objects = λ s h. refl;
    owned = λ s os. refl;
    sizes = λ s n. refl;
    connects = λ s c e. find_conn-set_conn_other s.conns c other (λ p. h (p ∙ e));
    interns = λ s inode e. refl;
  }

  pub handle-Unmoved :
      (input : List ℕ) (s : Server V)
      → find_conn ((handle backend config input cid s).1.conns) other ≡ find_conn s.conns other
  unfolding Unmoved
  handle-Unmoved input s =
      handle_lem
        (record {
          backend = backend;
          config = config;
          cid = cid;
          R = Unmoved other;
          allows = unmoved;
        })
        input s
