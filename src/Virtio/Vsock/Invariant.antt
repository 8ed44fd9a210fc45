-- ===== src/Virtio/Vsock/Invariant.antt =====
-- What holds of the connections of runtime/virtio/vsock-device.ts between two steps, and the steps that
-- keep it, a step that throws included.
use nix_wasm.Prelude.{
  ℕ, ◌+◌, ◌%◌, ◌^◌, List, [], ◌∷◌, ◌++◌, ◌≡◌, refl, sym, ap, ap₂, subst, ◌∙◌, inl, inr,
}
use nix_wasm.Prelude.{
  Bool, true, false, not, ◌&&◌, Option, none, some, if◌then◌else◌, eq_or_ne, get_elem?, arith,
}
use nix_wasm.Virtio.Machine.{and_then, M, Result, ok, fault, ◌>>=◌, ◌>>◌, pure}
use nix_wasm.Virtio.Vring.{Layout}
use nix_wasm.Virtio.Vsock.{Op, Conn, Event, Vsock}
use nix_wasm.Virtio.Vsock.Send.{
  update, modify, at_object, with_object, log_event, push_rx, lookup, delete, forget, tell_closed,
  close_object, close_connection, has,
}
use nix_wasm.Virtio.Vsock.Heap.{
  Quiet, push_rx-Quiet, get_elem?-update, get_elem?-update_other, get_elem?-update_inv,
  get_elem?-append,
}
use nix_wasm.Virtio.Vsock.Closed.{Closed, tell_closed-Closed}
use nix_wasm.Virtio.Vsock.Sent.{Counters}
use nix_wasm.Virtio.Vsock.Table.{
  Unique, same_or_Differ, lookup-delete, lookup-delete_other, delete-Unique,
}

-- An object of the heap that has these ports.
pub record Names (heap : List Conn) (host guest id : ℕ) : Type 0 where
  pub object : Conn
  pub found : get_elem? heap id ≡ some object
  pub host_is : object.host_port ≡ host
  pub guest_is : object.guest_port ≡ guest

-- Each entry of the map names an object with its ports, each pair of ports is entered once, and the
-- counters of every object are numbers of 32 bits.
pub record WellFormed (s : Vsock) : Type 0 where
  pub names : (host guest id : ℕ) → lookup s.conns host guest ≡ some id → Names s.heap host guest id
  pub unique : Unique s.conns
  pub counters : (id : ℕ) (c : Conn) → get_elem? s.heap id ≡ some c → Counters c

-- A step that keeps the invariant, whether it throws or not.
unfoldable pub Keeps : {A : Type 0} → M Vsock A → Type 0
Keeps m = (s : Vsock) → WellFormed s → WellFormed (m s).1

-- Another state with the same objects and the same map.
Quiet-WellFormed : (s s' : Vsock) → Quiet s s' → WellFormed s → WellFormed s'
Quiet-WellFormed s s' q w = record {
  names = λ host guest id e.
      let n = w.names host guest id (ap (λ es. lookup es host guest) (sym q.conns_same) ∙ e) in
      record {
        object = n.object;
        found = ap (λ heap. get_elem? heap id) q.heap_same ∙ n.found;
        host_is = n.host_is;
        guest_is = n.guest_is;
      };
  unique = subst Unique (sym q.conns_same) w.unique;
  counters = λ id c e. w.counters id c (ap (λ heap. get_elem? heap id) (sym q.heap_same) ∙ e);
}

-- A change of an object that leaves its ports, and its counters in 32 bits.
pub record Mild (f : Conn → Conn) : Type 0 where
  pub host_same : (c : Conn) → (f c).host_port ≡ c.host_port
  pub guest_same : (c : Conn) → (f c).guest_port ≡ c.guest_port
  pub counters_kept : (c : Conn) → Counters c → Counters (f c)

module _ (heap : List Conn) (id : ℕ) (f : Conn → Conn) (mild : Mild f) where
  update-Names :
      (host guest j : ℕ) → Names heap host guest j → Names (update heap id f) host guest j
  update-Names host guest j n = elim (eq_or_ne id j) [
    | inl e ↦ subst (Names (update heap id f) host guest) e (record {
      object = f n.object;
      found = get_elem?-update heap id f n.object (ap (get_elem? heap) e ∙ n.found);
      host_is = mild.host_same n.object ∙ n.host_is;
      guest_is = mild.guest_same n.object ∙ n.guest_is;
    })
    | inr apart ↦ record {
      object = n.object;
      found = get_elem?-update_other heap id j f apart ∙ n.found;
      host_is = n.host_is;
      guest_is = n.guest_is;
    }
  ]

  update-Counters :
      ((j : ℕ) (c : Conn) → get_elem? heap j ≡ some c → Counters c)
      → (j : ℕ) (c : Conn) → get_elem? (update heap id f) j ≡ some c
      → Counters c
  update-Counters h j c e = elim (eq_or_ne id j) [
    | inl same ↦
        let old = get_elem?-update_inv heap id f c (ap (get_elem? (update heap id f)) same ∙ e) in
        subst Counters old.2 (mild.counters_kept (old.0) (h id (old.0) old.1))
    | inr apart ↦ h j c (sym (get_elem?-update_other heap id j f apart) ∙ e)
  ]

-- An object behind the others.
pub grown-Names :
    (heap : List Conn) (c : Conn) (host guest id : ℕ)
    → Names heap host guest id
    → Names (heap ++ (c ∷ [])) host guest id
grown-Names heap c host guest id n = record {
  object = n.object;
  found = get_elem?-append heap (c ∷ []) id n.object n.found;
  host_is = n.host_is;
  guest_is = n.guest_is;
}

module _ {A : Type 0} where
  pub Keeps-pure : (a : A) → Keeps (pure a)
  unfolding Keeps
  Keeps-pure a s w = w

  pub Keeps-bind :
      {B : Type 0} (m : M Vsock A) (f : A → M Vsock B)
      → Keeps m
      → ((a : A) → Keeps (f a))
      → Keeps (m >>= f)
  unfolding Keeps
  Keeps-bind m f hm hf s w = then_ (m s) (hm s w)
    where
      then_ : (r : Result A × Vsock) → WellFormed r.1 → WellFormed (and_then r f).1
      then_ (ok a, s') w' = hf a s' w'
      then_ (fault e, s') w' = w'

  pub Keeps-with_object :
      (id : ℕ) (missing : A) (f : Conn → M Vsock A)
      → ((c : Conn) → Keeps (f c))
      → Keeps (with_object id missing f)
  unfolding Keeps
  Keeps-with_object id missing f h s w = at_it (get_elem? s.heap id)
    where
      at_it : (o : Option Conn) → WellFormed (at_object o missing f s).1
      at_it none = w
      at_it (some c) = h c s w

pub Keeps-modify : (id : ℕ) (f : Conn → Conn) → Mild f → Keeps (modify id f)
unfolding Keeps
Keeps-modify id f mild s w = record {
  names = λ host guest j e. update-Names s.heap id f mild host guest j (w.names host guest j e);
  unique = w.unique;
  counters = update-Counters s.heap id f mild w.counters;
}

pub Keeps-log_event : (e : Event) → Keeps (log_event e)
unfolding Keeps
Keeps-log_event e s w = record { names = w.names; unique = w.unique; counters = w.counters }

pub Keeps-push_rx :
    (vr : Option Layout) (src dst : ℕ) (op : Op) (payload : List ℕ) (flags fwd : ℕ)
    → Keeps (push_rx vr src dst op payload flags fwd)
unfolding Keeps
Keeps-push_rx vr src dst op payload flags fwd s w =
    Quiet-WellFormed s _ (push_rx-Quiet vr src dst op payload flags fwd s) w

advance-Mild :
    (n : ℕ) (pieces : List (List ℕ))
    → Mild (λ c. record c { tx_cnt = (c.tx_cnt + n) % 2 ^ 32; pending = pieces })
advance-Mild n pieces = record {
  host_same = λ c. refl;
  guest_same = λ c. refl;
  counters_kept = λ c v. record { window = v.window; consumed = v.consumed; counted = omega arith };
}

pub Keeps-Closed : Closed (λ A m. Keeps m)
Keeps-Closed = record {
  of_pure = λ a. Keeps-pure a;
  of_bind = λ m f. Keeps-bind m f;
  of_object = λ id missing f. Keeps-with_object id missing f;
  of_push = Keeps-push_rx;
  of_advance = λ id n pieces. Keeps-modify id _ (advance-Mild n pieces);
}

shut-Mild : Mild (λ c. record c { is_open = false; pending = [] })
shut-Mild = record {
  host_same = λ c. refl;
  guest_same = λ c. refl;
  counters_kept = λ c v. record { window = v.window; consumed = v.consumed; counted = v.counted };
}

none-some : {A : Type 0} {a : A} → none ≡ some a → ⊥
none-some h = cc h

pub Keeps-forget : (id : ℕ) (c : Conn) → Keeps (forget id c)
unfolding Keeps
Keeps-forget id c s w = record {
  names = λ host guest j e.
      update-Names s.heap id _ shut-Mild host guest j (w.names host guest j (kept host guest j e));
  unique = delete-Unique c.host_port c.guest_port s.conns w.unique;
  counters = update-Counters s.heap id _ shut-Mild w.counters;
}
  where
    kept :
        (host guest j : ℕ)
        → lookup (delete s.conns c.host_port c.guest_port) host guest ≡ some j
        → lookup s.conns host guest ≡ some j
    kept host guest j e = elim (same_or_Differ c.host_port c.guest_port host guest) [
      | inl same ↦
          let gone = lookup-delete c.host_port c.guest_port s.conns w.unique in
          absurd (
            none-some
              (sym gone ∙ ap₂ (lookup (delete s.conns c.host_port c.guest_port)) same.0 same.1 ∙ e))
      | inr d ↦ sym (lookup-delete_other c.host_port c.guest_port s.conns host guest d) ∙ e
    ]

module _ (vr : Option Layout) where
  close_object-Keeps : (id : ℕ) (told : Bool) (c : Conn) → Keeps (close_object vr id told c)
  unfolding close_object Keeps
  close_object-Keeps id told c s w =
      guarded (not c.is_open && not (has s.conns c.host_port c.guest_port))
    where
      guarded :
          (b : Bool)
          → WellFormed ((if b then (ok tt, s) else (tell_closed vr c told >> forget id c) s).1)
      guarded true = w
      guarded false =
          Keeps-bind (tell_closed vr c told) (λ u. forget id c)
            (tell_closed-Closed (λ A m. Keeps m) Keeps-Closed vr c told) (λ u. Keeps-forget id c) s
            w

  pub close_connection-Keeps : (id : ℕ) (told : Bool) → Keeps (close_connection vr id told)
  unfolding close_connection
  close_connection-Keeps id told = Keeps-with_object id tt _ (close_object-Keeps id told)
