-- ===== src/Virtio/Vsock/Leaves.antt =====
-- The steps of runtime/virtio/vsock-device.ts that leave the map of the connections alone.
use nix_wasm.Prelude.{ℕ, List, ◌≡◌, refl, ◌∙◌}
use nix_wasm.Prelude.{true, Option, none, some, take, drop, get_elem?}
use nix_wasm.Virtio.Machine.{and_then, M, Result, ok, fault, ◌>>=◌, pure}
use nix_wasm.Virtio.Vring.{Layout}
use nix_wasm.Virtio.Vsock.{
  header_len, Op, response, credit_update, Header, Conn, Event, received, Vsock,
}
use nix_wasm.Virtio.Vsock.Send.{modify, at_object, with_object, log_event}
use nix_wasm.Virtio.Vsock.Protocol.{flush, send, deliver, on_rw, on_conn}
use nix_wasm.Virtio.Vsock.Heap.{push_rx-Quiet}
use nix_wasm.Virtio.Vsock.Closed.{Closed, send_ctl-Closed, flush_connection-Closed}

-- A step that leaves the map alone.
unfoldable pub Leaves : {A : Type 0} → M Vsock A → Type 0
Leaves m = (s : Vsock) → (m s).1.conns ≡ s.conns

module _ {A : Type 0} where
  pub Leaves-bind :
      {B : Type 0} (m : M Vsock A) (f : A → M Vsock B)
      → Leaves m
      → ((a : A) → Leaves (f a))
      → Leaves (m >>= f)
  unfolding Leaves
  Leaves-bind m f hm hf s = then_ (m s) (hm s)
    where
      then_ : (r : Result A × Vsock) → r.1.conns ≡ s.conns → (and_then r f).1.conns ≡ s.conns
      then_ (ok a, s') e = hf a s' ∙ e
      then_ (fault x, s') e = e

  pub Leaves-pure : (a : A) → Leaves (pure a)
  unfolding Leaves
  Leaves-pure a s = refl

  pub Leaves-object :
      (id : ℕ) (missing : A) (f : Conn → M Vsock A)
      → ((c : Conn) → Leaves (f c))
      → Leaves (with_object id missing f)
  unfolding Leaves
  Leaves-object id missing f h s = at_it (get_elem? s.heap id)
    where
      at_it : (o : Option Conn) → (at_object o missing f s).1.conns ≡ s.conns
      at_it none = refl
      at_it (some c) = h c s

pub Leaves-modify : (id : ℕ) (f : Conn → Conn) → Leaves (modify id f)
unfolding Leaves
Leaves-modify id f s = refl

pub Leaves-Closed : Closed (λ A m. Leaves m)
unfolding Leaves
Leaves-Closed = record {
  of_pure = λ a. Leaves-pure a;
  of_bind = λ m f. Leaves-bind m f;
  of_object = λ id missing f. Leaves-object id missing f;
  of_push = λ vr src dst op payload flags fwd s.
      (push_rx-Quiet vr src dst op payload flags fwd s).conns_same;
  of_advance = λ id n pieces s. refl;
}

pub Leaves-log_event : (e : Event) → Leaves (log_event e)
unfolding Leaves
Leaves-log_event e s = refl

module _ (vr : Option Layout) where
  pub Leaves-flush : (id : ℕ) → Leaves (flush vr id)
  Leaves-flush id =
      Leaves-bind _ _ (flush_connection-Closed (λ A m. Leaves m) Leaves-Closed vr id)
        (λ b. Leaves-pure tt)

  pub Leaves-send : (id : ℕ) (op : Op) → Leaves (send vr id op)
  Leaves-send id op = Leaves-object id tt _ (λ c.
      Leaves-bind _ _ (send_ctl-Closed (λ A m. Leaves m) Leaves-Closed vr c op 0)
        (λ b. Leaves-pure tt))

  pub Leaves-deliver : (id : ℕ) (payload : List ℕ) → Leaves (deliver id payload)
  Leaves-deliver id payload =
      Leaves-bind _ _ (Leaves-modify id _) (λ u. Leaves-log_event (received id payload))

  pub Leaves-rw : (h : Header) (pkt : List ℕ) (id : ℕ) → Leaves (on_rw vr h pkt (some id))
  unfolding on_rw
  Leaves-rw h pkt id = Leaves-bind _ _ (Leaves-modify id _) (λ a.
      Leaves-bind _ _ (Leaves-deliver id (take h.len (drop header_len pkt)))
        (λ b. Leaves-bind _ _ (Leaves-send id credit_update) (λ c. Leaves-flush id)))

  pub Leaves-response : (h : Header) (id : ℕ) → Leaves (on_conn vr h response id)
  unfolding on_conn
  Leaves-response h id = Leaves-bind _ _ (Leaves-modify id _) (λ a.
      Leaves-bind _ _ (Leaves-modify id (λ c. record c { is_open = true })) (λ b. Leaves-flush id))

  pub Leaves-update : (h : Header) (id : ℕ) → Leaves (on_conn vr h credit_update id)
  unfolding on_conn
  Leaves-update h id = Leaves-bind _ _ (Leaves-modify id _) (λ a. Leaves-flush id)
