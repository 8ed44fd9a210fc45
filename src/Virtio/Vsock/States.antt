-- ===== src/Virtio/Vsock/States.antt =====
-- The states of a connection of runtime/virtio/vsock-device.ts as the guest's packets change them: which
-- pairs of ports are entered in the map.
use nix_wasm.Prelude.{ℕ, ◌^◌, arith, ◌%◌, List, ◌≡◌, refl, sym, ap, ap₂, subst, ◌≢◌, ◌∙◌, inl, inr}
use nix_wasm.Prelude.{Bool, true, false, Option, none, some, Bool-cases, length, drop}
use nix_wasm.Virtio.Machine.{and_then, Result, ok, fault, ◌>>◌}
use nix_wasm.Virtio.Vring.{Layout}
use nix_wasm.Virtio.Vsock.{
  header_len, Op, request, response, rst, shutdown, read_write, credit_update, credit_request,
  op_of, Header, decode_hdr, connected, Vsock,
}
use nix_wasm.Virtio.Vsock.Send.{
  log_event, lookup, insert, delete, is_some, has, tell_closed, forget, close_object,
  close_connection,
}
use nix_wasm.Virtio.Vsock.Protocol.{
  listens, requested, enter, send, accept, on_request, on_rw, on_conn, on_found, on_op,
  handle_tx_packet,
}
use nix_wasm.Virtio.Vsock.Closed.{send_rst-Closed, tell_closed-Closed}
use nix_wasm.Virtio.Vsock.Table.{lookup-insert, lookup-insert_other}
use nix_wasm.Virtio.Vsock.Leaves.{
  Leaves, Leaves-bind, Leaves-Closed, Leaves-log_event, Leaves-send, Leaves-rw, Leaves-response,
  Leaves-update,
}
use nix_wasm.Prelude.{◌≤◌, All, All-drop, ltb_of_le}
use nix_wasm.Prelude.Bytes.{IsByte, from_le-take}
use nix_wasm.Virtio.Vsock.Invariant.{Names, WellFormed}
use nix_wasm.Virtio.Vsock.Lifecycle.{
  accepted, refused, reset, shut, half_shut, not_shut, answered, carried, updated, asked, Steps,
  PortsFit, Step, both_bits, entered, gone-Steps, has-none, same-Steps, still_there,
}

module _ (vr : Option Layout) (h : Header) (fit : PortsFit h) (s : Vsock) (w : WellFormed s) where
  accept-conns : (accept vr h s).1.conns ≡ insert s.conns h.dst_port h.src_port (length s.heap)
  unfolding accept Leaves
  accept-conns =
      let rest =
        Leaves-bind (send vr (length s.heap) response)
          (λ u. log_event (connected h.dst_port (length s.heap)))
          (Leaves-send vr (length s.heap) response)
          (λ u. Leaves-log_event (connected h.dst_port (length s.heap))) in
      let host_is : h.dst_port % 2 ^ 32 ≡ h.dst_port = omega (arith, fit.host_fits) in
      let guest_is : h.src_port % 2 ^ 32 ≡ h.src_port = omega (arith, fit.guest_fits) in
      rest (enter (requested h) s).1
      ∙ ap₂ (λ a b. insert s.conns a b (length s.heap)) host_is guest_is

  on_request-Steps : Steps h request s (on_request vr h s)
  unfolding on_request Leaves
  on_request-Steps = elim (Bool-cases (listens s.listeners h.dst_port)) [
    | inl yes_ ↦ rw yes_ (record {
      now = true;
      step = accepted _ yes_;
      at_ports =
          ap (λ es. has es h.dst_port h.src_port) accept-conns
          ∙ ap is_some (lookup-insert h.dst_port h.src_port s.conns (length s.heap));
      elsewhere = λ host guest d.
          ap (λ es. lookup es host guest) accept-conns
          ∙ lookup-insert_other h.dst_port h.src_port s.conns (length s.heap) host guest d;
    })
    | inr no_ ↦ rw no_ (
        same-Steps h request s _ (refused _ no_)
          (send_rst-Closed (λ A m. Leaves m) Leaves-Closed vr h.dst_port h.src_port s))
  ]

  on_rw-Steps : (pkt : List ℕ) (found : Option ℕ) → Steps h read_write s (on_rw vr h pkt found s)
  unfolding on_rw Leaves
  on_rw-Steps pkt none =
      same-Steps h read_write s _ (carried _)
        (send_rst-Closed (λ A m. Leaves m) Leaves-Closed vr h.dst_port h.src_port s)
  on_rw-Steps pkt (some id) = same-Steps h read_write s _ (carried _) (Leaves-rw vr h pkt id s)

  -- The object of an entry is torn down.
  module _ (id : ℕ) (e : lookup s.conns h.dst_port h.src_port ≡ some id) where
    n : Names s.heap h.dst_port h.src_port id
    n = w.names h.dst_port h.src_port id e

    was : has s.conns n.object.host_port n.object.guest_port ≡ true
    was = ap₂ (has s.conns) n.host_is n.guest_is ∙ ap is_some e

    close_run :
        (told : Bool)
        → close_connection vr id told s ≡ (tell_closed vr n.object told >> forget id n.object) s
    unfolding close_connection close_object
    close_run told =
        rw
          (
            n.found,
            still_there n.object.is_open (has s.conns n.object.host_port n.object.guest_port) was,
          )
          refl

    reset-Steps : Steps h rst s (close_connection vr id false s)
    reset-Steps =
        rw (close_run false)
          (gone-Steps h rst s _ w (reset _) (ap₂ (delete s.conns) n.host_is n.guest_is))

    shut-Steps : both_bits h ≡ true → Steps h shutdown s (close_connection vr id true s)
    unfolding Leaves
    shut-Steps both = rw (close_run true) (
        told (tell_closed vr n.object true s)
          (tell_closed-Closed (λ A m. Leaves m) Leaves-Closed vr n.object true s))
      where
        told :
            (r : Result (Unit {0}) × Vsock)
            → r.1.conns ≡ s.conns
            → Steps h shutdown s (and_then r (λ u. forget id n.object))
        told (ok u, s') same = gone-Steps h shutdown s _ w (shut _ both refl) (
            ap₂ (delete s'.conns) n.host_is n.guest_is
            ∙ ap (λ es. delete es h.dst_port h.src_port) same)
        told (fault x, s') same = same-Steps h shutdown s (fault x, s') (not_shut _ refl) same

  no_entry : lookup s.conns h.dst_port h.src_port ≡ none → entered s h ≡ false
  no_entry e = has-none s.conns h.dst_port h.src_port e

  ignored-Steps :
      (op : Op)
      → Step (listens s.listeners h.dst_port) (both_bits h) false op (entered s h) (entered s h)
      → Steps h op s (ok tt, s)
  ignored-Steps op st = same-Steps h op s (ok tt, s) st refl

  on_conn-Steps :
      (op : Op) (id : ℕ)
      → lookup s.conns h.dst_port h.src_port ≡ some id
      → op ≢ request
      → op ≢ read_write
      → Steps h op s (on_conn vr h op id s)
  unfolding on_conn Leaves
  on_conn-Steps request id e r1 r2 = absurd (r1 refl)
  on_conn-Steps read_write id e r1 r2 = absurd (r2 refl)
  on_conn-Steps response id e r1 r2 =
      same-Steps h response s _ (answered _) (Leaves-response vr h id s)
  on_conn-Steps credit_update id e r1 r2 =
      same-Steps h credit_update s _ (updated _) (Leaves-update vr h id s)
  on_conn-Steps credit_request id e r1 r2 =
      same-Steps h credit_request s _ (asked _) (Leaves-send vr id credit_update s)
  on_conn-Steps rst id e r1 r2 = reset-Steps id e
  on_conn-Steps shutdown id e r1 r2 = elim (Bool-cases (both_bits h)) [
    | inl both ↦ rw both (shut-Steps id e both)
    | inr half ↦ rw half (ignored-Steps shutdown (half_shut _ half))
  ]

  on_found-Steps :
      (op : Op) (found : Option ℕ)
      → lookup s.conns h.dst_port h.src_port ≡ found
      → op ≢ request
      → op ≢ read_write
      → Steps h op s (on_found vr h op found s)
  on_found-Steps op (some id) e r1 r2 = on_conn-Steps op id e r1 r2
  on_found-Steps request none e r1 r2 = absurd (r1 refl)
  on_found-Steps read_write none e r1 r2 = absurd (r2 refl)
  on_found-Steps response none e r1 r2 = ignored-Steps response (answered _)
  on_found-Steps credit_update none e r1 r2 = ignored-Steps credit_update (updated _)
  on_found-Steps credit_request none e r1 r2 = ignored-Steps credit_request (asked _)
  on_found-Steps rst none e r1 r2 =
      ignored-Steps rst (subst (Step _ _ false rst (entered s h)) (sym (no_entry e)) (reset _))
  on_found-Steps shutdown none e r1 r2 = elim (Bool-cases (both_bits h)) [
    | inl both ↦
        ignored-Steps shutdown
          (subst (Step _ _ false shutdown (entered s h)) (sym (no_entry e)) (shut _ both refl))
    | inr half ↦ ignored-Steps shutdown (half_shut _ half)
  ]

  on_op-Steps :
      (pkt : List ℕ) (op : Op) (found : Option ℕ)
      → lookup s.conns h.dst_port h.src_port ≡ found
      → Steps h op s (on_op vr h pkt op found s)
  on_op-Steps pkt request found e = on_request-Steps
  on_op-Steps pkt read_write found e = on_rw-Steps pkt found
  on_op-Steps pkt response found e = on_found-Steps response found e (λ c. cc c) (λ c. cc c)
  on_op-Steps pkt rst found e = on_found-Steps rst found e (λ c. cc c) (λ c. cc c)
  on_op-Steps pkt shutdown found e = on_found-Steps shutdown found e (λ c. cc c) (λ c. cc c)
  on_op-Steps pkt credit_update found e =
      on_found-Steps credit_update found e (λ c. cc c) (λ c. cc c)
  on_op-Steps pkt credit_request found e =
      on_found-Steps credit_request found e (λ c. cc c) (λ c. cc c)

pub decode_hdr-PortsFit : (pkt : List ℕ) → All IsByte pkt → PortsFit (decode_hdr pkt)
unfolding decode_hdr
decode_hdr-PortsFit pkt bytes = record {
  host_fits = from_le-take 4 (drop 20 pkt) (All-drop IsByte 20 pkt bytes);
  guest_fits = from_le-take 4 (drop 16 pkt) (All-drop IsByte 16 pkt bytes);
}

-- A packet of bytes takes its connection a step of the states, and no other connection.
pub handle_tx_packet-Steps :
    (vr : Option Layout) (pkt : List ℕ) (op : Op) (s : Vsock)
    → WellFormed s
    → All IsByte pkt
    → header_len ≤ length pkt
    → op_of (decode_hdr pkt).op ≡ some op
    → Steps (decode_hdr pkt) op s (handle_tx_packet vr pkt s)
unfolding handle_tx_packet
handle_tx_packet-Steps vr pkt op s w bytes long e =
    rw (ltb_of_le (length pkt) header_len long, e)
      (on_op-Steps vr (decode_hdr pkt) (decode_hdr-PortsFit pkt bytes) s w pkt op _ refl)
