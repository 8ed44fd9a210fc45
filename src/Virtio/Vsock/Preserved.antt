-- ===== src/Virtio/Vsock/Preserved.antt =====
-- The guest's packets and the host's calls of runtime/virtio/vsock-device.ts keep the invariant of the
-- connections, whatever they throw.
use nix_wasm.Prelude.{
  ℕ, ◌+◌, ◌%◌, ◌^◌, ◌<◌, List, [], ◌∷◌, ◌++◌, ◌≡◌, refl, sym, ap₂, subst, ◌∙◌, inl, inr,
}
use nix_wasm.Prelude.{
  Bool, true, false, Option, none, some, if◌then◌else◌, length, take, drop, arith, All, All-drop,
}
use mathlib.Core.Option.{some-injective}
use nix_wasm.Prelude.Bytes.{IsByte, from_le-take}
use nix_wasm.Virtio.Machine.{◌>>=◌, ◌>>◌, pure}
use nix_wasm.Virtio.Vring.{Layout}
use nix_wasm.Virtio.Vsock.{
  header_len, host_buf_alloc, Op, request, response, rst, shutdown, read_write, credit_update,
  credit_request, op_of, Header, decode_hdr, Conn, new_conn, connected, received, Vsock,
}
use nix_wasm.Virtio.Vsock.Send.{send_rst, lookup, insert}
use nix_wasm.Virtio.Vsock.Protocol.{
  listens, enter, flush, send, deliver, accept, on_request, on_rw, on_conn, on_found, on_op,
  dispatch, handle_tx_packet, write, close, connect,
}
use nix_wasm.Virtio.Vsock.Heap.{get_elem?-last, get_elem?-append_inv}
use nix_wasm.Virtio.Vsock.Closed.{
  if-Closed, send_ctl-Closed, send_rst-Closed, flush_connection-Closed,
}
use nix_wasm.Virtio.Vsock.Sent.{Counters}
use nix_wasm.Virtio.Vsock.Table.{same_or_Differ, lookup-insert, lookup-insert_other, insert-Unique}
use nix_wasm.Virtio.Vsock.Invariant.{
  Names, WellFormed, Keeps, Mild, grown-Names, Keeps-Closed, Keeps-pure, Keeps-bind,
  Keeps-with_object, Keeps-modify, Keeps-log_event, close_connection-Keeps,
}

-- The guest's window and counter in a packet.
pub record Credit (h : Header) : Type 0 where
  pub window : h.buf_alloc < 2 ^ 32
  pub consumed : h.fwd_cnt < 2 ^ 32

pub decode_hdr-Credit : (pkt : List ℕ) → All IsByte pkt → Credit (decode_hdr pkt)
unfolding decode_hdr
decode_hdr-Credit pkt bytes = record {
  window = from_le-take 4 (drop 36 pkt) (All-drop IsByte 36 pkt bytes);
  consumed = from_le-take 4 (drop 40 pkt) (All-drop IsByte 40 pkt bytes);
}

enter-Keeps : (c : Conn) → Counters c → Keeps (enter c)
unfolding Keeps
enter-Keeps c v s w = record {
  names = λ host guest id e. elim (same_or_Differ c.host_port c.guest_port host guest) [
    | inl same ↦
        let here = lookup-insert c.host_port c.guest_port s.conns (length s.heap) in
        let id_is : length s.heap ≡ id = some-injective _ _ (
          sym here
          ∙ ap₂ (lookup (insert s.conns c.host_port c.guest_port (length s.heap))) same.0 same.1
          ∙ e) in
        subst (Names (s.heap ++ (c ∷ [])) host guest) id_is (record {
          object = c;
          found = get_elem?-last s.heap c;
          host_is = same.0;
          guest_is = same.1;
        })
    | inr d ↦ grown-Names s.heap c host guest id (
        w.names host guest id (
          sym (lookup-insert_other c.host_port c.guest_port s.conns (length s.heap) host guest d)
          ∙ e))
  ];
  unique = insert-Unique c.host_port c.guest_port s.conns (length s.heap) w.unique;
  counters = λ id c' e. elim (get_elem?-append_inv s.heap c c' id e) [
    | inl old ↦ w.counters id c' old
    | inr same ↦ subst Counters same v
  ];
}

Credit-Mild :
    (h : Header)
    → Credit h
    → Mild (λ c. record c { peer_buf_alloc = h.buf_alloc; peer_fwd_cnt = h.fwd_cnt })
Credit-Mild h v = record {
  host_same = λ c. refl;
  guest_same = λ c. refl;
  counters_kept = λ c v'. record { window = v.window; consumed = v.consumed; counted = v'.counted };
}

open-Mild : Mild (λ c. record c { is_open = true })
open-Mild = record {
  host_same = λ c. refl;
  guest_same = λ c. refl;
  counters_kept = λ c v. record { window = v.window; consumed = v.consumed; counted = v.counted };
}

deliver-Mild : (n : ℕ) → Mild (λ c. record c { rx_fwd_cnt = (c.rx_fwd_cnt + n) % 2 ^ 32 })
deliver-Mild n = record {
  host_same = λ c. refl;
  guest_same = λ c. refl;
  counters_kept = λ c v. record { window = v.window; consumed = v.consumed; counted = v.counted };
}

queue-Mild : (bytes : List ℕ) → Mild (λ c. record c { pending = c.pending ++ (bytes ∷ []) })
queue-Mild bytes = record {
  host_same = λ c. refl;
  guest_same = λ c. refl;
  counters_kept = λ c v. record { window = v.window; consumed = v.consumed; counted = v.counted };
}

deliver-Keeps : (id : ℕ) (payload : List ℕ) → Keeps (deliver id payload)
deliver-Keeps id payload =
    Keeps-bind _ _ (Keeps-modify id _ (deliver-Mild (length payload)))
      (λ u. Keeps-log_event (received id payload))

module _ (vr : Option Layout) where
  flush-Keeps : (id : ℕ) → Keeps (flush vr id)
  flush-Keeps id =
      Keeps-bind _ _ (flush_connection-Closed (λ A m. Keeps m) Keeps-Closed vr id)
        (λ b. Keeps-pure tt)

  send-Keeps : (id : ℕ) (op : Op) → Keeps (send vr id op)
  send-Keeps id op = Keeps-with_object id tt _ (λ c.
      Keeps-bind _ _ (send_ctl-Closed (λ A m. Keeps m) Keeps-Closed vr c op 0) (λ b. Keeps-pure tt))

  module _ (h : Header) (v : Credit h) where
    accept-Keeps : Keeps (accept vr h)
    unfolding accept
    accept-Keeps =
        Keeps-bind _ _
          (enter-Keeps _
            (record { window = v.window; consumed = v.consumed; counted = omega arith }))
          (λ id.
            Keeps-bind _ _ (send-Keeps id response)
              (λ u. Keeps-log_event (connected h.dst_port id)))

    on_request-Keeps : Keeps (on_request vr h)
    unfolding on_request Keeps
    on_request-Keeps s w = chosen (listens s.listeners h.dst_port)
      where
        chosen :
            (b : Bool)
            → WellFormed (
                (if b
                  then accept vr h s
                  else (send_rst vr h.dst_port h.src_port >>= λ sent. pure tt) s).1)
        chosen true = accept-Keeps s w
        chosen false = send_rst-Closed (λ A m. Keeps m) Keeps-Closed vr h.dst_port h.src_port s w

    on_rw-Keeps : (pkt : List ℕ) (found : Option ℕ) → Keeps (on_rw vr h pkt found)
    unfolding on_rw
    on_rw-Keeps pkt none = send_rst-Closed (λ A m. Keeps m) Keeps-Closed vr h.dst_port h.src_port
    on_rw-Keeps pkt (some id) = Keeps-bind _ _ (Keeps-modify id _ (Credit-Mild h v)) (λ a.
        Keeps-bind _ _ (deliver-Keeps id (take h.len (drop header_len pkt)))
          (λ b. Keeps-bind _ _ (send-Keeps id credit_update) (λ c. flush-Keeps id)))

    on_conn-Keeps : (op : Op) (id : ℕ) → Keeps (on_conn vr h op id)
    unfolding on_conn
    on_conn-Keeps request id = Keeps-pure tt
    on_conn-Keeps read_write id = Keeps-pure tt
    on_conn-Keeps response id =
        Keeps-bind _ _ (Keeps-modify id _ (Credit-Mild h v))
          (λ a. Keeps-bind _ _ (Keeps-modify id _ open-Mild) (λ b. flush-Keeps id))
    on_conn-Keeps credit_update id =
        Keeps-bind _ _ (Keeps-modify id _ (Credit-Mild h v)) (λ u. flush-Keeps id)
    on_conn-Keeps credit_request id = send-Keeps id credit_update
    on_conn-Keeps shutdown id =
        if-Closed (λ A m. Keeps m) Keeps-Closed _ _ (pure tt) (close_connection-Keeps vr id true)
          (Keeps-pure tt)
    on_conn-Keeps rst id = close_connection-Keeps vr id false

    on_found-Keeps : (op : Op) (found : Option ℕ) → Keeps (on_found vr h op found)
    on_found-Keeps op none = Keeps-pure tt
    on_found-Keeps op (some id) = on_conn-Keeps op id

    on_op-Keeps : (pkt : List ℕ) (op : Op) (found : Option ℕ) → Keeps (on_op vr h pkt op found)
    on_op-Keeps pkt request found = on_request-Keeps
    on_op-Keeps pkt read_write found = on_rw-Keeps pkt found
    on_op-Keeps pkt response found = on_found-Keeps response found
    on_op-Keeps pkt rst found = on_found-Keeps rst found
    on_op-Keeps pkt shutdown found = on_found-Keeps shutdown found
    on_op-Keeps pkt credit_update found = on_found-Keeps credit_update found
    on_op-Keeps pkt credit_request found = on_found-Keeps credit_request found

    dispatch-Keeps : (pkt : List ℕ) (op : Option Op) → Keeps (dispatch vr h pkt op)
    unfolding Keeps
    dispatch-Keeps pkt none s w = w
    dispatch-Keeps pkt (some op) s w = on_op-Keeps pkt op (lookup s.conns h.dst_port h.src_port) s w

  handle_tx_packet-Keeps : (pkt : List ℕ) → All IsByte pkt → Keeps (handle_tx_packet vr pkt)
  unfolding handle_tx_packet
  handle_tx_packet-Keeps pkt bytes =
      if-Closed (λ A m. Keeps m) Keeps-Closed _ (pure tt) _ (Keeps-pure tt)
        (dispatch-Keeps (decode_hdr pkt) (decode_hdr-Credit pkt bytes) pkt
          (op_of (decode_hdr pkt).op))

  -- Whatever packet of bytes the guest sends, and whatever handling it throws, the connections of a well
  -- formed state stay well formed.
  pub handle_tx_packet-WellFormed :
      (pkt : List ℕ) (s : Vsock)
      → All IsByte pkt
      → WellFormed s
      → WellFormed (handle_tx_packet vr pkt s).1
  unfolding Keeps
  handle_tx_packet-WellFormed pkt s bytes w = handle_tx_packet-Keeps pkt bytes s w

  opened-Keeps : (c : Conn) → Counters c → Keeps (enter c >>= λ id. send vr id request >> pure id)
  opened-Keeps c v =
      Keeps-bind _ _ (enter-Keeps c v)
        (λ id. Keeps-bind _ _ (send-Keeps id request) (λ u. Keeps-pure id))

  pub connect-Keeps : (guest_port : ℕ) → Keeps (connect vr guest_port)
  unfolding connect Keeps
  connect-Keeps guest_port s w =
      opened-Keeps
        (record (new_conn s.next_host_port guest_port) { peer_buf_alloc = host_buf_alloc })
        (record { window = omega arith; consumed = omega arith; counted = omega arith })
        (record s { next_host_port = s.next_host_port + 1 })
        (record { names = w.names; unique = w.unique; counters = w.counters })

  pub write-Keeps : (id : ℕ) (bytes : List ℕ) → Keeps (write vr id bytes)
  unfolding write
  write-Keeps id bytes = Keeps-with_object id false _ (λ c.
      if-Closed (λ A m. Keeps m) Keeps-Closed c.is_open _ _
        (Keeps-bind _ _ (Keeps-modify id _ (queue-Mild bytes))
          (λ u. Keeps-bind _ _ (flush-Keeps id) (λ a. Keeps-pure true)))
        (Keeps-pure false))

  pub close-Keeps : (id : ℕ) → Keeps (close vr id)
  unfolding close
  close-Keeps id = Keeps-with_object id tt _ (λ c.
      if-Closed (λ A m. Keeps m) Keeps-Closed c.is_open _ _ (close_connection-Keeps vr id true)
        (Keeps-pure tt))
