-- ===== src/Virtio/Vsock/Protocol.antt =====
-- What runtime/virtio/vsock-device.ts does with the guest's packets and with the host's calls.
use nix_wasm.Prelude.{ℕ, zero, suc, ◌+◌, ◌/◌, ◌%◌, ◌^◌, List, [], ◌∷◌, ◌++◌}
use nix_wasm.Prelude.{
  Bool, true, false, ◌&&◌, Option, none, some, ltb, ◌==◌, if◌then◌else◌, length, take, drop,
  get_elem?,
}
use nix_wasm.Prelude.Bytes.{le_bytes}
use nix_wasm.Virtio.Machine.{M, Queue, ok, ◌>>=◌, ◌>>◌, pure}
use nix_wasm.Virtio.Vring.{Layout, next_chain, read_out, push_used}
use nix_wasm.Virtio.Vsock.{
  header_len, host_buf_alloc, Op, request, response, rst, shutdown, read_write, credit_update,
  credit_request, op_of, Header, decode_hdr, Conn, new_conn, connected, received, Entry, Vsock,
}
use nix_wasm.Virtio.Vsock.Send.{
  raise_irq, log_event, modify, with_object, send_ctl, send_rst, flush_connection, lookup, insert,
  close_connection,
}

abbrev pub on_tx {ℓ} : {A : Type ℓ} → M Queue A → M Vsock A
on_tx m s =
    let r = m (record { memory = s.memory; last_avail = s.tx_avail }) in
    (r.0, record s { memory = r.1.memory; tx_avail = r.1.last_avail })

abbrev pub listens : List ℕ → ℕ → Bool
listens [] port = false
listens (p ∷ ports) port = if p == port then true else listens ports port

abbrev without : List ℕ → ℕ → List ℕ
without [] port = []
without (p ∷ ports) port = if p == port then ports else (p ∷ without ports port)

-- A new object, and its entry in the map.
abbrev pub enter : Conn → M Vsock ℕ
enter c s = (
  ok (length s.heap),
  record s {
    heap = s.heap ++ (c ∷ []);
    conns = insert s.conns c.host_port c.guest_port (length s.heap);
  },
)

abbrev pub flush : Option Layout → ℕ → M Vsock (Unit {0})
flush vr id = do _ ← flush_connection vr id; pure tt

abbrev pub set_credit : ℕ → Header → M Vsock (Unit {0})
set_credit id h =
    modify id (λ c. record c { peer_buf_alloc = h.buf_alloc; peer_fwd_cnt = h.fwd_cnt })

abbrev pub send : Option Layout → ℕ → Op → M Vsock (Unit {0})
send vr id op = with_object id tt (λ c. do _ ← send_ctl vr c op 0; pure tt)

-- `_deliver`.
abbrev pub deliver : ℕ → List ℕ → M Vsock (Unit {0})
deliver id payload = do
  modify id (λ c. record c { rx_fwd_cnt = (c.rx_fwd_cnt + length payload) % 2 ^ 32 })
  log_event (received id payload)

abbrev pub requested : Header → Conn
requested h = record (new_conn h.dst_port h.src_port) {
  peer_buf_alloc = h.buf_alloc;
  peer_fwd_cnt = h.fwd_cnt;
}

-- A REQUEST that a listener takes.
unfoldable pub accept : Option Layout → Header → M Vsock (Unit {0})
unfolding send_ctl
accept vr h = do id ← enter (requested h); send vr id response; log_event (connected h.dst_port id)

unfoldable pub on_request : Option Layout → Header → M Vsock (Unit {0})
unfolding accept send_rst
on_request vr h s =
    if listens s.listeners h.dst_port
    then accept vr h s
    else (do _ ← send_rst vr h.dst_port h.src_port; pure tt) s

unfoldable pub on_rw : Option Layout → Header → List ℕ → Option ℕ → M Vsock (Unit {0})
unfolding send_ctl send_rst flush_connection
on_rw vr h pkt none = do _ ← send_rst vr h.dst_port h.src_port; pure tt
on_rw vr h pkt (some id) = do
  set_credit id h
  deliver id (take h.len (drop header_len pkt))
  send vr id credit_update
  flush vr id

-- Packets of a connection, the rest of the `switch`.
unfoldable pub on_conn : Option Layout → Header → Op → ℕ → M Vsock (Unit {0})
unfolding send_ctl flush_connection close_connection
on_conn vr h request id = pure tt
on_conn vr h read_write id = pure tt
on_conn vr h response id = do
  set_credit id h
  modify id (λ c. record c { is_open = true })
  flush vr id
on_conn vr h credit_update id = do set_credit id h; flush vr id
on_conn vr h credit_request id = send vr id credit_update
on_conn vr h shutdown id =
    if (h.flags % 2 == 1) && (h.flags / 2 % 2 == 1) then close_connection vr id true else pure tt
on_conn vr h rst id = close_connection vr id false

abbrev pub on_found : Option Layout → Header → Op → Option ℕ → M Vsock (Unit {0})
on_found vr h op none = pure tt
on_found vr h op (some id) = on_conn vr h op id

-- The `switch`, on the connection of the packet's ports.
abbrev pub on_op : Option Layout → Header → List ℕ → Op → Option ℕ → M Vsock (Unit {0})
on_op vr h pkt request found = on_request vr h
on_op vr h pkt read_write found = on_rw vr h pkt found
on_op vr h pkt response found = on_found vr h response found
on_op vr h pkt rst found = on_found vr h rst found
on_op vr h pkt shutdown found = on_found vr h shutdown found
on_op vr h pkt credit_update found = on_found vr h credit_update found
on_op vr h pkt credit_request found = on_found vr h credit_request found

abbrev pub dispatch : Option Layout → Header → List ℕ → Option Op → M Vsock (Unit {0})
dispatch vr h pkt none s = (ok tt, s)
dispatch vr h pkt (some op) s = on_op vr h pkt op (lookup s.conns h.dst_port h.src_port) s

unfoldable pub handle_tx_packet : Option Layout → List ℕ → M Vsock (Unit {0})
unfolding on_request on_rw on_conn decode_hdr
handle_tx_packet vr pkt =
    let h = decode_hdr pkt in
    if ltb (length pkt) header_len then pure tt else dispatch vr h pkt (op_of h.op)

-- `try { ... } catch`: what was thrown is logged, and what was changed before it stays.
abbrev pub caught : M Vsock (Unit {0}) → M Vsock (Unit {0})
caught m s = (ok tt, (m s).1)

-- The inner loop of `_serviceTx` on fuel: `none` means that the fuel ran out.
unfoldable pub tx_loop : ℕ → Layout → Option Layout → ℕ → M Vsock (Option ℕ)
unfolding handle_tx_packet
tx_loop zero l rx serviced = pure none
tx_loop (suc fuel) l rx serviced = do
  chain ← on_tx (next_chain l)
  elim chain [
    | none ↦ pure (some serviced)
    | some c ↦ do
      pkt ← on_tx (read_out c)
      caught (handle_tx_packet rx pkt)
      on_tx (push_used l c.head 0)
      tx_loop fuel l rx (serviced + 1)
  ]

abbrev after_loop : Option ℕ → M Vsock (Option ℕ)
after_loop none = pure none
after_loop (some zero) = pure (some 0)
after_loop (some (suc n)) = do raise_irq; pure (some (suc n))

-- No kick comes while the loop runs, so it runs once.
unfoldable pub service_tx : ℕ → Option Layout → Option Layout → M Vsock (Option ℕ)
unfolding tx_loop
service_tx fuel none rx = pure (some 0)
service_tx fuel (some l) rx = do served ← tx_loop fuel l rx 0; after_loop served

-- `_flushAll`, over the objects that the map holds.
unfoldable pub flush_each : Option Layout → List Entry → M Vsock (Unit {0})
unfolding flush_connection
flush_each vr [] = pure tt
flush_each vr (e ∷ es) = do flush vr e.object; flush_each vr es

unfoldable pub flush_all : Option Layout → M Vsock (Unit {0})
unfolding flush_each
flush_all vr s = flush_each vr s.conns s

-- `onNotify` where the kicks are not forwarded: queue 0 is the receive queue, queue 1 the transmit queue.
unfoldable pub on_notify : ℕ → Option Layout → Option Layout → ℕ → M Vsock (Option ℕ)
unfolding service_tx flush_all
on_notify fuel tx rx q =
    if q == 1
    then service_tx fuel tx rx
    else if q == 0
    then (do flush_all rx; pure (some 0))
    else pure (some 0)

-- The host's calls.
unfoldable pub listen : ℕ → Vsock → Vsock
listen port s =
    if listens s.listeners (port % 2 ^ 32)
    then s
    else record s { listeners = s.listeners ++ (port % 2 ^ 32 ∷ []) }

unfoldable pub unlisten : ℕ → Vsock → Vsock
unlisten port s = record s { listeners = without s.listeners (port % 2 ^ 32) }

-- The address of the object.
unfoldable pub connect : Option Layout → ℕ → M Vsock ℕ
unfolding send_ctl
connect vr guest_port s =
    (do
      id ← enter (record (new_conn s.next_host_port guest_port) { peer_buf_alloc = host_buf_alloc })
      send vr id request
      pure id)
      (record s { next_host_port = s.next_host_port + 1 })

-- `write` of a connection: whether it is open.
unfoldable pub write : Option Layout → ℕ → List ℕ → M Vsock Bool
unfolding flush_connection
write vr id bytes = with_object id false (λ c.
    if c.is_open
    then (do
      modify id (λ c'. record c' { pending = c'.pending ++ (bytes ∷ []) })
      flush vr id
      pure true)
    else pure false)

unfoldable pub close : Option Layout → ℕ → M Vsock (Unit {0})
unfolding close_connection
close vr id = with_object id tt (λ c. if c.is_open then close_connection vr id true else pure tt)

unfoldable pub config_read : ℕ → ℕ → Vsock → List ℕ
config_read offset zero s = []
config_read offset (suc n) s =
    (elim (get_elem? (le_bytes 8 s.guest_cid) offset) [ none ↦ 0 | some b ↦ b ])
    ∷ config_read (offset + 1) n s
