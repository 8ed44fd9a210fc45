-- ===== src/Virtio/Vsock/Packets.antt =====
-- What `_pushRx` of runtime/virtio/vsock-device.ts gives the guest: the whole packet in a chain, or nothing.
use nix_wasm.Prelude.{
  ℕ, ◌+◌, ◌%◌, ◌^◌, ◌≤◌, ◌<◌, List, [], ◌++◌, ◌≡◌, refl, ap, ◌∙◌, arith, Bool, true, false, Option,
  none, some, ltb, Bool-cases, inl, inr, length,
}
use nix_wasm.Virtio.Machine.{and_then, Queue, Result, ok, fault, ◌>>◌, pure}
use nix_wasm.Virtio.Vring.{Layout, Chain, next_chain, write_in, in_capacity, push_used}
use nix_wasm.Virtio.Vring.Delivery.{Delivered, Deliveries, ended, starved, too_small, write_in_all}
use nix_wasm.Virtio.Vsock.{
  header_len, cid_host, type_stream, host_buf_alloc, op_code, read_write, encode_hdr, Conn, Vsock,
}
use nix_wasm.Virtio.Vsock.Send.{packet, fill_chain, fill_next, offer, raise_if, push_to, push_rx}

-- The device's receive queue.
abbrev pub rx_of : Vsock → Queue
rx_of s = record { memory = s.memory; last_avail = s.rx_avail }

-- The packet that carries bytes of a connection to the guest with a CID.
abbrev pub data_packet : ℕ → Conn → List ℕ → List ℕ
data_packet guest_cid c payload =
    encode_hdr (record {
      src_cid = cid_host;
      dst_cid = guest_cid;
      src_port = c.host_port % 2 ^ 32;
      dst_port = c.guest_port % 2 ^ 32;
      len = length payload;
      kind = type_stream;
      op = op_code read_write;
      flags = 0;
      buf_alloc = host_buf_alloc;
      fwd_cnt = c.rx_fwd_cnt % 2 ^ 32;
    })
    ++ payload

pub length-data_packet :
    (guest_cid : ℕ) (c : Conn) (payload : List ℕ)
    → length (data_packet guest_cid c payload) ≡ header_len + length payload
unfolding encode_hdr
length-data_packet guest_cid c payload = omega arith

-- How an offer of a packet left the queue.
abbrev pub Offered : Option Layout → ℕ → List ℕ → Queue → Result Bool → Queue → Type 0
Offered none limit pkt q (ok true) q' = ⊥
Offered none limit pkt q (ok false) q' = q ≡ q'
Offered none limit pkt q (fault x) q' = ⊥
Offered (some l) limit pkt q (ok true) q' = Delivered l pkt q q'
Offered (some l) limit pkt q (ok false) q' = Deliveries l limit [] false q q'
Offered (some l) limit pkt q (fault x) q' = Unit

module _ (l : Layout) (limit : ℕ) (pkt : List ℕ) (short : length pkt ≤ limit) (q : Queue) where
  fill_chain-Offered :
      (c : Chain) (t : Queue)
      → next_chain l q ≡ (ok (some c), t)
      → Offered (some l) limit pkt q (fill_chain l pkt c t).0 (fill_chain l pkt c t).1
  unfolding fill_chain
  fill_chain-Offered c t pops = elim (Bool-cases (ltb (in_capacity c) (length pkt))) [
    | inl small ↦ rw small (back (push_used l c.head 0 t) refl (ground (arith, small, short)))
    | inr room ↦ rw room (wrote (write_in c pkt t) refl (ground (arith, room)))
  ]
    where
      back :
          (r : Result (Unit {0}) × Queue)
          → push_used l c.head 0 t ≡ r
          → in_capacity c < limit
          → let o = and_then r (λ (u : Unit {0}). pure false) in
            Offered (some l) limit pkt q o.0 o.1
      back (ok u, t') gives small =
          too_small q t' t' [] false
            (record { chain = c; popped = t; pops = pops; small = small; gives = gives }) (ended t')
      back (fault x, t') gives small = tt

      gave :
          (m : Queue) (r : Result (Unit {0}) × Queue)
          → length pkt ≤ in_capacity c
          → write_in c pkt t ≡ (ok (length pkt), m)
          → push_used l c.head (length pkt) m ≡ r
          → let o = and_then r (λ (u : Unit {0}). pure true) in Offered (some l) limit pkt q o.0 o.1
      gave m (ok u, t') room fills gives = record {
        chain = c;
        popped = t;
        filled = m;
        pops = pops;
        room = room;
        fills = fills;
        gives = gives;
      }
      gave m (fault x, t') room fills gives = tt

      wrote :
          (r : Result ℕ × Queue)
          → write_in c pkt t ≡ r
          → length pkt ≤ in_capacity c
          → let o = and_then r (λ w. push_used l c.head w >> pure true) in
            Offered (some l) limit pkt q o.0 o.1
      wrote (ok w, m) fills room =
          let all : w ≡ length pkt = write_in_all c pkt t w room (ap (λ r. r.0) fills) in
          rw all (
            gave m (push_used l c.head (length pkt) m) room (fills ∙ ap (λ (n : ℕ). (ok n, m)) all)
              refl)
      wrote (fault x, m) fills room = tt

  offer-Offered : Offered (some l) limit pkt q (offer l pkt q).0 (offer l pkt q).1
  unfolding offer
  offer-Offered = by_chain (next_chain l q) refl
    where
      by_chain :
          (r : Result (Option Chain) × Queue)
          → next_chain l q ≡ r
          → let o = and_then r (fill_next l pkt) in Offered (some l) limit pkt q o.0 o.1
      by_chain (ok none, t) pops = starved q t pops
      by_chain (ok (some c), t) pops = fill_chain-Offered c t pops
      by_chain (fault x, t) pops = tt

push_to-Offered :
    (vr : Option Layout) (limit : ℕ) (pkt : List ℕ) (s : Vsock)
    → length pkt ≤ limit
    → Offered vr limit pkt (rx_of s) (push_to vr pkt s).0 (rx_of (push_to vr pkt s).1)
push_to-Offered none limit pkt s short = refl
push_to-Offered (some l) limit pkt s short =
    raised (offer l pkt (rx_of s)) (offer-Offered l limit pkt short (rx_of s))
  where
    raised :
        (r : Result Bool × Queue)
        → Offered (some l) limit pkt (rx_of s) r.0 r.1
        → let o =
            and_then (r.0, record s { memory = r.1.memory; rx_avail = r.1.last_avail }) raise_if in
          Offered (some l) limit pkt (rx_of s) o.0 (rx_of o.1)
    raised (ok true, t) h = h
    raised (ok false, t) h = h
    raised (fault x, t) h = h

-- A packet of data that is offered.
pub push_rx-Offered :
    (vr : Option Layout) (limit : ℕ) (c : Conn) (payload : List ℕ) (s : Vsock)
    → header_len + length payload ≤ limit
    → let r = push_rx vr c.host_port c.guest_port read_write payload 0 c.rx_fwd_cnt s in
      Offered vr limit (data_packet s.guest_cid c payload) (rx_of s) r.0 (rx_of r.1)
unfolding push_rx packet
push_rx-Offered vr limit c payload s short =
    push_to-Offered vr limit (data_packet s.guest_cid c payload) s
      (rw (length-data_packet s.guest_cid c payload) short)
