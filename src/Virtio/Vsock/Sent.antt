-- ===== src/Virtio/Vsock/Sent.antt =====
-- A connection of runtime/virtio/vsock-device.ts of whose stream some bytes were sent, in packets that went to
-- the guest.
use nix_wasm.Prelude.{
  ℕ, zero, suc, ◌+◌, ◌-◌, ◌%◌, ◌^◌, ◌≤◌, ◌<◌, List, [], ◌∷◌, ◌≡◌, refl, sym, ap, ◌∙◌, ◌≢◌,
}
use nix_wasm.Prelude.{
  ◌++◌, none, Bool, true, false, Option, some, length, take, drop, get_elem?, arith, drop-drop,
  length-drop, length-append,
}
use mathlib.Core.Path.{subst}
use nix_wasm.Virtio.Vring.Delivery.{ended, threw, delivered, Delivers, is_fault, flat, take_add}
use nix_wasm.Virtio.Vsock.Packets.{rx_of, data_packet, Offered}
use nix_wasm.Virtio.Machine.{Queue, Fault, Result, ok, fault}
use nix_wasm.Virtio.Vring.{Layout}
use nix_wasm.Virtio.Vsock.{header_len, Conn, Vsock, in_flight, credit_available}
use nix_wasm.Virtio.Vsock.Send.{min, sent_from}
use nix_wasm.Virtio.Vsock.Heap.{Quiet, flat-sent_from, take-append_le}

-- The counters are numbers of 32 bits.
pub record Counters (c : Conn) : Type 0 where
  pub window : c.peer_buf_alloc < 2 ^ 32
  pub consumed : c.peer_fwd_cnt < 2 ^ 32
  pub counted : c.tx_cnt < 2 ^ 32

-- A connection of which `sent` more bytes were sent.
pub record Sent (sent : ℕ) (c c' : Conn) : Type 0 where
  pub stream : flat c'.pending ≡ drop sent (flat c.pending)
  pub waited : sent ≤ length (flat c.pending)
  pub in_window : sent ≤ credit_available c
  pub counted : c'.tx_cnt ≡ (c.tx_cnt + sent) % 2 ^ 32
  pub flying : in_flight c' ≡ in_flight c + sent
  pub window_same : c'.peer_buf_alloc ≡ c.peer_buf_alloc
  pub consumed_same : c'.peer_fwd_cnt ≡ c.peer_fwd_cnt
  pub open_same : c'.is_open ≡ c.is_open

-- No packet is longer.
abbrev pub packet_limit : ℕ
packet_limit = header_len + 2 ^ 32

-- The packets that carry pieces of a connection's stream.
abbrev pub packets_of : ℕ → Conn → List (List ℕ) → List (List ℕ)
packets_of guest_cid c [] = []
packets_of guest_cid c (piece ∷ pieces) =
    data_packet guest_cid c piece ∷ packets_of guest_cid c pieces

-- What waits and what was sent is not in a packet.
pub packets_of-Conn :
    (g : ℕ) (c : Conn) (tx : ℕ) (waits : List (List ℕ)) (ps : List (List ℕ))
    → packets_of g (record c { tx_cnt = tx; pending = waits }) ps ≡ packets_of g c ps
packets_of-Conn g c tx waits [] = refl
packets_of-Conn g c tx waits (piece ∷ ps) =
    ap (λ xs. data_packet g c piece ∷ xs) (packets_of-Conn g c tx waits ps)

-- The pieces went to the guest, each in a packet of its own.
abbrev pub Carried : Option Layout → ℕ → Conn → List (List ℕ) → Vsock → Result Bool × Vsock → Type 0
Carried vr guest_cid c pieces s r =
    Delivers vr packet_limit (packets_of guest_cid c pieces) (is_fault r.0) (rx_of s) (rx_of r.1)

-- What a run leaves: the first bytes of one object's stream went to the guest, all else of the connections
-- is as it was; and it ended.
pub record Flows (vr : Option Layout) (id : ℕ) (c : Conn) (s : Vsock) (r : Result Bool × Vsock)
    : Type 0 where
  pub sent : ℕ
  pub after : Conn
  pub found : get_elem? r.1.heap id ≡ some after
  pub took : Sent sent c after
  pub others : (j : ℕ) → id ≢ j → get_elem? r.1.heap j ≡ get_elem? s.heap j
  pub conns_same : r.1.conns ≡ s.conns
  pub listeners_same : r.1.listeners ≡ s.listeners
  pub events_same : r.1.events ≡ s.events
  pub ended : r.0 ≢ ok false
  pub pieces : List (List ℕ)
  pub bytes_same : flat pieces ≡ take sent (flat c.pending)
  pub carried : Carried vr s.guest_cid c pieces s r

flying_add :
    (t f n : ℕ)
    → f < 2 ^ 32
    → (t + (2 ^ 32 - f)) % 2 ^ 32 + n < 2 ^ 32
    → ((t + n) % 2 ^ 32 + (2 ^ 32 - f)) % 2 ^ 32 ≡ (t + (2 ^ 32 - f)) % 2 ^ 32 + n
flying_add t f n hf h = omega arith

unsent : (c : Conn) → Counters c → Sent 0 c c
unsent c v = record {
  stream = refl;
  waited = omega arith;
  in_window = omega arith;
  counted = omega (arith, v.counted);
  flying = omega arith;
  window_same = refl;
  consumed_same = refl;
  open_same = refl;
}

-- Nothing is sent, and the state is quiet.
pub Quiet-Flows :
    (vr : Option Layout) (id : ℕ) (c : Conn) (s : Vsock) (r : Result Bool × Vsock)
    → Counters c
    → get_elem? s.heap id ≡ some c
    → Quiet s r.1
    → r.0 ≢ ok false
    → Delivers vr packet_limit [] (is_fault r.0) (rx_of s) (rx_of r.1)
    → Flows vr id c s r
Quiet-Flows vr id c s r v e q h d = record {
  sent = 0;
  after = c;
  found = ap (λ heap. get_elem? heap id) q.heap_same ∙ e;
  took = unsent c v;
  others = λ j apart. ap (λ heap. get_elem? heap j) q.heap_same;
  conns_same = q.conns_same;
  listeners_same = q.listeners_same;
  events_same = q.events_same;
  ended = h;
  pieces = [];
  bytes_same = refl;
  carried = d;
}

-- Nothing is tried.
pub still : (vr : Option Layout) (q : Queue) → Delivers vr packet_limit [] false q q
still none q = (refl, refl)
still (some l) q = ended q

-- An offer that is not taken, as deliveries of nothing.
pub untaken :
    (vr : Option Layout) (pkt : List ℕ) (q q' : Queue)
    → Offered vr packet_limit pkt q (ok false) q'
    → Delivers vr packet_limit [] false q q'
untaken none pkt q q' h = (refl, h)
untaken (some l) pkt q q' h = h

pub thrown :
    (vr : Option Layout) (pkt : List ℕ) (x : Fault) (q q' : Queue)
    → Offered vr packet_limit pkt q (fault x) q'
    → Delivers vr packet_limit [] true q q'
thrown none pkt x q q' h = absurd h
thrown (some l) pkt x q q' h = threw q q'

-- A packet that is taken, before others.
taken :
    (vr : Option Layout) (pkt : List ℕ) (pkts : List (List ℕ)) (b : Bool) (q t q' : Queue)
    → Offered vr packet_limit pkt q (ok true) t
    → Delivers vr packet_limit pkts b t q'
    → Delivers vr packet_limit (pkt ∷ pkts) b q q'
taken none pkt pkts b q t q' h d = absurd h
taken (some l) pkt pkts b q t q' h d = delivered pkt q t q' pkts b h d

-- The object with the first `n` bytes of its first piece sent.
abbrev pub advanced : ℕ → List ℕ → List (List ℕ) → Conn → Conn
advanced n head rest c = record c {
  tx_cnt = (c.tx_cnt + n) % 2 ^ 32;
  pending = sent_from n head rest;
}

pub advanced-Sent :
    (n : ℕ) (head : List ℕ) (rest : List (List ℕ)) (c : Conn)
    → Counters c
    → c.pending ≡ head ∷ rest
    → n ≤ length head
    → n ≤ credit_available c
    → Sent n c (advanced n head rest c)
unfolding credit_available
advanced-Sent n head rest c v e small credit = record {
  stream = flat-sent_from n head rest small ∙ ap (λ ps. drop n (flat ps)) (sym e);
  waited = rw e (omega (arith, small, length-append head (flat rest)));
  in_window = credit;
  counted = refl;
  flying = flying_add c.tx_cnt c.peer_fwd_cnt n v.consumed (omega (arith, credit, v.window));
  window_same = refl;
  consumed_same = refl;
  open_same = refl;
}

Sent-Sent : (n m : ℕ) (a b c : Conn) → Sent n a b → Sent m b c → Sent (n + m) a c
unfolding credit_available
Sent-Sent n m a b c x y = record {
  stream = y.stream ∙ ap (drop m) x.stream ∙ drop-drop m n (flat a.pending);
  waited =
      omega
        (arith, x.waited, y.waited, ap (length {A = ℕ}) x.stream, length-drop n (flat a.pending));
  in_window = omega (arith, x.in_window, y.in_window, x.flying, x.window_same);
  counted = omega (arith, y.counted, x.counted);
  flying = y.flying ∙ omega (arith, x.flying);
  window_same = y.window_same ∙ x.window_same;
  consumed_same = y.consumed_same ∙ x.consumed_same;
  open_same = y.open_same ∙ x.open_same;
}

pub advanced-Counters :
    (n : ℕ) (head : List ℕ) (rest : List (List ℕ)) (c : Conn)
    → Counters c
    → Counters (advanced n head rest c)
advanced-Counters n head rest c v = record {
  window = v.window;
  consumed = v.consumed;
  counted = omega arith;
}

-- The rounds behind one that sent `n` bytes in a packet.
pub later-Flows :
    (vr : Option Layout) (id n : ℕ) (head : List ℕ) (rest : List (List ℕ)) (c : Conn) (s s' : Vsock)
    (r : Result Bool × Vsock)
    → Sent n c (advanced n head rest c)
    → c.pending ≡ head ∷ rest
    → n ≤ length head
    → Offered vr packet_limit
        (data_packet s.guest_cid c (take n head))
        (rx_of s)
        (ok true)
        (rx_of s')
    → ((j : ℕ) → id ≢ j → get_elem? s'.heap j ≡ get_elem? s.heap j)
    → s'.conns ≡ s.conns
    → s'.listeners ≡ s.listeners
    → s'.events ≡ s.events
    → s'.guest_cid ≡ s.guest_cid
    → Flows vr id (advanced n head rest c) s' r
    → Flows vr id c s r
later-Flows vr id n head rest c s s' r step ep small offered others conns listeners events guest f =
    record {
      sent = n + f.sent;
      after = f.after;
      found = f.found;
      took = Sent-Sent n f.sent c (advanced n head rest c) f.after step f.took;
      others = λ j apart. f.others j apart ∙ others j apart;
      conns_same = f.conns_same ∙ conns;
      listeners_same = f.listeners_same ∙ listeners;
      events_same = f.events_same ∙ events;
      ended = f.ended;
      pieces = take n head ∷ f.pieces;
      bytes_same =
          ap (λ xs. take n head ++ xs) (f.bytes_same ∙ ap (take f.sent) step.stream)
          ∙ ap (λ xs. xs ++ take f.sent (drop n (flat c.pending))) front
          ∙ sym (take_add n f.sent (flat c.pending));
      carried =
          taken vr (data_packet s.guest_cid c (take n head)) (packets_of s.guest_cid c f.pieces)
            (is_fault r.0) (rx_of s) (rx_of s') (rx_of r.1) offered
            (subst
              (λ (g : ℕ).
                Delivers vr packet_limit (packets_of g c f.pieces) (is_fault r.0) (rx_of s')
                  (rx_of r.1))
              guest (same_packets f.pieces f.carried));
    }
  where
    front : take n head ≡ take n (flat c.pending)
    front = sym (take-append_le n head (flat rest) small) ∙ ap (λ ps. take n (flat ps)) (sym ep)

    same_packets :
        (ps : List (List ℕ))
        → Carried vr s'.guest_cid (advanced n head rest c) ps s' r
        → Carried vr s'.guest_cid c ps s' r
    same_packets ps h =
        subst (λ pkts. Delivers vr packet_limit pkts (is_fault r.0) (rx_of s') (rx_of r.1))
          (packets_of-Conn s'.guest_cid c ((c.tx_cnt + n) % 2 ^ 32) (sent_from n head rest) ps) h

pub length-take_le : (n : ℕ) (bytes : List ℕ) → length (take n bytes) ≤ n
length-take_le zero bytes = omega arith
length-take_le (suc n) [] = omega arith
length-take_le (suc n) (b ∷ bytes) = let h = length-take_le n bytes in omega (arith, h)

pub credit_available_le : (c : Conn) → Counters c → credit_available c ≤ 2 ^ 32
unfolding credit_available
credit_available_le c v = omega (arith, v.window)

pub min_bounds : (a b : ℕ) → b ≢ 0 → (min a b ≤ a) × (min a b ≤ b) × ((0 < a) → 0 < min a b)
min_bounds a b h = ground arith
