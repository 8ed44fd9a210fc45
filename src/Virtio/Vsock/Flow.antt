-- ===== src/Virtio/Vsock/Flow.antt =====
-- The flow control of runtime/virtio/vsock-device.ts: what the loop of `_flushConnection` takes from the
-- stream that waits in a connection.
use nix_wasm.Prelude.{ℕ, zero, suc, ◌≤◌, ◌<◌, List, [], ◌∷◌, ◌≡◌, refl, ap, ◌∙◌}
use nix_wasm.Prelude.{
  Bool, true, false, Option, some, ◌==◌, if◌then◌else◌, Bool-cases, inl, inr, length, take,
  get_elem?, arith,
}
use nix_wasm.Virtio.Vsock.Packets.{rx_of, data_packet, Offered, push_rx-Offered}
use nix_wasm.Virtio.Machine.{and_then, M, Result, ok, fault, pure}
use nix_wasm.Virtio.Vring.{Layout}
use nix_wasm.Virtio.Vsock.{read_write, Conn, Vsock, credit_available}
use nix_wasm.Virtio.Vsock.Send.{
  update, min, flushed, flush_round, flush_loop, flush_connection, weight,
}
use nix_wasm.Virtio.Vsock.Heap.{
  Quiet, Quiet-refl, push_rx-Quiet, get_elem?-update, get_elem?-update_other, weight-sent_from,
}
use nix_wasm.Virtio.Vsock.Sent.{
  Counters, Flows, Quiet-Flows, advanced, advanced-Counters, advanced-Sent, credit_available_le,
  later-Flows, length-take_le, min_bounds, packet_limit, still, thrown, untaken,
}

module _ (vr : Option Layout) (id : ℕ) where
  -- What the loop is to do on fewer bytes than `bound`.
  Runs : ℕ → M Vsock Bool → Type 0
  Runs bound loop =
      (c : Conn) (s : Vsock)
      → Counters c
      → get_elem? s.heap id ≡ some c
      → weight c.pending < bound
      → Flows vr id c s (loop s)

  flushed-Flows :
      (n : ℕ) (head : List ℕ) (rest : List (List ℕ)) (loop : M Vsock Bool) (c : Conn) (s : Vsock)
      (r : Result Bool × Vsock)
      → Runs (weight (head ∷ rest)) loop
      → Counters c
      → get_elem? s.heap id ≡ some c
      → c.pending ≡ head ∷ rest
      → n ≤ length head
      → n ≤ credit_available c
      → ((0 < length head) → 0 < n)
      → Quiet s r.1
      → Offered vr packet_limit (data_packet s.guest_cid c (take n head)) (rx_of s) r.0 (rx_of r.1)
      → Flows vr id c s (and_then r (flushed id n head rest loop))
  unfolding Runs
  flushed-Flows n head rest loop c s (fault x, s') ih v e ep small credit some_sent q o =
      Quiet-Flows vr id c s (fault x, s') v e q (λ h. cc h) (thrown vr _ x (rx_of s) (rx_of s') o)
  flushed-Flows n head rest loop c s (ok false, s') ih v e ep small credit some_sent q o =
      Quiet-Flows vr id c s (ok true, s') v e q (λ h. cc h) (untaken vr _ (rx_of s) (rx_of s') o)
  flushed-Flows n head rest loop c s (ok true, s') ih v e ep small credit some_sent q o =
      let there : get_elem? s'.heap id ≡ some c = ap (λ heap. get_elem? heap id) q.heap_same ∙ e in
      let step = λ (c' : Conn). advanced n head rest c' in
      later-Flows vr id n head rest c s (record s' { heap = update s'.heap id step }) _
        (advanced-Sent n head rest c v ep small credit) ep small o
        (λ j apart.
          get_elem?-update_other s'.heap id j step apart
          ∙ ap (λ heap. get_elem? heap j) q.heap_same)
        q.conns_same q.listeners_same q.events_same q.guest_same
        (ih (advanced n head rest c) (record s' { heap = update s'.heap id step })
          (advanced-Counters n head rest c v) (get_elem?-update s'.heap id step c there)
          (weight-sent_from n head rest some_sent))

  flush_round-Flows :
      (loop : M Vsock Bool) (c : Conn) (s : Vsock) (pieces : List (List ℕ))
      → Runs (weight pieces) loop
      → Counters c
      → get_elem? s.heap id ≡ some c
      → c.pending ≡ pieces
      → Flows vr id c s (flush_round vr id loop c pieces s)
  unfolding flush_round
  flush_round-Flows loop c s [] ih v e ep =
      Quiet-Flows vr id c s (ok true, s) v e (Quiet-refl s) (λ h. cc h) (still vr (rx_of s))
  flush_round-Flows loop c s (head ∷ rest) ih v e ep = elim (Bool-cases (credit_available c == 0)) [
    | inl z ↦
        rw z
          (Quiet-Flows vr id c s (ok true, s) v e (Quiet-refl s) (λ h. cc h) (still vr (rx_of s)))
    | inr z ↦
        let n = min (length head) (credit_available c) in
        let b = min_bounds (length head) (credit_available c) (λ none_left. ground arith) in
        rw z (
          flushed-Flows n head rest loop c s _ ih v e ep b.0 b.1 b.2
            (push_rx-Quiet vr c.host_port c.guest_port read_write (take n head) 0 c.rx_fwd_cnt s)
            (push_rx-Offered vr packet_limit c (take n head) s
              (omega (arith, length-take_le n head, b.1, credit_available_le c v))))
  ]

  flush_loop-Flows : (fuel : ℕ) → Runs fuel (flush_loop fuel vr id)
  unfolding flush_loop Runs
  flush_loop-Flows zero c s v e h = absurd (omega arith)
  flush_loop-Flows (suc fuel) c s v e h = rw e (
      flush_round-Flows (flush_loop fuel vr id) c s c.pending
        (λ c' s' v' e' h'. flush_loop-Flows fuel c' s' v' e' (omega (arith, h, h'))) v e refl)

  -- What a flush of an open connection sends is the front of the stream that waits, no more of it than
  -- the guest's window takes; it ends, and it changes nothing else.
  pub flush_connection-Flows :
      (c : Conn) (s : Vsock)
      → Counters c
      → get_elem? s.heap id ≡ some c
      → Flows vr id c s (flush_connection vr id s)
  unfolding flush_connection Runs
  flush_connection-Flows c s v e = rw e (opened c.is_open)
    where
      opened :
          (b : Bool)
          → Flows vr id c s ((if b then flush_loop (suc (weight c.pending)) vr id else pure true) s)
      opened true = flush_loop-Flows (suc (weight c.pending)) c s v e (omega arith)
      opened false =
          Quiet-Flows vr id c s (ok true, s) v e (Quiet-refl s) (λ h. cc h) (still vr (rx_of s))
