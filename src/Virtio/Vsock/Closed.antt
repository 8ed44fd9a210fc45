-- ===== src/Virtio/Vsock/Closed.antt =====
-- Properties of a step of runtime/virtio/vsock-device.ts that its parts pass on to the whole: what is to
-- be shown of the parts, and what then holds of sending and of `_flushConnection`.
use nix_wasm.Prelude.{ℕ, zero, suc, ◌+◌, ◌%◌, ◌^◌, List, [], ◌∷◌}
use nix_wasm.Prelude.{Bool, true, false, Option, ◌==◌, if◌then◌else◌, length, take}
use nix_wasm.Virtio.Machine.{M, ◌>>=◌, pure}
use nix_wasm.Virtio.Vring.{Layout}
use nix_wasm.Virtio.Vsock.{Op, read_write, shutdown, rst, Conn, credit_available, Vsock}
use nix_wasm.Virtio.Vsock.Send.{
  min, modify, with_object, push_rx, send_ctl, send_rst, flushed, flush_round, flush_loop,
  flush_connection, tell_closed, weight,
}

-- `K` holds of an action and of those that it is made of.
pub record Closed (K : (A : Type 0) → M Vsock A → Type 0) : Type 1 where
  pub of_pure : {A : Type 0} (a : A) → K A (pure a)
  pub of_bind :
      {A B : Type 0} (m : M Vsock A) (f : A → M Vsock B)
      → K A m
      → ((a : A) → K B (f a))
      → K B (m >>= f)
  pub of_object :
      {A : Type 0} (id : ℕ) (missing : A) (f : Conn → M Vsock A)
      → ((c : Conn) → K A (f c))
      → K A (with_object id missing f)
  pub of_push :
      (vr : Option Layout) (src dst : ℕ) (op : Op) (payload : List ℕ) (flags fwd : ℕ)
      → K Bool (push_rx vr src dst op payload flags fwd)
  pub of_advance :
      (id n : ℕ) (pieces : List (List ℕ))
      → K
          (Unit {0})
          (modify id (λ c. record c { tx_cnt = (c.tx_cnt + n) % 2 ^ 32; pending = pieces }))

module _ (K : (A : Type 0) → M Vsock A → Type 0) (k : Closed K) where
  pub if-Closed :
      {A : Type 0} (b : Bool) (m m' : M Vsock A) → K A m → K A m' → K A (if b then m else m')
  if-Closed true m m' h h' = h
  if-Closed false m m' h h' = h'

  module _ (vr : Option Layout) where
    pub send_ctl-Closed : (c : Conn) (op : Op) (flags : ℕ) → K Bool (send_ctl vr c op flags)
    unfolding send_ctl
    send_ctl-Closed c op flags = k.of_push vr c.host_port c.guest_port op [] flags c.rx_fwd_cnt

    pub send_rst-Closed :
        (host guest : ℕ) → K (Unit {0}) (send_rst vr host guest >>= λ sent. pure tt)
    unfolding send_rst
    send_rst-Closed host guest =
        k.of_bind _ _ (k.of_push vr host guest rst [] 0 0) (λ sent. k.of_pure tt)

    pub tell_closed-Closed : (c : Conn) (told : Bool) → K (Unit {0}) (tell_closed vr c told)
    tell_closed-Closed c false = k.of_pure tt
    tell_closed-Closed c true =
        k.of_bind _ _ (send_ctl-Closed c shutdown 3)
          (λ a. k.of_bind _ _ (send_ctl-Closed c rst 0) (λ b. k.of_pure tt))

    module _ (id : ℕ) where
      flushed-Closed :
          (n : ℕ) (head : List ℕ) (rest : List (List ℕ)) (loop : M Vsock Bool)
          → K Bool loop
          → (sent : Bool) → K Bool (flushed id n head rest loop sent)
      flushed-Closed n head rest loop h true = k.of_bind _ _ (k.of_advance id n _) (λ u. h)
      flushed-Closed n head rest loop h false = k.of_pure true

      flush_round-Closed :
          (loop : M Vsock Bool) (c : Conn) (pieces : List (List ℕ))
          → K Bool loop
          → K Bool (flush_round vr id loop c pieces)
      unfolding flush_round
      flush_round-Closed loop c [] h = k.of_pure true
      flush_round-Closed loop c (head ∷ rest) h =
          let n = min (length head) (credit_available c) in
          if-Closed (credit_available c == 0) (pure true) _ (k.of_pure true) (
            k.of_bind _ _
              (k.of_push vr c.host_port c.guest_port read_write (take n head) 0 c.rx_fwd_cnt)
              (flushed-Closed n head rest loop h))

      flush_loop-Closed : (fuel : ℕ) → K Bool (flush_loop fuel vr id)
      unfolding flush_loop
      flush_loop-Closed zero = k.of_pure false
      flush_loop-Closed (suc fuel) =
          k.of_object id true _ (λ c. flush_round-Closed _ c c.pending (flush_loop-Closed fuel))

      pub flush_connection-Closed : K Bool (flush_connection vr id)
      unfolding flush_connection
      flush_connection-Closed = k.of_object id true _ (λ c.
          if-Closed c.is_open _ _ (flush_loop-Closed (suc (weight c.pending))) (k.of_pure true))
