-- ===== src/Virtio/Console.antt =====
-- runtime/virtio/console-device.ts: a virtio-console of the thread that owns its input and output.
-- The state is the linear memory with the host's cursor into each of the two queues, the input that
-- waits, the output that the sink got, the shared table, and the interrupts in order.
-- A queue's layout, or that it is not set up, is what `vring` gives, and is passed on.
pub mod Input
pub mod Size
use nix_wasm.Prelude.{ℕ, zero, suc, ◌+◌, ◌*◌, ◌%◌, ◌^◌, List, [], ◌∷◌, ◌++◌, Bool, true, false}
use nix_wasm.Prelude.{
  Option, none, some, ltb, ◌==◌, if◌then◌else◌, length, take, drop, get_elem?, replicate,
}
use nix_wasm.Prelude.Bytes.{le_bytes}
use nix_wasm.Virtio.Machine.{M, Queue, Result, ok, ◌>>=◌, ◌>>◌, pure}
use nix_wasm.Virtio.Vring.{Layout, Chain, next_chain, read_out, write_in, in_capacity, push_used}
use nix_wasm.Virtio.Shared.{Words, set_config_size, get_config_size}

abbrev pub receiveq : ℕ
receiveq = 0

abbrev pub transmitq : ℕ
transmitq = 1

abbrev pub config_bytes : ℕ
config_bytes = 12

abbrev pub default_cols : ℕ
default_cols = 80

abbrev pub default_rows : ℕ
default_rows = 24

-- The device's number, its interrupt and the one for a change of its size.
pub record Ports : Type 0 where
  pub dev : ℕ
  pub irq : ℕ
  pub config_irq : Option ℕ

pub record Console : Type 0 where
  pub memory : List ℕ
  pub rx_avail : ℕ
  pub tx_avail : ℕ
  pub pending : List ℕ
  pub sent : List (List ℕ)
  pub words : Words
  pub irqs : List ℕ

abbrev pub on_rx {ℓ} : {A : Type ℓ} → M Queue A → M Console A
on_rx m s =
    let r = m (record { memory = s.memory; last_avail = s.rx_avail }) in
    (r.0, record s { memory = r.1.memory; rx_avail = r.1.last_avail })

abbrev pub on_tx {ℓ} : {A : Type ℓ} → M Queue A → M Console A
on_tx m s =
    let r = m (record { memory = s.memory; last_avail = s.tx_avail }) in
    (r.0, record s { memory = r.1.memory; tx_avail = r.1.last_avail })

abbrev pub on_words {ℓ} : {A : Type ℓ} → M Words A → M Console A
on_words m s = let r = m s.words in (r.0, record s { words = r.1 })

abbrev pub raise : ℕ → M Console (Unit {0})
raise irq s = (ok tt, record s { irqs = s.irqs ++ (irq ∷ []) })

-- `if (bytes.length && this.sink) this.sink(bytes)`, with a sink.
abbrev pub to_sink : List ℕ → M Console (Unit {0})
to_sink [] s = (ok tt, s)
to_sink (b ∷ bytes) s = (ok tt, record s { sent = s.sent ++ ((b ∷ bytes) ∷ []) })

abbrev pub set_pending : List ℕ → M Console (Unit {0})
set_pending bytes s = (ok tt, record s { pending = bytes })

-- `if (n) this.raiseIrq()`, of a loop that ended.
abbrev pub raise_if : ℕ → Option ℕ → M Console (Option ℕ)
raise_if irq none = pure none
raise_if irq (some zero) = pure (some 0)
raise_if irq (some (suc n)) = do raise irq; pure (some (suc n))

-- The loop of `drainTx` on fuel: `none` means that the fuel ran out.
unfoldable pub tx_loop : ℕ → Layout → ℕ → M Console (Option ℕ)
tx_loop zero l serviced = pure none
tx_loop (suc fuel) l serviced = do
  chain ← on_tx (next_chain l)
  elim chain [
    | none ↦ pure (some serviced)
    | some c ↦ do
      bytes ← on_tx (read_out c)
      to_sink bytes
      on_tx (push_used l c.head 0)
      tx_loop fuel l (serviced + 1)
  ]

unfoldable pub drain_tx : ℕ → Ports → Option Layout → M Console (Option ℕ)
unfolding tx_loop
drain_tx fuel p none = pure (some 0)
drain_tx fuel p (some l) = do served ← tx_loop fuel l 0; raise_if p.irq served

-- A chain with room: as many of the bytes that wait as it takes, and those left. The number written.
unfoldable pub deliver : Layout → Chain → M Console ℕ
deliver l c s =
    (do
      written ← on_rx (write_in c (take (in_capacity c) s.pending))
      on_rx (push_used l c.head written)
      set_pending (drop written s.pending)
      pure written)
      s

-- One round of the loop of `flushRx`: a chain without room is given back, and `rest` goes on with the
-- bytes that are delivered so far.
unfoldable pub rx_round :
    Layout → ℕ → (ℕ → M Console (Option ℕ)) → Option Chain → M Console (Option ℕ)
unfolding deliver
rx_round l delivered rest none = pure (some delivered)
rx_round l delivered rest (some c) =
    if in_capacity c == 0
    then (do on_rx (push_used l c.head 0); rest delivered)
    else (do written ← deliver l c; rest (delivered + written))

-- The loop of `flushRx` on fuel: how many bytes were delivered.
unfoldable pub rx_loop : ℕ → Layout → ℕ → M Console (Option ℕ)
unfolding rx_round
rx_loop zero l delivered s = (ok none, s)
rx_loop (suc fuel) l delivered s =
    if length s.pending == 0
    then (ok (some delivered), s)
    else (do chain ← on_rx (next_chain l); rx_round l delivered (rx_loop fuel l) chain) s

unfoldable pub flush_rx : ℕ → Ports → Option Layout → M Console (Option ℕ)
unfolding rx_loop
flush_rx fuel p none = pure (some 0)
flush_rx fuel p (some l) = do delivered ← rx_loop fuel l 0; raise_if p.irq delivered

-- The bytes go behind those that wait, and as many are delivered as fit now.
unfoldable pub push_rx : ℕ → Ports → Option Layout → List ℕ → M Console (Option ℕ)
unfolding flush_rx
push_rx fuel p vr bytes s = flush_rx fuel p vr (record s { pending = s.pending ++ bytes })

-- `onNotify` where the kicks are not forwarded.
unfoldable pub on_notify : ℕ → Ports → Option Layout → ℕ → M Console (Option ℕ)
unfolding drain_tx flush_rx
on_notify fuel p vr q =
    if q == transmitq
    then drain_tx fuel p vr
    else if q == receiveq
    then flush_rx fuel p vr
    else pure (some 0)

abbrev pub or_default : ℕ → ℕ → ℕ
or_default v d = if v == 0 then d else v

-- struct virtio_console_config: columns, rows and zeros.
abbrev pub config_of : ℕ × ℕ → List ℕ
config_of size =
    le_bytes 2 (or_default size.0 default_cols)
    ++ (le_bytes 2 (or_default size.1 default_rows) ++ replicate 8 0)

-- `n` bytes of the configuration from `offset` on, zeros behind it.
unfoldable pub slice_config : List ℕ → ℕ → ℕ → List ℕ
slice_config cfg offset zero = []
slice_config cfg offset (suc n) =
    (elim (get_elem? cfg offset) [ none ↦ 0 | some b ↦ b ]) ∷ slice_config cfg (offset + 1) n

unfoldable pub config_read : Ports → ℕ → ℕ → M Console (List ℕ)
unfolding slice_config
config_read p offset n = do
  size ← on_words (get_config_size p.dev)
  pure (slice_config (config_of size) offset n)

-- `if (this.configIrq != null) this._raise(...)`
abbrev pub tell : Option ℕ → M Console (Unit {0})
tell none = pure tt
tell (some irq) = raise irq

-- The size is stored before the interrupt. `v >>> 0` is the low 32 bits.
unfoldable pub set_size : Ports → ℕ → ℕ → M Console (Unit {0})
set_size p cols rows = do
  on_words (set_config_size p.dev (cols % 2 ^ 32) (rows % 2 ^ 32))
  tell p.config_irq
