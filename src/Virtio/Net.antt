-- ===== src/Virtio/Net.antt =====
-- runtime/virtio/net-device.ts: the guest's network card. A queue's layout, or that it is not set up,
-- is what `vring` gives, and is passed on.
pub mod Receive
use nix_wasm.Prelude.{ℕ, zero, suc, ◌+◌, ◌-◌, ◌^◌, List, [], ◌∷◌, ◌++◌, Bool, true, false}
use nix_wasm.Prelude.{
  Option, none, some, ltb, ◌==◌, if◌then◌else◌, length, drop, get_elem?, replicate,
}
use nix_wasm.Virtio.Machine.{M, Queue, Result, ok, ◌>>=◌, ◌>>◌, pure}
use nix_wasm.Virtio.Vring.{Layout, Chain, next_chain, read_out, write_in, in_capacity, push_used}

abbrev pub header_len : ℕ
header_len = 12

abbrev pub receive : ℕ
receive = 0

abbrev pub transmit : ℕ
transmit = 1

-- VIRTIO_NET_F_MAC | VIRTIO_NET_F_STATUS
abbrev pub features : ℕ
features = 2 ^ 5 + 2 ^ 16

-- The card: the linear memory, the cursor into each queue, the frames that the sink got, and the
-- interrupts, counted. `mac` and `link_up` are what the configuration shows.
pub record Net : Type 0 where
  pub memory : List ℕ
  pub rx_avail : ℕ
  pub tx_avail : ℕ
  pub sent : List (List ℕ)
  pub has_sink : Bool
  pub mac : List ℕ
  pub link_up : Bool
  pub irqs : ℕ

abbrev pub on_rx {ℓ} : {A : Type ℓ} → M Queue A → M Net A
on_rx m s =
    let r = m (record { memory = s.memory; last_avail = s.rx_avail }) in
    (r.0, record s { memory = r.1.memory; rx_avail = r.1.last_avail })

abbrev pub on_tx {ℓ} : {A : Type ℓ} → M Queue A → M Net A
on_tx m s =
    let r = m (record { memory = s.memory; last_avail = s.tx_avail }) in
    (r.0, record s { memory = r.1.memory; tx_avail = r.1.last_avail })

abbrev pub raise_irq : M Net (Unit {0})
raise_irq s = (ok tt, record s { irqs = s.irqs + 1 })

-- The byte at an offset of the configuration: the MAC, the link's state, and zeros.
abbrev config_byte : Net → ℕ → ℕ
config_byte s o =
    if ltb o 6
    then (elim (get_elem? s.mac o) [ none ↦ 0 | some b ↦ b ])
    else if o == 6
    then (if s.link_up then 1 else 0)
    else 0

pub config_read : Net → ℕ → ℕ → List ℕ
config_read s offset zero = []
config_read s offset (suc n) = config_byte s offset ∷ config_read s (offset + 1) n

pub set_link_up : Bool → Net → Net
set_link_up up s = record s { link_up = up }

-- `if (frame.length && this._sink) this._sink(frame)`
abbrev pub to_sink : List ℕ → M Net (Unit {0})
to_sink [] s = (ok tt, s)
to_sink (b ∷ frame) s =
    (ok tt, if s.has_sink then record s { sent = s.sent ++ ((b ∷ frame) ∷ []) } else s)

-- The frame behind the header; nothing where the buffer is not longer than the header.
abbrev pub frame_of : List ℕ → List ℕ
frame_of buf = if ltb header_len (length buf) then drop header_len buf else []

-- The loop of `onNotify` on fuel: `none` means that the fuel ran out.
unfoldable pub tx_loop : ℕ → Layout → ℕ → M Net (Option ℕ)
tx_loop zero l serviced = pure none
tx_loop (suc fuel) l serviced = do
  chain ← on_tx (next_chain l)
  elim chain [
    | none ↦ pure (some serviced)
    | some c ↦ do
      buf ← on_tx (read_out c)
      to_sink (frame_of buf)
      on_tx (push_used l c.head 0)
      tx_loop fuel l (serviced + 1)
  ]

abbrev after_loop : Option ℕ → M Net (Option ℕ)
after_loop none = pure none
after_loop (some zero) = pure (some 0)
after_loop (some (suc n)) = do raise_irq; pure (some (suc n))

abbrev drain : ℕ → Option Layout → M Net (Option ℕ)
drain fuel none = pure (some 0)
drain fuel (some l) = do served ← tx_loop fuel l 0; after_loop served

unfoldable pub on_notify : ℕ → Option Layout → ℕ → M Net (Option ℕ)
unfolding tx_loop
on_notify fuel vr q = if q == transmit then drain fuel vr else pure (some 0)

-- A header of zeros, and the frame.
abbrev pub packet : List ℕ → List ℕ
packet frame = replicate header_len 0 ++ frame

-- What `pushRx` does with the chain: whether the frame went in.
unfoldable pub fill_chain : Layout → List ℕ → Chain → M Queue Bool
fill_chain l frame c =
    if ltb (in_capacity c) (header_len + length frame)
    then (do push_used l c.head 0; pure false)
    else (do written ← write_in c (packet frame); push_used l c.head written; pure true)

abbrev pub fill_next : Layout → List ℕ → Option Chain → M Queue Bool
fill_next l frame none = pure false
fill_next l frame (some c) = fill_chain l frame c

-- The queue's part of `pushRx`.
unfoldable pub offer : Layout → List ℕ → M Queue Bool
unfolding fill_chain
offer l frame = do chain ← next_chain l; fill_next l frame chain

abbrev raise_if : Bool → M Net Bool
raise_if true = do raise_irq; pure true
raise_if false = pure false

abbrev push_to : Option Layout → List ℕ → M Net Bool
push_to none frame = pure false
push_to (some l) frame = do taken ← on_rx (offer l frame); raise_if taken

unfoldable pub push_rx : Option Layout → List ℕ → M Net Bool
unfolding offer
push_rx vr frame = push_to vr frame
