-- ===== src/Virtio/Vsock/Send.antt =====
-- What runtime/virtio/vsock-device.ts puts into the guest's receive queue: packets, and the bytes of a
-- connection that wait, within the window that the guest gave.
use nix_wasm.Prelude.{ℕ, zero, suc, ◌+◌, ◌%◌, ◌^◌, List, [], ◌∷◌, ◌++◌}
use nix_wasm.Prelude.{
  Bool, true, false, not, ◌&&◌, Option, none, some, ltb, leb, ◌==◌, if◌then◌else◌, length, take,
  drop, get_elem?,
}
use nix_wasm.Virtio.Machine.{M, Queue, ok, ◌>>=◌, ◌>>◌, pure}
use nix_wasm.Virtio.Vring.{Layout, Chain, next_chain, write_in, in_capacity, push_used}
use nix_wasm.Virtio.Vsock.{
  cid_host, type_stream, host_buf_alloc, Op, rst, shutdown, read_write, op_code, encode_hdr, Conn,
  credit_available, Event, closed, Entry, Vsock,
}

abbrev pub on_rx {ℓ} : {A : Type ℓ} → M Queue A → M Vsock A
on_rx m s =
    let r = m (record { memory = s.memory; last_avail = s.rx_avail }) in
    (r.0, record s { memory = r.1.memory; rx_avail = r.1.last_avail })

abbrev pub raise_irq : M Vsock (Unit {0})
raise_irq s = (ok tt, record s { irqs = s.irqs + 1 })

abbrev pub log_event : Event → M Vsock (Unit {0})
log_event e s = (ok tt, record s { events = s.events ++ (e ∷ []) })

-- The element at an index, changed.
abbrev pub update {ℓ} : {A : Type ℓ} → List A → ℕ → (A → A) → List A
update [] i f = []
update (x ∷ xs) zero f = f x ∷ xs
update (x ∷ xs) (suc i) f = x ∷ update xs i f

abbrev pub modify : ℕ → (Conn → Conn) → M Vsock (Unit {0})
modify id f s = (ok tt, record s { heap = update s.heap id f })

-- An action on the object at an address; an address that the heap does not have names no object.
abbrev pub at_object {ℓ} : {A : Type ℓ} → Option Conn → A → (Conn → M Vsock A) → M Vsock A
at_object none missing f = pure missing
at_object (some c) missing f = f c

abbrev pub with_object {ℓ} : {A : Type ℓ} → ℕ → A → (Conn → M Vsock A) → M Vsock A
with_object id missing f s = at_object (get_elem? s.heap id) missing f s

-- The header and the payload of a packet to the guest, `fwd_cnt` being 0 without a connection.
unfoldable pub packet : ℕ → ℕ → ℕ → Op → List ℕ → ℕ → ℕ → List ℕ
packet guest_cid src_port dst_port op payload flags fwd_cnt =
    encode_hdr (record {
      src_cid = cid_host;
      dst_cid = guest_cid;
      src_port = src_port % 2 ^ 32;
      dst_port = dst_port % 2 ^ 32;
      len = length payload;
      kind = type_stream;
      op = op_code op;
      flags = flags;
      buf_alloc = host_buf_alloc;
      fwd_cnt = fwd_cnt % 2 ^ 32;
    })
    ++ payload

-- What `_pushRx` does with the chain: a buffer that is too small is given back.
unfoldable pub fill_chain : Layout → List ℕ → Chain → M Queue Bool
fill_chain l pkt c =
    if ltb (in_capacity c) (length pkt)
    then (do push_used l c.head 0; pure false)
    else (do written ← write_in c pkt; push_used l c.head written; pure true)

abbrev pub fill_next : Layout → List ℕ → Option Chain → M Queue Bool
fill_next l pkt none = pure false
fill_next l pkt (some c) = fill_chain l pkt c

unfoldable pub offer : Layout → List ℕ → M Queue Bool
unfolding fill_chain
offer l pkt = do chain ← next_chain l; fill_next l pkt chain

abbrev pub raise_if : Bool → M Vsock Bool
raise_if true = do raise_irq; pure true
raise_if false = pure false

abbrev pub push_to : Option Layout → List ℕ → M Vsock Bool
push_to none pkt = pure false
push_to (some l) pkt = do taken ← on_rx (offer l pkt); raise_if taken

-- `_pushRx`: whether the packet went to the guest.
unfoldable pub push_rx : Option Layout → ℕ → ℕ → Op → List ℕ → ℕ → ℕ → M Vsock Bool
unfolding packet offer
push_rx vr src_port dst_port op payload flags fwd_cnt s =
    push_to vr (packet s.guest_cid src_port dst_port op payload flags fwd_cnt) s

unfoldable pub send_ctl : Option Layout → Conn → Op → ℕ → M Vsock Bool
unfolding push_rx
send_ctl vr c op flags = push_rx vr c.host_port c.guest_port op [] flags c.rx_fwd_cnt

unfoldable pub send_rst : Option Layout → ℕ → ℕ → M Vsock Bool
unfolding push_rx
send_rst vr host guest = push_rx vr host guest rst [] 0 0

abbrev pub min : ℕ → ℕ → ℕ
min a b = if leb a b then a else b

-- The first `n` bytes of the head are sent.
abbrev pub sent_from : ℕ → List ℕ → List (List ℕ) → List (List ℕ)
sent_from n head rest = if leb (length head) n then rest else (drop n head ∷ rest)

-- What the loop of `_flushConnection` does when `_pushRx` is back.
abbrev pub flushed : ℕ → ℕ → List ℕ → List (List ℕ) → M Vsock Bool → Bool → M Vsock Bool
flushed id n head rest loop false = pure true
flushed id n head rest loop true = do
  modify id (λ c. record c { tx_cnt = (c.tx_cnt + n) % 2 ^ 32; pending = sent_from n head rest })
  loop

-- One round of it, on what waits.
unfoldable pub flush_round : Option Layout → ℕ → M Vsock Bool → Conn → List (List ℕ) → M Vsock Bool
unfolding push_rx credit_available
flush_round vr id loop c [] = pure true
flush_round vr id loop c (head ∷ rest) =
    let n = min (length head) (credit_available c) in
    if credit_available c == 0 then pure true else (do
      sent ← push_rx vr c.host_port c.guest_port read_write (take n head) 0 c.rx_fwd_cnt
      flushed id n head rest loop sent)

-- The loop on fuel: `false` means that the fuel ran out.
unfoldable pub flush_loop : ℕ → Option Layout → ℕ → M Vsock Bool
unfolding flush_round
flush_loop zero vr id = pure false
flush_loop (suc fuel) vr id =
    with_object id true (λ c. flush_round vr id (flush_loop fuel vr id) c c.pending)

-- Each round sends a byte or takes a piece away.
abbrev pub weight : List (List ℕ) → ℕ
weight [] = 0
weight (piece ∷ pieces) = suc (length piece) + weight pieces

unfoldable pub flush_connection : Option Layout → ℕ → M Vsock Bool
unfolding flush_loop
flush_connection vr id =
    with_object id true
      (λ c. if c.is_open then flush_loop (suc (weight c.pending)) vr id else pure true)

-- The map: `get`, `set` and `delete`.
abbrev pub is_key : ℕ → ℕ → Entry → Bool
is_key host guest e = (e.host == host) && (e.guest == guest)

abbrev pub lookup : List Entry → ℕ → ℕ → Option ℕ
lookup [] host guest = none
lookup (e ∷ es) host guest = if is_key host guest e then some e.object else lookup es host guest

abbrev pub insert : List Entry → ℕ → ℕ → ℕ → List Entry
insert [] host guest id = record { host = host; guest = guest; object = id } ∷ []
insert (e ∷ es) host guest id =
    if is_key host guest e then (record e { object = id } ∷ es) else (e ∷ insert es host guest id)

abbrev pub delete : List Entry → ℕ → ℕ → List Entry
delete [] host guest = []
delete (e ∷ es) host guest = if is_key host guest e then es else (e ∷ delete es host guest)

abbrev pub is_some : Option ℕ → Bool
is_some none = false
is_some (some id) = true

abbrev pub has : List Entry → ℕ → ℕ → Bool
has es host guest = is_some (lookup es host guest)

-- SHUTDOWN of both directions and RST, where the guest is to be told.
abbrev pub tell_closed : Option Layout → Conn → Bool → M Vsock (Unit {0})
tell_closed vr c false = pure tt
tell_closed vr c true = do _ ← send_ctl vr c shutdown 3; _ ← send_ctl vr c rst 0; pure tt

abbrev pub forget : ℕ → Conn → M Vsock (Unit {0})
forget id c s = (
  ok tt,
  record s {
    heap = update s.heap id (λ c'. record c' { is_open = false; pending = [] });
    conns = delete s.conns c.host_port c.guest_port;
    events = s.events ++ (closed id ∷ []);
  },
)

unfoldable pub close_object : Option Layout → ℕ → Bool → Conn → M Vsock (Unit {0})
unfolding send_ctl
close_object vr id told c s =
    if not c.is_open && not (has s.conns c.host_port c.guest_port)
    then (ok tt, s)
    else (do tell_closed vr c told; forget id c) s

unfoldable pub close_connection : Option Layout → ℕ → Bool → M Vsock (Unit {0})
unfolding close_object
close_connection vr id told = with_object id tt (close_object vr id told)
