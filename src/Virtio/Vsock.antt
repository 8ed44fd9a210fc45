-- ===== src/Virtio/Vsock.antt =====
-- runtime/virtio/vsock-device.ts: the vsock device of the thread that owns its sockets. The connection
-- objects are a heap, since the host keeps one after the device forgot it; the map of the connections
-- holds their addresses, in the order in which they were entered. What the callbacks of the host get is
-- logged, in order. A queue's layout, or that it is not set up, is what `vring` gives, and is passed on.
pub mod Send
pub mod Protocol
pub mod Heap
pub mod Packets
pub mod Sent
pub mod Flow
pub mod Table
pub mod Closed
pub mod Invariant
pub mod Preserved
pub mod Leaves
pub mod Lifecycle
pub mod States
pub mod Streams
use nix_wasm.Prelude.{ℕ, zero, suc, ◌+◌, ◌-◌, ◌*◌, ◌/◌, ◌%◌, ◌^◌, List, [], ◌∷◌, ◌++◌}
use nix_wasm.Prelude.{
  Bool, true, false, not, ◌&&◌, ◌||◌, Option, none, some, ltb, leb, ◌==◌, if◌then◌else◌, length,
  take, drop, get_elem?,
}
use nix_wasm.Prelude.Bytes.{le_bytes, from_le}
use nix_wasm.Virtio.Machine.{M, Queue, Result, ok, fault, ◌>>=◌, ◌>>◌, pure}
use nix_wasm.Virtio.Vring.{Layout, Chain, next_chain, read_out, write_in, in_capacity, push_used}

abbrev pub header_len : ℕ
header_len = 44

abbrev pub cid_host : ℕ
cid_host = 2

abbrev pub type_stream : ℕ
type_stream = 1

abbrev pub host_buf_alloc : ℕ
host_buf_alloc = 256 * 1024

pub data Op : Type 0 where
  request response rst shutdown read_write credit_update credit_request : Op

abbrev pub op_code : Op → ℕ
op_code request = 1
op_code response = 2
op_code rst = 3
op_code shutdown = 4
op_code read_write = 5
op_code credit_update = 6
op_code credit_request = 7

-- The `switch` on a packet's number, any other being logged.
abbrev pub op_of : ℕ → Option Op
op_of n =
    if n == 1
    then some request
    else if n == 2
    then some response
    else if n == 3
    then some rst
    else if n == 4
    then some shutdown
    else if n == 5
    then some read_write
    else if n == 6
    then some credit_update
    else if n == 7
    then some credit_request
    else none

pub record Header : Type 0 where
  pub src_cid : ℕ
  pub dst_cid : ℕ
  pub src_port : ℕ
  pub dst_port : ℕ
  pub len : ℕ
  pub kind : ℕ
  pub op : ℕ
  pub flags : ℕ
  pub buf_alloc : ℕ
  pub fwd_cnt : ℕ

-- The number in `n` bytes at an offset.
abbrev field_at : List ℕ → ℕ → ℕ → ℕ
field_at pkt off n = from_le (take n (drop off pkt))

unfoldable pub decode_hdr : List ℕ → Header
decode_hdr pkt = record {
  src_cid = field_at pkt 0 8;
  dst_cid = field_at pkt 8 8;
  src_port = field_at pkt 16 4;
  dst_port = field_at pkt 20 4;
  len = field_at pkt 24 4;
  kind = field_at pkt 28 2;
  op = field_at pkt 30 2;
  flags = field_at pkt 32 4;
  buf_alloc = field_at pkt 36 4;
  fwd_cnt = field_at pkt 40 4;
}

-- The bytes that the setters of `_pushRx` leave in the packet's header.
unfoldable pub encode_hdr : Header → List ℕ
encode_hdr h =
    le_bytes 8 h.src_cid
    ++ (le_bytes 8 h.dst_cid
        ++ (le_bytes 4 h.src_port
            ++ (le_bytes 4 h.dst_port
                ++ (le_bytes 4 h.len
                    ++ (le_bytes 2 h.kind
                        ++ (le_bytes 2 h.op
                            ++ (le_bytes 4 h.flags
                                ++ (le_bytes 4 h.buf_alloc ++ le_bytes 4 h.fwd_cnt))))))))

pub record Conn : Type 0 where
  pub host_port : ℕ
  pub guest_port : ℕ
  pub is_open : Bool
  pub peer_buf_alloc : ℕ
  pub peer_fwd_cnt : ℕ
  pub tx_cnt : ℕ
  pub rx_fwd_cnt : ℕ
  pub pending : List (List ℕ)

abbrev pub new_conn : ℕ → ℕ → Conn
new_conn host guest = record {
  host_port = host % 2 ^ 32;
  guest_port = guest % 2 ^ 32;
  is_open = true;
  peer_buf_alloc = 0;
  peer_fwd_cnt = 0;
  tx_cnt = 0;
  rx_fwd_cnt = 0;
  pending = [];
}

-- `(txCnt - peerFwdCnt) >>> 0`, of two counters below 2 ^ 32.
abbrev pub in_flight : Conn → ℕ
in_flight c = (c.tx_cnt + (2 ^ 32 - c.peer_fwd_cnt)) % 2 ^ 32

unfoldable pub credit_available : Conn → ℕ
credit_available c = c.peer_buf_alloc - in_flight c

-- What the host's callbacks get: an object is named by its address.
pub data Event : Type 0 where
  connected : ℕ → ℕ → Event
  received : ℕ → List ℕ → Event
  closed : ℕ → Event

-- An entry of the map: the two ports, and the object.
pub record Entry : Type 0 where
  pub host : ℕ
  pub guest : ℕ
  pub object : ℕ

pub record Vsock : Type 0 where
  pub memory : List ℕ
  pub rx_avail : ℕ
  pub tx_avail : ℕ
  pub guest_cid : ℕ
  pub listeners : List ℕ
  pub heap : List Conn
  pub conns : List Entry
  pub next_host_port : ℕ
  pub events : List Event
  pub irqs : ℕ
