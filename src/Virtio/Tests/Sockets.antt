-- ===== src/Virtio/Tests/Sockets.antt =====
-- A vsock device with a listener, and the packets of a connection to it.
use nix_wasm.Prelude.{ℕ, List, [], ◌∷◌, ◌++◌, ◌≡◌, refl, true, some, drop, replicate, arith, All}
use nix_wasm.Prelude.Bytes.{IsByte, all_bytes, all_bytes_sound}
use nix_wasm.Virtio.Vsock.{header_len, rst, op_of, Header, encode_hdr, decode_hdr, Conn, Vsock}
use nix_wasm.Virtio.Vsock.Protocol.{handle_tx_packet}
use nix_wasm.Virtio.Vsock.Invariant.{WellFormed}
use nix_wasm.Virtio.Vsock.Preserved.{handle_tx_packet-WellFormed}
use nix_wasm.Virtio.Vsock.Lifecycle.{Steps}
use nix_wasm.Virtio.Vsock.States.{handle_tx_packet-Steps}
use nix_wasm.Virtio.Vsock.Streams.{decode_hdr-encode_hdr}
use nix_wasm.Virtio.Tests.Rings.{layout}

-- From port 1025 of the guest to port 80 of the host.
abbrev header : ℕ → Header
header op = record {
  src_cid = 3;
  dst_cid = 2;
  src_port = 1025;
  dst_port = 80;
  len = 0;
  kind = 1;
  op = op;
  flags = 0;
  buf_alloc = 4096;
  fwd_cnt = 0;
}

abbrev request_packet : List ℕ
request_packet =
    3 ∷ 0 ∷ 0 ∷ 0 ∷ 0 ∷ 0 ∷ 0 ∷ 0 ∷ 2 ∷ 0 ∷ 0 ∷ 0 ∷ 0 ∷ 0 ∷ 0 ∷ 0 ∷ 1 ∷ 4 ∷ 0 ∷ 0 ∷ 80 ∷ 0 ∷ 0 ∷ 0
    ∷ 0 ∷ 0 ∷ 0 ∷ 0 ∷ 1 ∷ 0 ∷ 1 ∷ 0 ∷ 0 ∷ 0 ∷ 0 ∷ 0 ∷ 0 ∷ 16 ∷ 0 ∷ 0 ∷ 0 ∷ 0 ∷ 0 ∷ 0 ∷ []

abbrev rst_packet : List ℕ
rst_packet =
    3 ∷ 0 ∷ 0 ∷ 0 ∷ 0 ∷ 0 ∷ 0 ∷ 0 ∷ 2 ∷ 0 ∷ 0 ∷ 0 ∷ 0 ∷ 0 ∷ 0 ∷ 0 ∷ 1 ∷ 4 ∷ 0 ∷ 0 ∷ 80 ∷ 0 ∷ 0 ∷ 0
    ∷ 0 ∷ 0 ∷ 0 ∷ 0 ∷ 1 ∷ 0 ∷ 3 ∷ 0 ∷ 0 ∷ 0 ∷ 0 ∷ 0 ∷ 0 ∷ 16 ∷ 0 ∷ 0 ∷ 0 ∷ 0 ∷ 0 ∷ 0 ∷ []

written : encode_hdr (header 1) ≡ request_packet
unfolding encode_hdr
written = refl

-- A receive queue with one buffer of 64 bytes.
abbrev idle : Vsock
idle = record {
  memory =
      36
      ∷ 0
      ∷ 0
      ∷ 0
      ∷ 0
      ∷ 0
      ∷ 0
      ∷ 0
      ∷ 64
      ∷ 0
      ∷ 0
      ∷ 0
      ∷ 2
      ∷ 0
      ∷ 0
      ∷ 0
      ∷ 0
      ∷ 0
      ∷ 1
      ∷ 0
      ∷ 0
      ∷ 0
      ∷ 0
      ∷ 0
      ∷ 0
      ∷ 0
      ∷ 0
      ∷ 0
      ∷ 0
      ∷ 0
      ∷ 0
      ∷ 0
      ∷ 0
      ∷ 0
      ∷ 0
      ∷ 0
      ∷ replicate 64 9;
  rx_avail = 0;
  tx_avail = 0;
  guest_cid = 3;
  listeners = 80 ∷ [];
  heap = [];
  conns = [];
  next_host_port = 1024;
  events = [];
  irqs = 0;
}

idle-WellFormed : WellFormed idle
idle-WellFormed = record { names = λ host guest id e. cc e; unique = tt; counters = λ id c e. cc e }

request_bytes : All IsByte request_packet
unfolding all_bytes
request_bytes = all_bytes_sound request_packet refl

rst_bytes : All IsByte rst_packet
unfolding all_bytes
rst_bytes = all_bytes_sound rst_packet refl

-- The device with the connection that the REQUEST made.
abbrev met : Vsock
met = (handle_tx_packet (some layout) request_packet idle).1

handle_tx_packet-WellFormed_example : WellFormed met
handle_tx_packet-WellFormed_example =
    handle_tx_packet-WellFormed (some layout) request_packet idle request_bytes idle-WellFormed

is_rst : op_of (decode_hdr rst_packet).op ≡ some rst
unfolding decode_hdr
is_rst = refl

met-WellFormed : WellFormed met
met-WellFormed =
    handle_tx_packet-WellFormed (some layout) request_packet idle request_bytes idle-WellFormed

handle_tx_packet-Steps_example :
    Steps (decode_hdr rst_packet) rst met (handle_tx_packet (some layout) rst_packet met)
handle_tx_packet-Steps_example =
    handle_tx_packet-Steps (some layout) rst_packet rst met met-WellFormed rst_bytes (omega arith)
      is_rst

decode_hdr-encode_hdr_example :
    (decode_hdr (encode_hdr (header 5) ++ (7 ∷ 8 ∷ [])) ≡ header 5)
    × (drop header_len (encode_hdr (header 5) ++ (7 ∷ 8 ∷ [])) ≡ 7 ∷ 8 ∷ [])
decode_hdr-encode_hdr_example = decode_hdr-encode_hdr (header 5) (7 ∷ 8 ∷ []) (record {
  src_cid_fits = omega arith;
  dst_cid_fits = omega arith;
  src_port_fits = omega arith;
  dst_port_fits = omega arith;
  len_fits = omega arith;
  kind_fits = omega arith;
  op_fits = omega arith;
  flags_fits = omega arith;
  buf_alloc_fits = omega arith;
  fwd_cnt_fits = omega arith;
})

-- A window of three bytes, one of them in flight.
abbrev narrow : Conn
narrow = record {
  host_port = 80;
  guest_port = 1025;
  is_open = true;
  peer_buf_alloc = 3;
  peer_fwd_cnt = 4;
  tx_cnt = 5;
  rx_fwd_cnt = 0;
  pending = [];
}

abbrev talking : Vsock
talking = record idle {
  heap = narrow ∷ [];
  conns = record { host = 80; guest = 1025; object = 0 } ∷ [];
}
