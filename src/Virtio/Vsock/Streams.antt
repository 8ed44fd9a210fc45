-- ===== src/Virtio/Vsock/Streams.antt =====
-- A connection of runtime/virtio/vsock-device.ts as a stream to the guest: what `write` does with it, and
-- the headers that carry it.
use nix_wasm.Prelude.{
  ℕ, ◌+◌, ◌^◌, ◌≤◌, ◌<◌, List, [], ◌∷◌, ◌++◌, ◌≡◌, refl, ◌≢◌, Bool, false, Option, some, take, drop,
  get_elem?,
}
use nix_wasm.Prelude.Bytes.{from_le-le_bytes}
use nix_wasm.Virtio.Machine.{Result, ok}
use nix_wasm.Virtio.Vring.{Layout}
use nix_wasm.Virtio.Vsock.{
  header_len, Header, encode_hdr, decode_hdr, Conn, Vsock, in_flight, credit_available,
}
use nix_wasm.Virtio.Vring.Delivery.{flat}
use nix_wasm.Virtio.Vsock.Sent.{Carried}

-- Every field fits its place in the header.
pub record HeaderFits (h : Header) : Type 0 where
  pub src_cid_fits : h.src_cid < 256 ^ 8
  pub dst_cid_fits : h.dst_cid < 256 ^ 8
  pub src_port_fits : h.src_port < 256 ^ 4
  pub dst_port_fits : h.dst_port < 256 ^ 4
  pub len_fits : h.len < 256 ^ 4
  pub kind_fits : h.kind < 256 ^ 2
  pub op_fits : h.op < 256 ^ 2
  pub flags_fits : h.flags < 256 ^ 4
  pub buf_alloc_fits : h.buf_alloc < 256 ^ 4
  pub fwd_cnt_fits : h.fwd_cnt < 256 ^ 4

header_ext :
    (h k : Header)
    → h.src_cid ≡ k.src_cid
    → h.dst_cid ≡ k.dst_cid
    → h.src_port ≡ k.src_port
    → h.dst_port ≡ k.dst_port
    → h.len ≡ k.len
    → h.kind ≡ k.kind
    → h.op ≡ k.op
    → h.flags ≡ k.flags
    → h.buf_alloc ≡ k.buf_alloc
    → h.fwd_cnt ≡ k.fwd_cnt
    → h ≡ k
header_ext h k a b c d e f g i j l = λ t. record {
  src_cid = a t;
  dst_cid = b t;
  src_port = c t;
  dst_port = d t;
  len = e t;
  kind = f t;
  op = g t;
  flags = i t;
  buf_alloc = j t;
  fwd_cnt = l t;
}

-- A header that is written in front of a payload is read back, and the payload stands behind it.
pub decode_hdr-encode_hdr :
    (h : Header) (payload : List ℕ)
    → HeaderFits h
    → (decode_hdr (encode_hdr h ++ payload) ≡ h)
      × (drop header_len (encode_hdr h ++ payload) ≡ payload)
unfolding decode_hdr encode_hdr
decode_hdr-encode_hdr h payload fits = (
  header_ext _ h (from_le-le_bytes 8 h.src_cid fits.src_cid_fits)
      (from_le-le_bytes 8 h.dst_cid fits.dst_cid_fits)
      (from_le-le_bytes 4 h.src_port fits.src_port_fits)
      (from_le-le_bytes 4 h.dst_port fits.dst_port_fits) (from_le-le_bytes 4 h.len fits.len_fits)
      (from_le-le_bytes 2 h.kind fits.kind_fits) (from_le-le_bytes 2 h.op fits.op_fits)
      (from_le-le_bytes 4 h.flags fits.flags_fits)
      (from_le-le_bytes 4 h.buf_alloc fits.buf_alloc_fits)
      (from_le-le_bytes 4 h.fwd_cnt fits.fwd_cnt_fits),
  refl,
)

-- A connection to which `bytes` were written, and of all that waited then `sent` went to the guest, in
-- packets of data that each stand whole in a chain of the receive queue.
pub record Wrote (vr : Option Layout) (id : ℕ) (bytes : List ℕ) (c : Conn) (s : Vsock)
    (r : Result Bool × Vsock) : Type 0 where
  pub sent : ℕ
  pub after : Conn
  pub found : get_elem? r.1.heap id ≡ some after
  pub stream : flat after.pending ≡ drop sent (flat c.pending ++ bytes)
  pub in_window : sent ≤ credit_available c
  pub flying : in_flight after ≡ in_flight c + sent
  pub taken : r.0 ≢ ok false
  pub pieces : List (List ℕ)
  pub bytes_same : flat pieces ≡ take sent (flat c.pending ++ bytes)
  pub carried : Carried vr s.guest_cid c pieces s r

abbrev queued : List ℕ → Conn → Conn
queued bytes c = record c { pending = c.pending ++ (bytes ∷ []) }
