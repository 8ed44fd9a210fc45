-- ===== src/Virtio/Vsock/Lifecycle.antt =====
-- The state machine of a connection of runtime/virtio/vsock-device.ts: a pair of ports is in the map or not,
-- and a packet takes it from one to the other.
use nix_wasm.Prelude.{ℕ, ◌<◌, ◌^◌, ◌/◌, ◌%◌, List, ◌≡◌, refl, ap, ◌∙◌}
use nix_wasm.Prelude.{Bool, true, false, not, ◌&&◌, none, some, ◌==◌}
use nix_wasm.Virtio.Machine.{Result, ok, fault}
use nix_wasm.Virtio.Vsock.{
  Op, request, response, rst, shutdown, read_write, credit_update, credit_request, Header, Entry,
  Vsock,
}
use nix_wasm.Virtio.Vsock.Send.{lookup, delete, is_some, has}
use nix_wasm.Virtio.Vsock.Protocol.{listens}
use nix_wasm.Virtio.Vsock.Table.{Differ, lookup-delete, lookup-delete_other}
use nix_wasm.Virtio.Vsock.Invariant.{WellFormed}

-- What a packet may do to the entry of its ports, `true` being an entry: `listening` on the host's port,
-- `both` bits of a SHUTDOWN, and whether the handler threw.
pub data Step (listening both threw : Bool) : Op → Bool → Bool → Type 0 where
  accepted : (p : Bool) → listening ≡ true → Step listening both threw request p true
  refused : (p : Bool) → listening ≡ false → Step listening both threw request p p
  reset : (p : Bool) → Step listening both threw rst p false
  shut : (p : Bool) → both ≡ true → threw ≡ false → Step listening both threw shutdown p false
  half_shut : (p : Bool) → both ≡ false → Step listening both threw shutdown p p
  not_shut : (p : Bool) → threw ≡ true → Step listening both threw shutdown p p
  answered : (p : Bool) → Step listening both threw response p p
  carried : (p : Bool) → Step listening both threw read_write p p
  updated : (p : Bool) → Step listening both threw credit_update p p
  asked : (p : Bool) → Step listening both threw credit_request p p

abbrev pub threw : Result (Unit {0}) → Bool
threw (ok u) = false
threw (fault e) = true

-- The ports of a packet, and the bits of a SHUTDOWN.
pub record PortsFit (h : Header) : Type 0 where
  pub host_fits : h.dst_port < 2 ^ 32
  pub guest_fits : h.src_port < 2 ^ 32

abbrev pub both_bits : Header → Bool
both_bits h = (h.flags % 2 == 1) && (h.flags / 2 % 2 == 1)

-- Whether the ports of a packet are entered.
abbrev pub entered : Vsock → Header → Bool
entered s h = has s.conns h.dst_port h.src_port

-- What a packet did: a step of its connection, all others being as they were.
pub record Steps (h : Header) (op : Op) (s : Vsock) (r : Result (Unit {0}) × Vsock) : Type 0 where
  pub now : Bool
  pub step : Step (listens s.listeners h.dst_port) (both_bits h) (threw r.0) op (entered s h) now
  pub at_ports : entered r.1 h ≡ now
  pub elsewhere :
      (host guest : ℕ)
      → Differ h.dst_port h.src_port host guest
      → lookup r.1.conns host guest ≡ lookup s.conns host guest

-- A step that leaves the map alone, where it may.
pub same-Steps :
    (h : Header) (op : Op) (s : Vsock) (r : Result (Unit {0}) × Vsock)
    → Step (listens s.listeners h.dst_port) (both_bits h) (threw r.0) op (entered s h) (entered s h)
    → r.1.conns ≡ s.conns
    → Steps h op s r
same-Steps h op s r st e = record {
  now = entered s h;
  step = st;
  at_ports = ap (λ es. has es h.dst_port h.src_port) e;
  elsewhere = λ host guest d. ap (λ es. lookup es host guest) e;
}

pub has-none :
    (es : List Entry) (host guest : ℕ) → lookup es host guest ≡ none → has es host guest ≡ false
has-none es host guest e = ap is_some e

has-some :
    (es : List Entry) (host guest id : ℕ)
    → lookup es host guest ≡ some id
    → has es host guest ≡ true
has-some es host guest id e = ap is_some e

-- The entry of the ports is gone.
pub gone-Steps :
    (h : Header) (op : Op) (s : Vsock) (r : Result (Unit {0}) × Vsock)
    → WellFormed s
    → Step (listens s.listeners h.dst_port) (both_bits h) (threw r.0) op (entered s h) false
    → r.1.conns ≡ delete s.conns h.dst_port h.src_port
    → Steps h op s r
gone-Steps h op s r w st e = record {
  now = false;
  step = st;
  at_ports =
      ap (λ es. has es h.dst_port h.src_port) e
      ∙ has-none _ h.dst_port h.src_port (lookup-delete h.dst_port h.src_port s.conns w.unique);
  elsewhere = λ host guest d.
      ap (λ es. lookup es host guest) e
      ∙ lookup-delete_other h.dst_port h.src_port s.conns host guest d;
}

pub still_there : (o there : Bool) → there ≡ true → (not o && not there) ≡ false
still_there true true e = refl
still_there false true e = refl
still_there o false e = cc e
