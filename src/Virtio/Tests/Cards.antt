-- ===== src/Virtio/Tests/Cards.antt =====
-- A network card with one receive buffer of 16 bytes.
use nix_wasm.Prelude.{ℕ, List, [], ◌∷◌, ◌≡◌, refl, arith, leb}
use nix_wasm.Prelude.Number.{to_number}
use nix_wasm.Virtio.Machine.{Queue, ok, get_uint, read_bytes}
use nix_wasm.Virtio.Machine.Laws.{peek}
use nix_wasm.Virtio.Vring.{Descriptor, read_descriptor, capacity}
use nix_wasm.Virtio.Vring.Walk.{Walk, writable}
use nix_wasm.Virtio.Vring.Order.{advanced, next_head}
use nix_wasm.Virtio.Vring.Used.{Published}
use nix_wasm.Virtio.Net.{offer}
use nix_wasm.Virtio.Net.Receive.{Offered, offer_lem, laid_out, used_len}
use nix_wasm.Virtio.Tests.Rings.{layout}

abbrev posted : Queue
posted = record {
  memory =
      36 ∷ 0 ∷ 0 ∷ 0 ∷ 0 ∷ 0 ∷ 0 ∷ 0 ∷ 16 ∷ 0 ∷ 0 ∷ 0 ∷ 2 ∷ 0 ∷ 0 ∷ 0 ∷ 0 ∷ 0 ∷ 1 ∷ 0 ∷ 0 ∷ 0 ∷ 0
      ∷ 0 ∷ 0 ∷ 0 ∷ 0 ∷ 0 ∷ 0 ∷ 0 ∷ 0 ∷ 0 ∷ 0 ∷ 0 ∷ 0 ∷ 0 ∷ 9 ∷ 9 ∷ 9 ∷ 9 ∷ 9 ∷ 9 ∷ 9 ∷ 9 ∷ 9 ∷ 9
      ∷ 9 ∷ 9 ∷ 9 ∷ 9 ∷ 9 ∷ 9 ∷ [];
  last_avail = 0;
}

abbrev buffer : Descriptor
buffer = record { segment = record { addr = 36; len = 16 }; flags = 2; next_index = 0 }

abbrev frame : List ℕ
frame = 1 ∷ 2 ∷ 3 ∷ []

offered : Offered layout posted (buffer ∷ [])
unfolding read_descriptor get_uint read_bytes to_number peek
offered = record {
  avail_fits = record { positive = omega arith; in_memory = omega arith };
  used_fits = record { positive = omega arith; in_memory = omega arith };
  walk = Walk.last refl refl;
  waits = omega arith;
  short = omega arith;
  inside = (omega arith, tt);
  head_fits = omega arith;
}

offer_lem_example :
    let fits = leb 15 (capacity (writable (buffer ∷ []))) in
    (after : List ℕ) × (offer layout frame posted
      ≡ (ok fits, record (advanced posted) { memory = after }))
    × Published layout
        (next_head layout posted)
        (used_len fits frame)
        (laid_out fits posted.memory (writable (buffer ∷ [])) frame)
        after
offer_lem_example =
    offer_lem layout posted (buffer ∷ []) frame offered
      (omega arith, (omega arith, (omega arith, tt))) (omega arith)
