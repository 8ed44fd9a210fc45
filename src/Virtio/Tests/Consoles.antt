-- ===== src/Virtio/Tests/Consoles.antt =====
-- The console with number 8, in the memory of a ring with one buffer of four bytes.
use nix_wasm.Prelude.{ℕ, [], ◌∷◌, ◌++◌, ◌≡◌, refl, arith, some, length-replicate}
use nix_wasm.Prelude.Number.{to_number}
use nix_wasm.Prelude.Bytes.{le_bytes}
use nix_wasm.Virtio.Machine.{ok, get_uint, set_uint, read_bytes, write_bytes}
use nix_wasm.Virtio.Vring.{
  next_chain, pop, read_chain, chain_loop, read_descriptor, write_in, fill, fill_segments, capacity,
  in_capacity, push_used,
}
use nix_wasm.Virtio.Shared.{make_shared_queues}
use nix_wasm.Virtio.Shared.Slots.{IsTable}
use nix_wasm.Virtio.Console.{
  Console, Ports, push_rx, flush_rx, rx_loop, rx_round, deliver, set_size, config_read,
}
use nix_wasm.Virtio.Console.Input.{rx_of, Advances, push_rx-Advances}
use nix_wasm.Virtio.Console.Size.{config_read-set_size}
use nix_wasm.Virtio.Tests.Rings.{layout, ring}

abbrev ports : Ports
ports = record { dev = 8; irq = 16; config_irq = some 24 }

abbrev console : Console
console = record {
  memory = ring.memory;
  rx_avail = 0;
  tx_avail = 0;
  pending = [];
  sent = [];
  words = make_shared_queues;
  irqs = [];
}

empty : IsTable make_shared_queues
unfolding make_shared_queues
empty = length-replicate {A = ℕ} _ 0

-- Of five bytes the buffer takes four, one waits, and the guest is interrupted.
five_pushed :
    ((push_rx 5 ports (some layout) (1 ∷ 2 ∷ 3 ∷ 4 ∷ 5 ∷ []) console).0 ≡ ok (some 4))
    × ((push_rx 5 ports (some layout) (1 ∷ 2 ∷ 3 ∷ 4 ∷ 5 ∷ []) console).1.pending ≡ 5 ∷ [])
    × ((push_rx 5 ports (some layout) (1 ∷ 2 ∷ 3 ∷ 4 ∷ 5 ∷ []) console).1.irqs ≡ 16 ∷ [])
unfolding push_rx flush_rx rx_loop rx_round deliver next_chain pop read_chain chain_loop
    read_descriptor get_uint set_uint read_bytes write_bytes to_number write_in fill fill_segments
    capacity in_capacity push_used
five_pushed = (refl, refl, refl)

push_rx-Advances_example :
    Advances
      (some layout)
      (1 ∷ 2 ∷ 3 ∷ 4 ∷ 5 ∷ [])
      0
      (rx_of console)
      (push_rx 5 ports (some layout) (1 ∷ 2 ∷ 3 ∷ 4 ∷ 5 ∷ []) console)
push_rx-Advances_example = push_rx-Advances 5 ports (some layout) (1 ∷ 2 ∷ 3 ∷ 4 ∷ 5 ∷ []) console

config_read-set_size_example :
    (config_read ports 0 4 (set_size ports 132 50 console).1).0
    ≡ ok (le_bytes 2 132 ++ le_bytes 2 50)
config_read-set_size_example =
    config_read-set_size ports 132 50 console (omega arith) empty (omega arith) (omega arith)
      (omega arith) (omega arith)
