-- ===== src/Virtio/Tests/Rings.antt =====
-- A ring with one descriptor, in a memory of 40 bytes.
use nix_wasm.Prelude.{
  ℕ, ◌+◌, List, [], ◌∷◌, ◌++◌, ◌≡◌, refl, arith, some, none, if◌then◌else◌, ◌==◌, leb, length, take,
  drop,
}
use nix_wasm.Prelude.Number.{to_number}
use nix_wasm.Virtio.Machine.{Queue, ok, fault, chain_too_long, ◌>>=◌, get_uint, read_bytes}
use nix_wasm.Virtio.Machine.Laws.{peek}
use nix_wasm.Virtio.Vring.{
  Layout, Segment, Chain, Descriptor, read_descriptor, read_chain, chain_loop, next_chain, pop,
  push_used, write_in, read_out, in_capacity, capacity,
}
use nix_wasm.Virtio.Vring.Walk.{Walk, read_chain-Walk}
use nix_wasm.Virtio.Vring.Used.{UsedFits, Published, push_used-Published}
use nix_wasm.Virtio.Vring.Order.{
  AvailFits, next_head, guest_idx, advanced, waiting, next_chain-Walk, next_chain-waiting,
}
use nix_wasm.Virtio.Vring.Transfer.{write_in_lem, read_out-write_in}
use nix_wasm.Virtio.Vring.Copy.{gather, pour}

abbrev pub layout : Layout
layout = record { desc = 0; avail = 16; used = 24; num = 1 }

-- The descriptor of a buffer of four bytes at 36 that the device writes, one head in the avail ring
-- and an empty used ring.
abbrev pub ring : Queue
ring = record {
  memory =
      36 ∷ 0 ∷ 0 ∷ 0 ∷ 0 ∷ 0 ∷ 0 ∷ 0 ∷ 4 ∷ 0 ∷ 0 ∷ 0 ∷ 2 ∷ 0 ∷ 0 ∷ 0 ∷ 0 ∷ 0 ∷ 1 ∷ 0 ∷ 0 ∷ 0 ∷ 0 ∷ 0
      ∷ 0 ∷ 0 ∷ 0 ∷ 0 ∷ 0 ∷ 0 ∷ 0 ∷ 0 ∷ 0 ∷ 0 ∷ 0 ∷ 0 ∷ 9 ∷ 9 ∷ 9 ∷ 9 ∷ [];
  last_avail = 0;
}

abbrev two : List ℕ
two = 1 ∷ 2 ∷ []

abbrev buffer : Segment
buffer = record { addr = 36; len = 4 }

abbrev descriptor : Descriptor
descriptor = record { segment = buffer; flags = 2; next_index = 0 }

abbrev chain : Chain
chain = record { head = 0; outs = []; ins = buffer ∷ [] }

walk : Walk layout ring 0 (descriptor ∷ [])
unfolding read_descriptor get_uint read_bytes to_number
walk = Walk.last refl refl

walk_of_head : Walk layout ring (next_head layout ring) (descriptor ∷ [])
unfolding peek
walk_of_head = walk

avail_fits : AvailFits layout ring
avail_fits = record { positive = omega arith; in_memory = omega arith }

used_fits : UsedFits layout ring
used_fits = record { positive = omega arith; in_memory = omega arith }

popped : next_chain layout ring ≡ (ok (some chain), advanced ring)
unfolding next_chain pop read_chain chain_loop read_descriptor get_uint read_bytes to_number
popped = refl

read_chain-Walk_example : read_chain layout 0 ring ≡ (ok ([], buffer ∷ []), ring)
read_chain-Walk_example = read_chain-Walk layout ring walk

next_chain-Walk_example : next_chain layout ring ≡ (
    if 0 == guest_idx layout ring
    then (ok none, ring)
    else if leb 1 2
    then (
      ok (some (record { head = next_head layout ring; outs = []; ins = buffer ∷ [] })),
      advanced ring,
    )
    else (fault chain_too_long, ring))
next_chain-Walk_example = next_chain-Walk layout ring avail_fits walk_of_head

next_chain-waiting_example :
    (0 ≡ next_head layout ring)
    × ((advanced ring).memory ≡ ring.memory)
    × (waiting layout (advanced ring) + 1 ≡ waiting layout ring)
next_chain-waiting_example =
    next_chain-waiting layout ring (advanced ring) chain avail_fits (omega arith)
      (unfold peek in omega arith) popped

push_used-Published_example :
    (after : List ℕ) × (push_used layout 0 4 ring ≡ (ok tt, record ring { memory = after }))
    × Published layout 0 4 ring.memory after
push_used-Published_example =
    push_used-Published layout 0 4 ring used_fits (omega arith) (omega arith)

read_out-write_in_example :
    ((do n ← write_in chain two; read_out (record chain { outs = buffer ∷ [] })) ring).0
    ≡ ok (take (in_capacity chain) two ++ drop 2 (gather ring.memory (buffer ∷ [])))
read_out-write_in_example =
    read_out-write_in chain (record chain { outs = buffer ∷ [] }) two ring refl (omega arith, tt)
      (tt, tt) (omega arith, (omega arith, tt))

write_in_lem_example : write_in chain two ring ≡ (
  ok (length (take (capacity (buffer ∷ [])) two)),
  record ring { memory = pour ring.memory (buffer ∷ []) two },
)
write_in_lem_example =
    write_in_lem chain two ring (omega arith, tt) (omega arith, (omega arith, tt))
