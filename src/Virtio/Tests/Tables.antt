-- ===== src/Virtio/Tests/Tables.antt =====
-- An empty table of queues, and a layout that is put into it.
use nix_wasm.Prelude.{ℕ, ◌+◌, ◌%◌, ◌^◌, ◌≡◌, ◌≢◌, inr, refl, arith, some, none, length-replicate}
use nix_wasm.Virtio.Machine.{ok, ◌>>◌}
use nix_wasm.Prelude.{◌<◌, [], ◌∷◌}
use nix_wasm.Virtio.Machine.{M, Queue, get_uint, read_bytes}
use nix_wasm.Virtio.Shared.{max_qs}
use nix_wasm.Virtio.Device.{Device, Host, setup_queue, with_ring, reset}
use nix_wasm.Virtio.Device.Rings.{with_ring-setup_queue, get-reset}
use nix_wasm.Virtio.Vring.{Layout}
use nix_wasm.Virtio.Shared.{
  make_shared_queues, set, get, load_last_avail, store_last_avail, set_config_size, get_config_size,
}
use nix_wasm.Virtio.Shared.Slots.{IsTable, HasSlot, LayoutFits, get-set, get-set_apart}
use nix_wasm.Virtio.Shared.Cursor.{load-store_last_avail, get-set_config_size}

abbrev layout : Layout
layout = record { desc = 2 ^ 33 + 16; avail = 272; used = 320; num = 16 }

empty : IsTable make_shared_queues
unfolding make_shared_queues
empty = length-replicate {A = ℕ} _ 0

slot : HasSlot 3 0
slot = record { dev_lt = omega arith; q_lt = omega arith }

fits : LayoutFits layout
fits = record {
  desc_fits = omega arith;
  avail_fits = omega arith;
  used_fits = omega arith;
  num_fits = omega arith;
}

get-set_example :
    (((do set 3 0 (2 ^ 33 + 16) 272 320 16; get 3 0) make_shared_queues).0 ≡ ok (some layout))
    × (((do set 3 0 (2 ^ 33 + 16) 272 320 16; load_last_avail 3 0) make_shared_queues).0 ≡ ok 0)
get-set_example = get-set 3 0 layout make_shared_queues slot empty fits

get-set_apart_example :
    ((get 3 1 (set 3 0 16 272 320 16 make_shared_queues).1).0 ≡ (get 3 1 make_shared_queues).0)
    × ((load_last_avail 3 1 (set 3 0 16 272 320 16 make_shared_queues).1).0
        ≡ (load_last_avail 3 1 make_shared_queues).0)
    × ((d : ℕ)
        → (get_config_size d (set 3 0 16 272 320 16 make_shared_queues).1).0
          ≡ (get_config_size d make_shared_queues).0)
get-set_apart_example =
    get-set_apart 3 0 3 1 16 272 320 16 make_shared_queues slot
      (record { dev_lt = omega arith; q_lt = omega arith }) empty (inr (omega arith))

load-store_last_avail_example :
    (((do store_last_avail 3 0 65537; load_last_avail 3 0) make_shared_queues).0
      ≡ ok (65537 % 2 ^ 16))
    × (((do store_last_avail 3 0 65537; get 3 0) make_shared_queues).0
        ≡ (get 3 0 make_shared_queues).0)
load-store_last_avail_example = load-store_last_avail 3 0 65537 make_shared_queues slot empty

get-set_config_size_example :
    ((get_config_size 8 (set_config_size 8 80 24 make_shared_queues).1).0
      ≡ ok (80 % 2 ^ 16, 24 % 2 ^ 16))
    × ((d : ℕ)
        → d ≢ 8
        → (get_config_size d (set_config_size 8 80 24 make_shared_queues).1).0
          ≡ (get_config_size d make_shared_queues).0)
    × ((d q : ℕ)
        → HasSlot d q
        → (get d q (set_config_size 8 80 24 make_shared_queues).1).0
          ≡ (get d q make_shared_queues).0)
    × ((d q : ℕ)
        → HasSlot d q
        → (load_last_avail d q (set_config_size 8 80 24 make_shared_queues).1).0
          ≡ (load_last_avail d q make_shared_queues).0)
get-set_config_size_example = get-set_config_size 8 80 24 make_shared_queues (omega arith) empty

abbrev block : Device
block = record { dev = 3; irq = 11; irq_cpu = 0 }

abbrev host : Host
host = record { memory = 7 ∷ 8 ∷ []; words = make_shared_queues; raised = [] }

-- A step on a ring that reads a byte of the memory.
abbrev second_byte : Layout → M Queue ℕ
second_byte l = get_uint 1 1

reads_eight :
    second_byte layout (record { memory = 7 ∷ 8 ∷ []; last_avail = 0 })
    ≡ (ok 8, record { memory = 7 ∷ 8 ∷ []; last_avail = 0 })
unfolding get_uint read_bytes
reads_eight = refl

with_ring-setup_queue_example :
    ((do
      setup_queue block 0 (2 ^ 33 + 16) 272 320 16
      with_ring (record block { irq_cpu = 1 }) 0 second_byte)
      host).0
    ≡ ok (some 8)
with_ring-setup_queue_example =
    with_ring-setup_queue block (record block { irq_cpu = 1 }) 0 layout second_byte 8
      (record { memory = 7 ∷ 8 ∷ []; last_avail = 0 }) host refl slot empty fits reads_eight

get-reset_example :
    ((q : ℕ) → q < max_qs → (get 3 q (reset block host).1.words).0 ≡ ok none)
    × ((dev q : ℕ)
        → HasSlot dev q
        → 3 ≢ dev
        → (get dev q (reset block host).1.words).0 ≡ (get dev q make_shared_queues).0)
    × ((reset block host).1.memory ≡ 7 ∷ 8 ∷ [])
    × ((reset block host).1.raised ≡ [])
get-reset_example = get-reset block host (omega arith) empty
