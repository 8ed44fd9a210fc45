-- ===== src/Virtio/Tests/Disks.antt =====
-- A disk of two sectors, all zeros and clean, before a guest with 64 bytes of memory.
use nix_wasm.Prelude.{
  ◌+◌, ℕ, ◌*◌, List, [], ◌∷◌, ◌≡◌, refl, arith, some, true, false, ◌&&◌, ◌||◌, leb, ltb, length,
  replicate, overwrite, length-replicate,
}
use nix_wasm.Virtio.Machine.{ok, fault, range_error}
use nix_wasm.Virtio.Disk.{
  sector_size, is_dirty, or_byte, mark_dirty, pack_dirty_sectors, apply_dirty_overlay, done,
}
use nix_wasm.Virtio.Disk.Bitmap.{is_dirty-mark_dirty}
use nix_wasm.Virtio.Disk.Restore.{IsBacked, SameWhereClean, apply-pack_dirty_sectors}
use nix_wasm.Virtio.Vring.{Segment, capacity}
use nix_wasm.Virtio.Vring.Copy.{gather}
use nix_wasm.Virtio.Blk.{Blk, Config, serve, serve_write, read_data, write_data, t_out, s_ioerr}
use nix_wasm.Virtio.Blk.{serve_chain}
use nix_wasm.Virtio.Blk.Answer.{Request, type_of, sector_of, serve_chain-answers}
use nix_wasm.Virtio.Vring.Used.{Published}
use nix_wasm.Virtio.Blk.Data.{write_data_lem, read_data-write_data}
use nix_wasm.Virtio.Blk.Journal.{Journaled, serve-Journaled, serve_write-torn}

abbrev image : List ℕ
image = replicate 1024 0

size : length image ≡ 1024
size = length-replicate {A = ℕ} 1024 0

abbrev memory : List ℕ
memory = replicate 64 7

memory_size : length memory ≡ 64
memory_size = length-replicate {A = ℕ} 64 7

abbrev device : Blk
device = record {
  queue = record { memory = memory; last_avail = 0 };
  image = image;
  dirty = some (0 ∷ []);
  shared = true;
  dirty_calls = 0;
  irqs = 0;
}

abbrev config : Config
config = record { layout = record { desc = 0; avail = 16; used = 24; num = 1 }; read_only = false }

abbrev part : Segment
part = record { addr = 8; len = 4 }

abbrev far : Segment
far = record { addr = 0; len = 1024 }

backed : IsBacked image (0 ∷ [])
backed = record {
  whole = omega (arith, size);
  few = omega (arith, size);
  covers = record { bytes = (omega arith, tt); wide = omega (arith, size) };
}

clean : SameWhereClean (0 ∷ []) image image
clean = record { same_size = refl; same_bytes = λ i h. refl }

journaled : Journaled image device
journaled = record { bitmap = 0 ∷ []; has_bitmap = refl; backed = backed; same = clean }

four : capacity (part ∷ []) ≡ 4
unfolding capacity
four = refl

apply-pack_dirty_sectors_example :
    (overlay : List ℕ) × ((pack_dirty_sectors true image true (0 ∷ [])).0 ≡ ok overlay)
    × (apply_dirty_overlay image overlay ≡ (image, done))
apply-pack_dirty_sectors_example =
    apply-pack_dirty_sectors true image (0 ∷ []) image true backed clean

is_dirty-mark_dirty_example :
    ((mark_dirty true 0 2 (0 ∷ [])).0 ≡ ok tt)
    × (is_dirty (mark_dirty true 0 2 (0 ∷ [])).1 1 ≡ ((leb 0 1 && ltb 1 2) || is_dirty (0 ∷ []) 1))
is_dirty-mark_dirty_example = is_dirty-mark_dirty true 2 0 backed.covers 1 (omega (arith, size))

-- Past the end of a shared bitmap marking throws, and keeps what it marked; in an ordinary one it is dropped.
mark_past_end : mark_dirty true 7 2 (0 ∷ []) ≡ (fault range_error, 128 ∷ [])
unfolding mark_dirty or_byte
mark_past_end = refl

mark_dropped : mark_dirty false 7 2 (0 ∷ []) ≡ (ok tt, 128 ∷ [])
unfolding mark_dirty or_byte
mark_dropped = refl

serve-Journaled_example : Journaled image (serve config t_out 1 (part ∷ []) [] device).1
serve-Journaled_example =
    serve-Journaled config t_out 1 (part ∷ []) [] image device journaled
      (λ w. (omega (arith, size, four), (omega (arith, memory_size), tt)))

serve_write-torn_example :
    serve_write 1 (part ∷ far ∷ []) device
    ≡ (ok s_ioerr, record device { image = overwrite image 512 (gather memory (part ∷ [])) })
serve_write-torn_example =
    serve_write-torn 1 (part ∷ []) [] far device (omega (arith, size, four))
      (omega (arith, size, four)) (omega (arith, memory_size), tt)

abbrev written : Blk
written = record device { image = overwrite image (1 * sector_size) (gather memory (part ∷ [])) }

written_image : written.image ≡ (write_data (1 * sector_size) 0 (part ∷ []) device).1.image
written_image =
    rw
      (write_data_lem (part ∷ []) (1 * sector_size) 0 device (omega (arith, size, four))
        (omega (arith, memory_size), tt))
      refl

read_data-write_data_example :
    gather (read_data (1 * sector_size) 0 (part ∷ []) written).1.queue.memory (part ∷ [])
    ≡ gather memory (part ∷ [])
read_data-write_data_example =
    read_data-write_data 1 (part ∷ []) (part ∷ []) device written (omega (arith, size, four)) refl
      (omega (arith, memory_size), tt) written_image (omega (arith, memory_size), tt) (tt, tt)

abbrev header : Segment
header = record { addr = 0; len = 16 }

abbrev status_byte : Segment
status_byte = record { addr = 60; len = 1 }

request : Request config 0 header [] status_byte [] memory
unfolding capacity
request = record {
  header_in = omega (arith, memory_size);
  outs_in = tt;
  ins_in = tt;
  status_in = omega (arith, memory_size);
  ring_in = omega (arith, memory_size);
  ring_size = omega arith;
  head_fits = omega arith;
  few = omega arith;
}

serve_chain-answers_example :
    (status : ℕ) × (written : ℕ) × (s' : Blk) × (after : List ℕ) × (serve config
        (type_of header memory)
        (sector_of header memory)
        []
        []
        device
      ≡ (ok (status, written), s'))
    × (serve_chain config 0 header [] status_byte [] device
        ≡ (ok tt, record s' { queue = record s'.queue { memory = after } }))
    × Published
        (record { desc = 0; avail = 16; used = 24; num = 1 })
        0
        (written + 1)
        (overwrite s'.queue.memory 60 (status ∷ []))
        after
serve_chain-answers_example =
    serve_chain-answers config 0 header [] status_byte [] device request (omega (arith, size))
