-- ===== src/Virtio/Blk/Answer.antt =====
-- Every request is answered: a status byte, and the chain in the used ring.
use nix_wasm.Prelude.{ℕ, ◌+◌, ◌*◌, ◌^◌, ◌≤◌, ◌<◌, List, [], ◌∷◌, ◌≡◌, refl, ap, ◌∙◌, arith}
use nix_wasm.Prelude.{le→leb, length, take, drop, overwrite, length-overwrite, All}
use nix_wasm.Prelude.Bytes.{from_le}
use nix_wasm.Prelude.Number.{to_number}
use nix_wasm.Virtio.Machine.{Queue, Result, ok, read_bytes, write_bytes}
use nix_wasm.Virtio.Machine.Laws.{bytes_at}
use nix_wasm.Virtio.Vring.{Segment, capacity}
use nix_wasm.Virtio.Vring.Copy.{InMemory}
use nix_wasm.Virtio.Vring.Used.{UsedFits, Published, push_used-Published}
use nix_wasm.Virtio.Blk.{Blk, Config, serve, serve_chain, but_last, last_segment}
use nix_wasm.Virtio.Blk.Returns.{Served}
use nix_wasm.Virtio.Blk.Served.{JournalFits, serve-Served}

-- A chain whose header, data and status byte lie in the memory, and a used ring that does.
pub record Request (c : Config) (head : ℕ) (hdr : Segment) (outs : List Segment) (i : Segment)
    (ins : List Segment) (memory : List ℕ) : Type 0 where
  pub header_in : hdr.addr + 16 ≤ length memory
  pub outs_in : All (InMemory memory) outs
  pub ins_in : All (InMemory memory) (but_last i ins)
  pub status_in : (last_segment i ins).addr + 1 ≤ length memory
  pub ring_in : c.layout.used + 4 + c.layout.num * 8 ≤ length memory
  pub ring_size : 0 < c.layout.num
  pub head_fits : head < 2 ^ 32
  pub few : capacity (but_last i ins) + 1 < 2 ^ 32

-- The request's type and sector, in the bytes of its header.
abbrev pub type_of : Segment → List ℕ → ℕ
type_of hdr memory = from_le (take 4 (bytes_at 16 hdr.addr memory))

abbrev pub sector_of : Segment → List ℕ → ℕ
sector_of hdr memory = to_number (from_le (take 8 (drop 8 (bytes_at 16 hdr.addr memory))))

module _ (c : Config) (head : ℕ) (hdr : Segment) (outs : List Segment) (i : Segment)
    (ins : List Segment) (s : Blk) (r : Request c head hdr outs i ins s.queue.memory)
    (j : JournalFits s) where
  served : Result (ℕ × ℕ) × Blk
  served =
      serve c (type_of hdr s.queue.memory) (sector_of hdr s.queue.memory) outs (but_last i ins) s

  is_served : Served (length s.queue.memory) (capacity (but_last i ins)) served
  unfolding served
  is_served =
      serve-Served c (type_of hdr s.queue.memory) (sector_of hdr s.queue.memory) outs
        (but_last i ins) s j r.outs_in r.ins_in

  answered : Queue
  answered = record served.1.queue {
    memory = overwrite served.1.queue.memory (last_segment i ins).addr (is_served.status ∷ []);
  }

  size : length answered.memory ≡ length s.queue.memory
  unfolding answered
  size = length-overwrite served.1.queue.memory _ _ ∙ is_served.same_size

  answered-UsedFits : UsedFits c.layout answered
  answered-UsedFits = record { positive = r.ring_size; in_memory = omega (arith, size, r.ring_in) }

  header_read : read_bytes hdr.addr 16 s.queue ≡ (ok (bytes_at 16 hdr.addr s.queue.memory), s.queue)
  unfolding read_bytes
  header_read = rw (le→leb (hdr.addr + 16) (length s.queue.memory) r.header_in) refl

  status_written :
      write_bytes (last_segment i ins).addr (is_served.status ∷ []) served.1.queue
      ≡ (ok tt, answered)
  unfolding write_bytes answered
  status_written =
      rw
        (le→leb ((last_segment i ins).addr + 1) (length served.1.queue.memory)
          (omega (arith, is_served.same_size, r.status_in)))
        refl

-- A chain whose header, data and status byte lie in the memory, with a used ring that does and a head
-- and a capacity that fit 32 bits, of a device whose bitmap, if it is shared, has a bit for every sector
-- that the image has a byte of, is answered whatever its request is: `_service` does not throw, some
-- status stands in the first byte of its last segment, and it goes into the used ring with one byte more
-- than the data that the request wrote.
pub serve_chain-answers :
    (c : Config) (head : ℕ) (hdr : Segment) (outs : List Segment) (i : Segment) (ins : List Segment)
    (s : Blk)
    → Request c head hdr outs i ins s.queue.memory
    → JournalFits s
    → (status : ℕ) × (written : ℕ) × (s' : Blk) × (after : List ℕ) × (serve c
          (type_of hdr s.queue.memory)
          (sector_of hdr s.queue.memory)
          outs
          (but_last i ins)
          s
        ≡ (ok (status, written), s'))
      × (serve_chain c head hdr outs i ins s
          ≡ (ok tt, record s' { queue = record s'.queue { memory = after } }))
      × Published c.layout head
          (written + 1)
          (overwrite s'.queue.memory (last_segment i ins).addr (status ∷ []))
          after
unfolding serve_chain served answered
serve_chain-answers c head hdr outs i ins s r j =
    let v = is_served c head hdr outs i ins s r j in
    let s' = (served c head hdr outs i ins s r j).1 in
    let ran : serve c (type_of hdr s.queue.memory) (sector_of hdr s.queue.memory) outs
          (but_last i ins) s
        ≡ (ok (v.status, v.written), s') =
      ap (λ t. (t, s')) v.returned in
    let given =
      push_used-Published c.layout head (v.written + 1) (answered c head hdr outs i ins s r j)
        (answered-UsedFits c head hdr outs i ins s r j) r.head_fits (omega (arith, v.few, r.few)) in
    (
      v.status,
      v.written,
      s',
      given.0,
      ran,
      rw (header_read c head hdr outs i ins s r j)
          (rw ran (rw (status_written c head hdr outs i ins s r j) (rw given.1 refl))),
      given.2,
    )
