-- ===== src/Virtio/Net/Receive.antt =====
-- A frame that the host pushes: where it goes, and when it is dropped.
use nix_wasm.Prelude.{ℕ, zero, suc, ◌+◌, ◌^◌, ◌≤◌, ◌<◌, List, ◌++◌, ◌≡◌, ◌≢◌, refl, ap, ◌∙◌, arith}
use nix_wasm.Prelude.{
  Bool-cases, inl, inr, Bool, true, false, All, leb, lt→ltb, ltb_of_le, if◌then◌else◌, some, length,
  take-all, replicate, length-append, length-replicate,
}
use nix_wasm.Prelude.Bytes.{IsByte}
use nix_wasm.Virtio.Machine.{Queue, ok}
use nix_wasm.Virtio.Vring.{
  Layout, Segment, Chain, Descriptor, next_chain, write_in, capacity, in_capacity,
}
use nix_wasm.Virtio.Vring.Walk.{Walk, readable, writable}
use nix_wasm.Virtio.Vring.Order.{AvailFits, next_head, guest_idx, advanced, next_chain-Walk}
use nix_wasm.Virtio.Vring.Used.{UsedFits, Published, push_used-Published}
use nix_wasm.Virtio.Vring.Transfer.{write_in_lem}
use nix_wasm.Virtio.Vring.Copy.{InMemory, pour, length-pour}
use nix_wasm.Virtio.Net.{header_len, packet, fill_chain, offer}

-- A buffer that waits for the host: a ring in the memory, and a chain in the cursor's slot that is
-- not too long, with its segments in the memory.
pub record Offered (l : Layout) (q : Queue) (ds : List Descriptor) : Type 0 where
  pub avail_fits : AvailFits l q
  pub used_fits : UsedFits l q
  pub walk : Walk l q (next_head l q) ds
  pub waits : q.last_avail ≢ guest_idx l q
  pub short : length ds ≤ l.num + 1
  pub inside : All (InMemory q.memory) (writable ds)
  pub head_fits : next_head l q < 2 ^ 32

abbrev chain_of : Layout → Queue → List Descriptor → Chain
chain_of l q ds = record { head = next_head l q; outs = readable ds; ins = writable ds }

popped :
    (l : Layout) (q : Queue) (ds : List Descriptor)
    → Offered l q ds
    → next_chain l q ≡ (ok (some (chain_of l q ds)), advanced q)
popped l q ds o = next_chain-Walk l q o.avail_fits o.walk ∙ ground (arith, o.waits, o.short)

packet-AreBytes : (n : ℕ) (frame : List ℕ) → All IsByte frame → All IsByte (replicate n 0 ++ frame)
packet-AreBytes zero frame h = h
packet-AreBytes (suc n) frame h = (omega arith, packet-AreBytes n frame h)

module _ (l : Layout) (q : Queue) (ds : List Descriptor) (frame : List ℕ) (o : Offered l q ds) where
  abbrev head : ℕ
  head = next_head l q

  abbrev room : ℕ
  room = capacity (writable ds)

  abbrev filled : Queue
  filled = record (advanced q) { memory = pour q.memory (writable ds) (packet frame) }

  length-packet : length (packet frame) ≡ header_len + length frame
  length-packet =
      length-append (replicate header_len 0) frame
      ∙ ap (λ (n : ℕ). n + length frame) (length-replicate {A = ℕ} header_len 0)

  filled-UsedFits : UsedFits l filled
  filled-UsedFits = record {
    positive = o.used_fits.positive;
    in_memory = rw (length-pour q.memory (writable ds) (packet frame)) o.used_fits.in_memory;
  }

  wrote :
      header_len + length frame ≤ room
      → All IsByte frame
      → write_in (chain_of l q ds) (packet frame) (advanced q)
        ≡ (ok (header_len + length frame), filled)
  wrote fits bytes =
      let whole = take-all room (packet frame) (omega (arith, fits, length-packet)) in
      write_in_lem (chain_of l q ds) (packet frame) (advanced q) o.inside
        (packet-AreBytes header_len frame bytes)
      ∙ ap (λ (n : ℕ). (ok n, filled)) (ap length whole ∙ length-packet)

  dropped :
      room < header_len + length frame
      → (after : List ℕ) × (offer l frame q ≡ (ok false, record (advanced q) { memory = after }))
        × Published l head 0 q.memory after
  unfolding offer fill_chain in_capacity
  dropped big =
      let used : UsedFits l (advanced q) = record {
        positive = o.used_fits.positive;
        in_memory = o.used_fits.in_memory;
      } in
      let given = push_used-Published l head 0 (advanced q) used o.head_fits (omega arith) in
      (
        given.0,
        rw (popped l q ds o) (rw (lt→ltb room (header_len + length frame) big) (rw given.1 refl)),
        given.2,
      )

  taken :
      header_len + length frame ≤ room
      → header_len + length frame < 2 ^ 32
      → All IsByte frame
      → (after : List ℕ) × (offer l frame q ≡ (ok true, record (advanced q) { memory = after }))
        × Published l head
            (header_len + length frame)
            (pour q.memory (writable ds) (packet frame))
            after
  unfolding offer fill_chain in_capacity
  taken fits small bytes =
      let given =
        push_used-Published l head (header_len + length frame) filled filled-UsedFits o.head_fits
          small in
      (
        given.0,
        rw (popped l q ds o) (
            rw (ltb_of_le room (header_len + length frame) fits)
              (rw (wrote fits bytes) (rw given.1 refl))),
        given.2,
      )

-- What is in the memory when the chain is given back, and the length that it is given back with.
abbrev pub laid_out : Bool → List ℕ → List Segment → List ℕ → List ℕ
laid_out fits memory segs frame = if fits then pour memory segs (packet frame) else memory

abbrev pub used_len : Bool → List ℕ → ℕ
used_len fits frame = if fits then header_len + length frame else 0

-- With a buffer that waits and a frame of fewer than 2 ^ 32 - 12 bytes: if the buffer has room, the
-- header of zeros and the frame go into its segments and it is given back with their length; if not,
-- it is given back empty and the frame is dropped. Either way the cursor moves on by one.
pub offer_lem :
    (l : Layout) (q : Queue) (ds : List Descriptor) (frame : List ℕ)
    → Offered l q ds
    → All IsByte frame
    → header_len + length frame < 2 ^ 32
    → let fits = leb (header_len + length frame) (capacity (writable ds)) in
      (after : List ℕ) × (offer l frame q ≡ (ok fits, record (advanced q) { memory = after }))
      × Published l
          (next_head l q)
          (used_len fits frame)
          (laid_out fits q.memory (writable ds) frame)
          after
offer_lem l q ds frame o bytes small =
    elim (Bool-cases (leb (header_len + length frame) (capacity (writable ds)))) [
      | inl fits ↦ rw fits (taken l q ds frame o (ground (arith, fits)) small bytes)
      | inr big ↦ rw big (dropped l q ds frame o (ground (arith, big)))
    ]
