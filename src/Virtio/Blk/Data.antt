-- ===== src/Virtio/Blk/Data.antt =====
-- The loops that move a request's data between the image and the guest's segments.
use nix_wasm.Prelude.{ℕ, ◌+◌, ◌*◌, ◌≤◌, List, [], ◌∷◌, ◌++◌, ◌≡◌, refl, sym, ap, ap₂, ◌∙◌}
use nix_wasm.Prelude.{
  append-nil, take-all, drop-all, leb, arith, length, take, drop, overwrite, All, ltb, ltb_of_le,
  le→leb, Bool-cases, inl, inr,
}
use nix_wasm.Prelude.{
  drop-take, overwrite-overwrite, take-take, overwrite-nil, length-take, length-drop,
  length-overwrite, length-append, drop-drop,
}
use nix_wasm.Virtio.Machine.{ok, read_bytes, write_bytes}
use nix_wasm.Virtio.Machine.Laws.{bytes_at, bytes_at-overwrite_same}
use nix_wasm.Virtio.Disk.{sector_size}
use nix_wasm.Virtio.Vring.{Segment, capacity}
use nix_wasm.Virtio.Vring.Transfer.{gather-pour, AllApart, length-bytes_at}
use nix_wasm.Virtio.Vring.Copy.{InMemory, gather, pour, InMemory-overwrite}
use nix_wasm.Virtio.Blk.{Blk, read_data, write_data, s_ok}

-- The state after the data of a read is in the guest's memory.
abbrev pub delivered : Blk → List Segment → List ℕ → Blk
delivered s segs bytes = record s {
  queue = record s.queue { memory = pour s.queue.memory segs bytes };
}

-- A segment of a read: the bytes go to the guest, and the rest goes on behind them.
pub read_data-step :
    (seg : Segment) (segs : List Segment) (pos written : ℕ) (s : Blk)
    → pos + seg.len ≤ length s.image
    → InMemory s.queue.memory seg
    → read_data pos written (seg ∷ segs) s
      ≡ read_data (pos + seg.len) (written + seg.len) segs (record s {
        queue = record s.queue {
          memory = overwrite s.queue.memory seg.addr (take seg.len (drop pos s.image));
        };
      })
unfolding read_data write_bytes
read_data-step seg segs pos written s fits inside =
    let len : length (take seg.len (drop pos s.image)) ≡ seg.len =
      length-take seg.len (drop pos s.image) (rw length-drop (omega arith)) in
    rw (ltb_of_le (length s.image) (pos + seg.len) fits)
      (rw len (rw (le→leb (seg.addr + seg.len) (length s.queue.memory) inside) refl))

-- A slice that is poured: the first segment's part, and the slice behind it.
pour-slice :
    (seg : Segment) (segs : List Segment) (pos : ℕ) (memory image : List ℕ)
    → pour
        (overwrite memory seg.addr (take seg.len (drop pos image)))
        segs
        (take (capacity segs) (drop (pos + seg.len) image))
      ≡ pour memory (seg ∷ segs) (take (capacity (seg ∷ segs)) (drop pos image))
unfolding pour capacity
pour-slice seg segs pos memory image =
    ap₂ (λ (a b : List ℕ). pour (overwrite memory seg.addr a) segs b)
      (sym (take-take seg.len (seg.len + capacity segs) (drop pos image) (omega arith)))
      (sym (
        drop-take seg.len (capacity segs) (drop pos image)
        ∙ ap (take (capacity segs)) (drop-drop seg.len pos image)))

-- T_IN: a request that ends in the image fills the segments from it.
pub read_data_lem :
    (segs : List Segment) (pos written : ℕ) (s : Blk)
    → pos + capacity segs ≤ length s.image
    → All (InMemory s.queue.memory) segs
    → read_data pos written segs s ≡ (
      ok (s_ok, written + capacity segs),
      delivered s segs (take (capacity segs) (drop pos s.image)),
    )
read_data_lem [] pos written s h m =
    unfold read_data capacity pour in ap (λ (n : ℕ). (ok (s_ok, n), s)) (omega arith)
read_data_lem (seg ∷ segs) pos written s h m =
    let total : written + seg.len + capacity segs ≡ written + capacity (seg ∷ segs) =
      unfold capacity in omega arith in
    read_data-step seg segs pos written s (unfold capacity in omega arith) m.0
    ∙ read_data_lem segs (pos + seg.len) (written + seg.len)
        (record s {
          queue = record s.queue {
            memory = overwrite s.queue.memory seg.addr (take seg.len (drop pos s.image));
          };
        })
        (unfold capacity in omega arith)
        (InMemory-overwrite s.queue.memory seg.addr (take seg.len (drop pos s.image)) segs m.1)
    ∙ ap₂
        (λ (n : ℕ) (t : List ℕ). (ok (s_ok, n), record s { queue = record s.queue { memory = t } }))
        total (pour-slice seg segs pos s.queue.memory s.image)

-- A segment of a write: its bytes go to the image, and the rest goes on behind them.
pub write_data-step :
    (seg : Segment) (segs : List Segment) (pos bytes : ℕ) (s : Blk)
    → pos + seg.len ≤ length s.image
    → InMemory s.queue.memory seg
    → write_data pos bytes (seg ∷ segs) s
      ≡ write_data
          (pos + seg.len)
          (bytes + seg.len)
          segs
          (record s { image = overwrite s.image pos (bytes_at seg.len seg.addr s.queue.memory) })
unfolding write_data read_bytes
write_data-step seg segs pos bytes s fits inside =
    rw (ltb_of_le (length s.image) (pos + seg.len) fits)
      (rw (le→leb (seg.addr + seg.len) (length s.queue.memory) inside) refl)

-- The first segment's bytes and, behind them, those of the others.
overwrite-gather :
    (seg : Segment) (segs : List Segment) (pos : ℕ) (memory image : List ℕ)
    → InMemory memory seg
    → overwrite
        (overwrite image pos (bytes_at seg.len seg.addr memory))
        (pos + seg.len)
        (gather memory segs)
      ≡ overwrite image pos (gather memory (seg ∷ segs))
unfolding gather
overwrite-gather seg segs pos memory image h =
    let len = length-bytes_at seg.len seg.addr memory h in
    rw len at
      (overwrite-overwrite image pos (bytes_at seg.len seg.addr memory) (gather memory segs))

pub length-gather :
    (segs : List Segment) (memory : List ℕ)
    → All (InMemory memory) segs
    → length (gather memory segs) ≡ capacity segs
unfolding gather capacity
length-gather [] memory m = refl
length-gather (seg ∷ segs) memory m = omega (
  arith,
  length-append (bytes_at seg.len seg.addr memory) (gather memory segs),
  length-bytes_at seg.len seg.addr memory m.0,
  length-gather segs memory m.1,
)

-- T_OUT: segments that end in the image put their bytes there, whatever follows them.
pub write_data-append :
    (segs more : List Segment) (pos bytes : ℕ) (s : Blk)
    → pos + capacity segs ≤ length s.image
    → All (InMemory s.queue.memory) segs
    → write_data pos bytes (segs ++ more) s
      ≡ write_data
          (pos + capacity segs)
          (bytes + capacity segs)
          more
          (record s { image = overwrite s.image pos (gather s.queue.memory segs) })
write_data-append [] more pos bytes s h m =
    unfold capacity gather in
    let a : pos + 0 ≡ pos = omega arith in
    let b : bytes + 0 ≡ bytes = omega arith in rw a (rw b (rw (overwrite-nil s.image pos) refl))
write_data-append (seg ∷ segs) more pos bytes s h m =
    let first = bytes_at seg.len seg.addr s.queue.memory in
    let total : (n : ℕ) → n + seg.len + capacity segs ≡ n + capacity (seg ∷ segs) =
      λ n. unfold capacity in omega arith in
    write_data-step seg (segs ++ more) pos bytes s (unfold capacity in omega arith) m.0
    ∙ write_data-append segs more (pos + seg.len) (bytes + seg.len)
        (record s { image = overwrite s.image pos first })
        (rw length-overwrite (unfold capacity in omega arith)) m.1
    ∙ rw (total pos) (
        rw (total bytes) (
          ap
            (λ (t : List ℕ).
              write_data (pos + capacity (seg ∷ segs)) (bytes + capacity (seg ∷ segs)) more
                (record s { image = t }))
            (overwrite-gather seg segs pos s.queue.memory s.image m.0)))

-- T_OUT: a request that ends in the image puts the segments' bytes there.
pub write_data_lem :
    (segs : List Segment) (pos bytes : ℕ) (s : Blk)
    → pos + capacity segs ≤ length s.image
    → All (InMemory s.queue.memory) segs
    → write_data pos bytes segs s ≡ (
      ok (s_ok, bytes + capacity segs),
      record s { image = overwrite s.image pos (gather s.queue.memory segs) },
    )
write_data_lem segs pos bytes s h m =
    ap (λ (t : List Segment). write_data pos bytes t s) (sym (append-nil segs))
    ∙ write_data-append segs [] pos bytes s h m
    ∙ unfold write_data in refl

-- T_IN changes nothing but the guest's memory, whether it ends well or not.
pub read_data-keeps :
    (segs : List Segment) (pos written : ℕ) (s : Blk)
    → let s' = (read_data pos written segs s).1 in (s'.image ≡ s.image) × (s'.dirty ≡ s.dirty)
unfolding read_data write_bytes
read_data-keeps [] pos written s = (refl, refl)
read_data-keeps (seg ∷ segs) pos written s =
    let bytes = take seg.len (drop pos s.image) in
    elim (Bool-cases (ltb (length s.image) (pos + seg.len))) [
      | inl past ↦ rw past (refl, refl)
      | inr fits ↦ elim (Bool-cases (leb (seg.addr + length bytes) (length s.queue.memory))) [
        | inl e ↦ rw fits (
            rw e (
              read_data-keeps segs (pos + seg.len) (written + seg.len) (record s {
                queue = record s.queue { memory = overwrite s.queue.memory seg.addr bytes };
              })))
        | inr e ↦ rw fits (rw e (refl, refl))
      ]
    ]

-- A disk that was written is read, with the guest's memory changed in between: the segments, which
-- lie apart, hold what was written.
pub read_data-write_data :
    (sector : ℕ) (outs ins : List Segment) (s s' : Blk)
    → sector * sector_size + capacity outs ≤ length s.image
    → capacity ins ≡ capacity outs
    → All (InMemory s.queue.memory) outs
    → s'.image ≡ (write_data (sector * sector_size) 0 outs s).1.image
    → All (InMemory s'.queue.memory) ins
    → AllApart ins
    → gather (read_data (sector * sector_size) 0 ins s').1.queue.memory ins
      ≡ gather s.queue.memory outs
read_data-write_data sector outs ins s s' fits same mo e mi apart =
    let pos = sector * sector_size in
    let len = length-gather outs s.queue.memory mo in
    let image' : s'.image ≡ overwrite s.image pos (gather s.queue.memory outs) =
      e ∙ rw (write_data_lem outs pos 0 s fits mo) refl in
    let size : length s'.image ≡ length s.image = rw image' (length-overwrite s.image pos _) in
    let found : take (capacity ins) (drop pos s'.image) ≡ gather s.queue.memory outs = rw image' (
      rw same (
        rw (← len)
          (bytes_at-overwrite_same s.image pos (gather s.queue.memory outs) (rw len fits)))) in
    rw (read_data_lem ins pos 0 s' (rw size (rw same fits)) mi) (
      gather-pour ins s'.queue.memory _ mi apart
      ∙ rw found (
          ap₂ (λ a b. a ++ b)
            (take-all (capacity ins) (gather s.queue.memory outs) (omega (arith, len, same)))
            (drop-all (length (gather s.queue.memory outs)) (gather s'.queue.memory ins)
              (omega (arith, len, same, length-gather ins s'.queue.memory mi)))
          ∙ append-nil (gather s.queue.memory outs)))
