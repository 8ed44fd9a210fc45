-- ===== src/Virtio/Blk/Journal.antt =====
-- What a request leaves in the journal: with the dirty sectors saved, the disk can be restored.
use nix_wasm.Prelude.{ℕ, ◌+◌, ◌*◌, ◌/◌, ◌≤◌, ◌<◌, List, ◌∷◌, ◌≡◌, refl, sym, ap, ◌∙◌}
use nix_wasm.Prelude.{arith, Bool, ltb, ◌==◌, if◌then◌else◌, some, length, overwrite, All}
use nix_wasm.Prelude.{length-overwrite, ◌++◌, lt→ltb, Bool-cases, inl, inr}
use nix_wasm.Prelude.Lookup.{get_elem?-overwrite}
use nix_wasm.Virtio.Machine.{ok}
use nix_wasm.Virtio.Disk.{sector_size, pack_dirty_sectors, apply_dirty_overlay, done}
use nix_wasm.Virtio.Disk.Marks.{marked, mark_dirty_ok}
use nix_wasm.Virtio.Disk.Bitmap.{is_dirty-marked, marked-Covers}
use nix_wasm.Virtio.Disk.Restore.{IsBacked, SameWhereClean, apply-pack_dirty_sectors}
use nix_wasm.Virtio.Vring.{Segment, capacity}
use nix_wasm.Virtio.Vring.Copy.{InMemory, gather}
use nix_wasm.Virtio.Blk.{
  Blk, Config, ceil_div, serve_write, serve, write_data, s_ok, s_ioerr, t_in, t_out, t_flush,
}
use nix_wasm.Virtio.Blk.Data.{write_data-append, read_data-keeps, write_data_lem, length-gather}

-- A write into the image whose sectors are marked.
module _ (image bitmap base bytes : List ℕ) (sector n : ℕ) (b : IsBacked image bitmap)
    (len : length bytes ≡ n) (fits : sector * sector_size + n ≤ length image) where
  noted : List ℕ
  noted = marked bitmap sector (ceil_div n sector_size)

  written : List ℕ
  written = overwrite image (sector * sector_size) bytes

  in_range : sector + ceil_div n sector_size ≤ length image / sector_size
  in_range = omega (arith, fits, b.whole)

  noted-IsBacked : IsBacked written noted
  unfolding written noted
  noted-IsBacked = record {
    whole = rw length-overwrite b.whole;
    few = rw length-overwrite b.few;
    covers = rw length-overwrite (marked-Covers _ sector b.covers in_range);
  }

  noted-SameWhereClean : SameWhereClean bitmap image base → SameWhereClean noted written base
  unfolding written noted
  noted-SameWhereClean same = record {
    same_size = same.same_size ∙ sym (length-overwrite image (sector * sector_size) bytes);
    same_bytes = λ i clean. ground (
      arith,
      clean,
      is_dirty-marked (ceil_div n sector_size) sector b.covers (i / sector_size) in_range,
      same.same_bytes i,
      get_elem?-overwrite image (sector * sector_size) bytes i (omega (arith, len, fits)),
      len,
    );
  }

-- The journal of a device whose disk differs from a base in dirty sectors only.
pub record Journaled (base : List ℕ) (s : Blk) : Type 0 where
  pub bitmap : List ℕ
  pub has_bitmap : s.dirty ≡ some bitmap
  pub backed : IsBacked s.image bitmap
  pub same : SameWhereClean bitmap s.image base

-- Such a disk is restored from the base and the saved overlay.
pub restore :
    (base : List ℕ) (s : Blk) (clear : Bool) (j : Journaled base s)
    → (overlay : List ℕ) × ((pack_dirty_sectors s.shared s.image clear j.bitmap).0 ≡ ok overlay)
      × (apply_dirty_overlay base overlay ≡ (s.image, done))
restore base s clear j =
    apply-pack_dirty_sectors s.shared s.image j.bitmap base clear j.backed j.same

-- The state of the device after a request that writes, with its sectors marked.
after_write : Blk → List ℕ → ℕ → List Segment → Blk
after_write s bitmap sector segs = record s {
  image = overwrite s.image (sector * sector_size) (gather s.queue.memory segs);
  dirty = some (marked bitmap sector (ceil_div (capacity segs) sector_size));
  dirty_calls = if ltb 0 (capacity segs) then s.dirty_calls + 1 else s.dirty_calls;
}

serve_write_lem :
    (sector : ℕ) (segs : List Segment) (s : Blk) (bitmap : List ℕ)
    → s.dirty ≡ some bitmap
    → IsBacked s.image bitmap
    → sector * sector_size + capacity segs ≤ length s.image
    → All (InMemory s.queue.memory) segs
    → serve_write sector segs s ≡ (ok s_ok, after_write s bitmap sector segs)
unfolding serve_write after_write marked
serve_write_lem sector segs s bitmap e b fits m =
    let noted_ok =
      mark_dirty_ok s.shared (ceil_div (capacity segs) sector_size) sector bitmap
        (omega (arith, fits, b.whole, b.covers.wide)) in
    let z : 0 + capacity segs ≡ capacity segs = omega arith in
    rw (write_data_lem segs (sector * sector_size) 0 s fits m) (
      rw z (elim (Bool-cases (ltb 0 (capacity segs))) [
        | inl some_bytes ↦ rw some_bytes (rw e (rw noted_ok refl))
        | inr no_bytes ↦
            let empty : capacity segs ≡ 0 = ground (arith, no_bytes) in
            rw no_bytes (
              rw empty (
                ap
                  (λ t. (
                    ok s_ok,
                    record s {
                      image = overwrite s.image (sector * sector_size) (gather s.queue.memory segs);
                      dirty = t;
                    },
                  ))
                  e))
      ]))

kept :
    (base : List ℕ) (s s' : Blk) (j : Journaled base s)
    → (s'.image ≡ s.image) × (s'.dirty ≡ s.dirty)
    → Journaled base s'
kept base s s' j same = record {
  bitmap = j.bitmap;
  has_bitmap = same.1 ∙ j.has_bitmap;
  backed = rw same.0 j.backed;
  same = rw same.0 j.same;
}

after_write-Journaled :
    (base : List ℕ) (s : Blk) (sector : ℕ) (segs : List Segment) (j : Journaled base s)
    → sector * sector_size + capacity segs ≤ length s.image
    → All (InMemory s.queue.memory) segs
    → Journaled base (after_write s j.bitmap sector segs)
unfolding after_write noted written
after_write-Journaled base s sector segs j fits m = record {
  bitmap = marked j.bitmap sector (ceil_div (capacity segs) sector_size);
  has_bitmap = refl;
  backed = noted-IsBacked s.image j.bitmap base bytes sector (capacity segs) j.backed len fits;
  same =
      noted-SameWhereClean s.image j.bitmap base bytes sector (capacity segs) j.backed len fits
        j.same;
}
  where
    bytes : List ℕ
    bytes = gather s.queue.memory segs

    len : length bytes ≡ capacity segs
    len = length-gather segs s.queue.memory m

-- A request that writes, if it ends in the image and its data lies in the memory.
abbrev pub WritesInside : ℕ → ℕ → List Segment → Blk → Type 0
WritesInside type sector outs s =
    type ≡ t_out
    → (sector * sector_size + capacity outs ≤ length s.image) × All (InMemory s.queue.memory) outs

-- From a disk that differs from a base in dirty sectors only, a request of any type leaves one that
-- does. If it writes, it has to end in the image, with its data in the memory.
pub serve-Journaled :
    (c : Config) (type sector : ℕ) (outs ins : List Segment) (base : List ℕ) (s : Blk)
    → Journaled base s
    → WritesInside type sector outs s
    → Journaled base (serve c type sector outs ins s).1
unfolding serve
serve-Journaled c type sector outs ins base s j w = elim (Bool-cases (type == t_in)) [
  | inl reads ↦ rw reads (kept base s _ j (read_data-keeps ins (sector * sector_size) 0 s))
  | inr e ↦ elim (Bool-cases (type == t_out)) [
    | inl writes ↦ elim (Bool-cases c.read_only) [
      | inl fixed ↦ rw e (rw writes (rw fixed j))
      | inr free ↦
          let h = w (ground (arith, writes)) in
          rw e (
            rw writes (
              rw free (
                rw (serve_write_lem sector outs s j.bitmap j.has_bitmap j.backed h.0 h.1)
                  (after_write-Journaled base s sector outs j h.0 h.1))))
    ]
    | inr other ↦ elim (Bool-cases (type == t_flush)) [
      | inl flush ↦ rw e (rw other (rw flush j))
      | inr unknown ↦ rw e (rw other (rw unknown j))
    ]
  ]
]

-- A write whose segments end in the image up to one that passes the end: the status is IOERR, the
-- bytes of the segments before stand in the image, and neither a sector becomes dirty nor is the
-- host told.
pub serve_write-torn :
    (sector : ℕ) (segs more : List Segment) (past : Segment) (s : Blk)
    → sector * sector_size + capacity segs ≤ length s.image
    → length s.image < sector * sector_size + capacity segs + past.len
    → All (InMemory s.queue.memory) segs
    → serve_write sector (segs ++ (past ∷ more)) s ≡ (
      ok s_ioerr,
      record s { image = overwrite s.image (sector * sector_size) (gather s.queue.memory segs) },
    )
unfolding serve_write
serve_write-torn sector segs more past s fits beyond m =
    rw (write_data-append segs (past ∷ more) (sector * sector_size) 0 s fits m) (
      unfold write_data in
      rw (length-overwrite s.image (sector * sector_size) (gather s.queue.memory segs)) (
        rw (lt→ltb (length s.image) (sector * sector_size + capacity segs + past.len) beyond) refl))
