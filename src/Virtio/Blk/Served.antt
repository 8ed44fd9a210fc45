-- ===== src/Virtio/Blk/Served.antt =====
-- A request returns: a status and a count, in a memory of the same size, and its journal does not throw.
use nix_wasm.Prelude.{ℕ, ◌+◌, ◌*◌, ◌≤◌, List, [], ◌∷◌, ◌≡◌, refl, ◌∙◌, arith}
use nix_wasm.Prelude.{
  ap, ◌⊎◌, Bool, true, false, Option, none, some, Bool-cases, inl, inr, ltb, ◌==◌, ◌&&◌,
  if◌then◌else◌, length, overwrite, length-overwrite, All,
}
use nix_wasm.Virtio.Machine.{Queue, Result, ok, fault, and_then, ◌>>=◌, ◌>>◌, pure}
use nix_wasm.Virtio.Machine.Laws.{bytes_at}
use nix_wasm.Virtio.Disk.{sector_size, mark_dirty}
use nix_wasm.Virtio.Disk.Marks.{mark_dirty_ok, mark_dirty_unshared}
use nix_wasm.Virtio.Vring.{Segment, capacity}
use nix_wasm.Virtio.Vring.Copy.{InMemory}
use nix_wasm.Virtio.Blk.{
  Blk, Config, write_data, serve_write, serve, t_in, t_out, t_flush, s_ok, s_unsupp, journal,
  on_bitmap, count_call, ceil_div,
}
use nix_wasm.Virtio.Blk.Data.{write_data-step}
use nix_wasm.Virtio.Blk.Returns.{Served, read_data-Served, write_data-Served}

weaker :
    {size limit limit' : ℕ} {r : Result (ℕ × ℕ) × Blk}
    → Served size limit r
    → limit ≤ limit'
    → Served size limit' r
weaker v h = record {
  status = v.status;
  written = v.written;
  few = omega (arith, v.few, h);
  returned = v.returned;
  same_size = v.same_size;
}

-- A branch that only answers.
refused :
    (size limit status : ℕ) (s : Blk)
    → length s.queue.memory ≡ size
    → Served size limit (ok (status, 0), s)
refused size limit status s e = record {
  status = status;
  written = 0;
  few = omega arith;
  returned = refl;
  same_size = e;
}

-- A bitmap in which a step of the journal cannot throw: none, one that is not shared, or one with a bit for
-- each of so many sectors.
abbrev pub Fits : Bool → Option (List ℕ) → ℕ → Type 0
Fits shared none sectors = Unit
Fits false (some bitmap) sectors = Unit
Fits true (some bitmap) sectors = sectors ≤ 8 * length bitmap

-- The journal of a device has a bit for every sector that the image has a byte of.
abbrev pub JournalFits : Blk → Type 0
JournalFits s = Fits s.shared s.dirty (ceil_div (length s.image) sector_size)

-- Marking returns, and the memory is left alone.
on_bitmap-returns :
    (shared : Bool) (dirty : Option (List ℕ)) (sectors sector n : ℕ) (s : Blk)
    → Fits shared dirty sectors
    → sector + n ≤ sectors
    → ((on_bitmap dirty (mark_dirty shared sector n) s).0 ≡ ok tt)
      × ((on_bitmap dirty (mark_dirty shared sector n) s).1.queue ≡ s.queue)
on_bitmap-returns shared none sectors sector n s f h = (refl, refl)
on_bitmap-returns false (some bitmap) sectors sector n s f h =
    (mark_dirty_unshared n sector bitmap, refl)
on_bitmap-returns true (some bitmap) sectors sector n s f h =
    (ap (λ r. r.0) (mark_dirty_ok true n sector bitmap (omega (arith, f, h))), refl)

-- The bytes that a write brought to the image end in it, unless there are none; the journal is as it was.
record Within (pos bytes : ℕ) (s : Blk) (r : Result (ℕ × ℕ) × Blk) : Type 0 where
  dirty_same : r.1.dirty ≡ s.dirty
  shared_same : r.1.shared ≡ s.shared
  size_same : length r.1.image ≡ length s.image
  ends : (w : ℕ) → r.0 ≡ ok (s_ok, w) → (w ≡ bytes) ⊎ (pos + w ≤ length s.image + bytes)

write_data-Within :
    (segs : List Segment) (pos bytes : ℕ) (s : Blk)
    → All (InMemory s.queue.memory) segs
    → Within pos bytes s (write_data pos bytes segs s)
write_data-Within [] pos bytes s m =
    unfold write_data in
    record {
      dirty_same = refl;
      shared_same = refl;
      size_same = refl;
      ends = λ w e. inl (ground (arith, e));
    }
write_data-Within (seg ∷ segs) pos bytes s m =
    elim (Bool-cases (ltb (length s.image) (pos + seg.len))) [
      | inl past ↦
          unfold write_data in
          rw past (record {
            dirty_same = refl;
            shared_same = refl;
            size_same = refl;
            ends = λ w e. absurd (ground (arith, e));
          })
      | inr fits ↦
          let copied = overwrite s.image pos (bytes_at seg.len seg.addr s.queue.memory) in
          let same = length-overwrite s.image pos (bytes_at seg.len seg.addr s.queue.memory) in
          let ih =
            write_data-Within segs (pos + seg.len) (bytes + seg.len) (record s { image = copied })
              m.1 in
          rw (write_data-step seg segs pos bytes s (ground (arith, fits)) m.0) (record {
            dirty_same = ih.dirty_same;
            shared_same = ih.shared_same;
            size_same = ih.size_same ∙ same;
            ends = λ w e. inr (ground (arith, fits, same, ih.ends w e));
          })
    ]

-- The end of the branch T_OUT: the journal leaves the memory alone, and does not throw.
marked_or_not :
    (size limit' limit sector : ℕ) (segs : List Segment) (s : Blk)
    → JournalFits s
    → Served size limit' (write_data (sector * sector_size) 0 segs s)
    → Within (sector * sector_size) 0 s (write_data (sector * sector_size) 0 segs s)
    → Served size limit ((do status ← serve_write sector segs; pure (status, 0)) s)
unfolding serve_write
marked_or_not size limit' limit sector segs s j v i =
    after (write_data (sector * sector_size) 0 segs s) v.same_size v.returned i
  where
    answered :
        (status : ℕ) (s' : Blk)
        → length s'.queue.memory ≡ size
        → Served size limit (ok (status, 0), s')
    answered status s' e = record {
      status = status;
      written = 0;
      few = omega arith;
      returned = refl;
      same_size = e;
    }

    noted :
        (status : ℕ) (r : Result (Unit {0}) × Blk)
        → r.0 ≡ ok tt
        → length r.1.queue.memory ≡ size
        → Served size limit (
            and_then
              (and_then (and_then r (λ u. count_call)) (λ (u : Unit {0}). pure status))
              (λ status. pure (status, 0)))
    noted status (ok u, s') h e = answered status (record s' { dirty_calls = s'.dirty_calls + 1 }) e
    noted status (fault x, s') h e = cc h

    after :
        (r : Result (ℕ × ℕ) × Blk)
        → length r.1.queue.memory ≡ size
        → r.0 ≡ ok (v.status, v.written)
        → Within (sector * sector_size) 0 s r
        → Served size limit (
            and_then
              (and_then r (λ t.
                if t.0 == s_ok && ltb 0 t.1 then (do journal sector t.1; pure t.0) else pure t.0))
              (λ status. pure (status, 0)))
    after (ok t, s') e q i = elim (Bool-cases (t.0 == s_ok && ltb 0 t.1)) [
      | inl marks ↦
          let all_well : t.0 ≡ s_ok = ground (arith, marks) in
          let ended = i.ends t.1 (ap (λ (n : ℕ). ok (n, t.1)) all_well) in
          let returns =
            on_bitmap-returns s'.shared s'.dirty (ceil_div (length s.image) sector_size) sector
              (ceil_div t.1 sector_size) s' (rw i.dirty_same (rw i.shared_same j))
              (ground (arith, marks, ended)) in
          rw marks (
            noted t.0
              (on_bitmap s'.dirty (mark_dirty s'.shared sector (ceil_div t.1 sector_size)) s')
              returns.0 (ap (λ (u : Queue). length u.memory) returns.1 ∙ e))
      | inr keeps ↦ rw keeps (answered t.0 s' e)
    ]
    after (fault x, s') e q i = cc q

pub serve-Served :
    (c : Config) (type sector : ℕ) (outs ins : List Segment) (s : Blk)
    → JournalFits s
    → All (InMemory s.queue.memory) outs
    → All (InMemory s.queue.memory) ins
    → Served (length s.queue.memory) (capacity ins) (serve c type sector outs ins s)
unfolding serve
serve-Served c type sector outs ins s j mo mi = elim (Bool-cases (type == t_in)) [
  | inl reads ↦ rw reads (weaker (read_data-Served ins (sector * sector_size) 0 s mi) (omega arith))
  | inr e ↦ elim (Bool-cases (type == t_out)) [
    | inl writes ↦ elim (Bool-cases c.read_only) [
      | inl fixed ↦ rw e (rw writes (rw fixed (refused _ (capacity ins) s_unsupp s refl)))
      | inr free ↦ rw e (
          rw writes (
            rw free (
              marked_or_not _ _ (capacity ins) sector outs s j
                (write_data-Served outs (sector * sector_size) 0 s mo)
                (write_data-Within outs (sector * sector_size) 0 s mo))))
    ]
    | inr other ↦ elim (Bool-cases (type == t_flush)) [
      | inl flush ↦ rw e (
          rw other
            (rw flush (refused _ (capacity ins) (if c.read_only then s_unsupp else s_ok) s refl)))
      | inr unknown ↦ rw e (rw other (rw unknown (refused _ (capacity ins) s_unsupp s refl)))
    ]
  ]
]
