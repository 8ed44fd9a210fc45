-- ===== src/Virtio/Blk/Returns.antt =====
-- The data of a request returns: a status and a count, in a memory of the same size.
use nix_wasm.Prelude.{ℕ, ◌+◌, ◌≤◌, List, [], ◌∷◌, ◌≡◌, refl, ◌∙◌, arith}
use nix_wasm.Prelude.{
  Bool-cases, inl, inr, ltb, length, take, drop, overwrite, length-overwrite, All,
}
use nix_wasm.Virtio.Machine.{Result, ok}
use nix_wasm.Virtio.Machine.Laws.{bytes_at}
use nix_wasm.Virtio.Vring.{Segment, capacity}
use nix_wasm.Virtio.Vring.Copy.{InMemory, InMemory-overwrite}
use nix_wasm.Virtio.Blk.{Blk, read_data, write_data, s_ok, s_ioerr}
use nix_wasm.Virtio.Blk.Data.{read_data-step, write_data-step}

-- A run that returned a status and a count up to a limit, in a memory of the same size.
pub record Served (size limit : ℕ) (r : Result (ℕ × ℕ) × Blk) : Type 0 where
  pub status : ℕ
  pub written : ℕ
  pub few : written ≤ limit
  pub returned : r.0 ≡ ok (status, written)
  pub same_size : length r.1.queue.memory ≡ size

pub read_data-Served :
    (segs : List Segment) (pos written : ℕ) (s : Blk)
    → All (InMemory s.queue.memory) segs
    → Served (length s.queue.memory) (written + capacity segs) (read_data pos written segs s)
unfolding capacity
read_data-Served [] pos written s m =
    unfold read_data in
    record {
      status = s_ok;
      written = written;
      few = omega arith;
      returned = refl;
      same_size = refl;
    }
read_data-Served (seg ∷ segs) pos written s m =
    elim (Bool-cases (ltb (length s.image) (pos + seg.len))) [
      | inl past ↦
          unfold read_data in
          rw past (record {
            status = s_ioerr;
            written = written;
            few = omega arith;
            returned = refl;
            same_size = refl;
          })
      | inr fits ↦
          let bytes = take seg.len (drop pos s.image) in
          let ih =
            read_data-Served segs (pos + seg.len) (written + seg.len)
              (record s {
                queue = record s.queue { memory = overwrite s.queue.memory seg.addr bytes };
              })
              (InMemory-overwrite s.queue.memory seg.addr bytes segs m.1) in
          rw (read_data-step seg segs pos written s (ground (arith, fits)) m.0) (record {
            status = ih.status;
            written = ih.written;
            few = omega (arith, ih.few);
            returned = ih.returned;
            same_size = ih.same_size ∙ length-overwrite s.queue.memory seg.addr bytes;
          })
    ]

pub write_data-Served :
    (segs : List Segment) (pos bytes : ℕ) (s : Blk)
    → All (InMemory s.queue.memory) segs
    → Served (length s.queue.memory) (bytes + capacity segs) (write_data pos bytes segs s)
unfolding capacity
write_data-Served [] pos bytes s m =
    unfold write_data in
    record { status = s_ok; written = bytes; few = omega arith; returned = refl; same_size = refl }
write_data-Served (seg ∷ segs) pos bytes s m =
    elim (Bool-cases (ltb (length s.image) (pos + seg.len))) [
      | inl past ↦
          unfold write_data in
          rw past (record {
            status = s_ioerr;
            written = bytes;
            few = omega arith;
            returned = refl;
            same_size = refl;
          })
      | inr fits ↦
          let ih =
            write_data-Served segs (pos + seg.len) (bytes + seg.len)
              (record s {
                image = overwrite s.image pos (bytes_at seg.len seg.addr s.queue.memory);
              })
              m.1 in
          rw (write_data-step seg segs pos bytes s (ground (arith, fits)) m.0) (record {
            status = ih.status;
            written = ih.written;
            few = omega (arith, ih.few);
            returned = ih.returned;
            same_size = ih.same_size;
          })
    ]
