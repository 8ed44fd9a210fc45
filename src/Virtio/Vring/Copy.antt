-- ===== src/Virtio/Vring/Copy.antt =====
-- Segments of a chain whose bytes are in the memory: what reading them gathers, and what filling them pours
-- into it (runtime/virtio/vring.ts).
use nix_wasm.Prelude.{
  ℕ, zero, suc, ◌+◌, ◌-◌, ◌≤◌, List, [], ◌∷◌, ◌++◌, ◌≡◌, refl, sym, ap, ap₂, ◌∙◌,
}
use nix_wasm.Prelude.{arith, length, take, drop, overwrite, All, overwrite-nil, length-overwrite}
use nix_wasm.Prelude.{length-append, take-append-drop, take-nil, drop-nil, drop-drop, All-mono}
use nix_wasm.Prelude.Bytes.{IsByte}
use nix_wasm.Virtio.Machine.{Queue, ok, set_uint, bind_ok}
use nix_wasm.Virtio.Machine.Laws.{bytes_at, peek, get_uint_ok, set_uint_ok}
use nix_wasm.Virtio.Vring.{
  Segment, read_segment, read_segments, fill, fill_segments, capacity, after_segment,
}
use native.Mathlib.Nat.{mod-eq_of_lt}

abbrev pub InMemory : List ℕ → Segment → Type 0
InMemory memory s = s.addr + s.len ≤ length memory

-- The segments' bytes, one after another.
unfoldable pub gather : List ℕ → List Segment → List ℕ
gather memory [] = []
gather memory (s ∷ segs) = bytes_at s.len s.addr memory ++ gather memory segs

-- The memory after the bytes are poured into the segments.
unfoldable pub pour : List ℕ → List Segment → List ℕ → List ℕ
pour memory [] bytes = memory
pour memory (s ∷ segs) bytes =
    pour (overwrite memory s.addr (take s.len bytes)) segs (drop s.len bytes)

bytes_at-suc :
    (n addr : ℕ) (memory : List ℕ)
    → addr + suc n ≤ length memory
    → bytes_at (suc n) addr memory ≡ peek 1 addr memory ∷ bytes_at n (addr + 1) memory
unfolding peek
bytes_at-suc n zero [] h = absurd (omega arith)
bytes_at-suc n zero (b ∷ memory) h = ap (λ (a : ℕ). a ∷ take n memory) (omega arith)
bytes_at-suc n (suc addr) [] h = absurd (omega arith)
bytes_at-suc n (suc addr) (b ∷ memory) h =
    let e : suc addr + 1 ≡ suc (addr + 1) = omega arith in
    rw e (bytes_at-suc n addr memory (omega arith))

read_segment_ok :
    (n addr : ℕ) (q : Queue)
    → addr + n ≤ length q.memory
    → read_segment n addr q ≡ (ok (bytes_at n addr q.memory), q)
unfolding read_segment
read_segment_ok zero addr q h = refl
read_segment_ok (suc n) addr q h = rw (get_uint_ok 1 addr q (omega arith)) (
    rw (read_segment_ok n (addr + 1) q (omega arith))
      (ap (λ t. (ok t, q)) (sym (bytes_at-suc n addr q.memory h))))

pub read_segments_ok :
    (segs : List Segment) (q : Queue)
    → All (InMemory q.memory) segs
    → read_segments segs q ≡ (ok (gather q.memory segs), q)
unfolding read_segments gather
read_segments_ok [] q h = refl
read_segments_ok (s ∷ segs) q h =
    rw (read_segment_ok s.len s.addr q h.0) (rw (read_segments_ok segs q h.1))

overwrite-cons :
    (xs : List ℕ) (n y : ℕ) (ys : List ℕ)
    → overwrite (overwrite xs n (y ∷ [])) (n + 1) ys ≡ overwrite xs n (y ∷ ys)
overwrite-cons [] n y ys = refl
overwrite-cons (x ∷ xs) zero y ys = ap (λ zs. y ∷ overwrite zs 0 ys) (overwrite-nil xs 0)
overwrite-cons (x ∷ xs) (suc n) y ys =
    let e : suc n + 1 ≡ suc (n + 1) = omega arith in
    rw e (ap (λ zs. x ∷ zs) (overwrite-cons xs n y ys))

fill_ok :
    (n addr : ℕ) (bytes : List ℕ) (q : Queue)
    → addr + n ≤ length q.memory
    → All IsByte bytes
    → fill n addr bytes q
      ≡ (ok (drop n bytes), record q { memory = overwrite q.memory addr (take n bytes) })
unfolding fill
fill_ok zero addr bytes q h hb =
    ap (λ (m : List ℕ). (ok bytes, record q { memory = m })) (sym (overwrite-nil q.memory addr))
fill_ok (suc n) addr [] q h hb =
    ap (λ (m : List ℕ). (ok [], record q { memory = m })) (sym (overwrite-nil q.memory addr))
fill_ok (suc n) addr (b ∷ bytes) q h hb =
    bind_ok (set_uint 1 addr b) (λ _. fill n (addr + 1) bytes) q written
    ∙ fill_ok n (addr + 1) bytes (record q { memory = overwrite q.memory addr (b ∷ []) })
        (rw length-overwrite (omega arith)) hb.1
    ∙ ap (λ (m : List ℕ). (ok (drop n bytes), record q { memory = m }))
        (overwrite-cons q.memory addr b (take n bytes))
  where
    written : set_uint 1 addr b q ≡ (ok tt, record q { memory = overwrite q.memory addr (b ∷ []) })
    written =
        set_uint_ok 1 addr b q (omega arith)
        ∙ ap (λ (v : ℕ). (ok tt, record q { memory = overwrite q.memory addr (v ∷ []) }))
            (mod-eq_of_lt hb.0)

drop-AreBytes : (n : ℕ) (bytes : List ℕ) → All IsByte bytes → All IsByte (drop n bytes)
drop-AreBytes zero bytes h = h
drop-AreBytes (suc n) [] h = tt
drop-AreBytes (suc n) (b ∷ bytes) h = drop-AreBytes n bytes h.1

pour-nil : (memory : List ℕ) (segs : List Segment) → pour memory segs [] ≡ memory
unfolding pour
pour-nil memory [] = refl
pour-nil memory (s ∷ segs) = rw (take-nil, drop-nil) (pour-nil _ segs ∙ overwrite-nil memory s.addr)

pub length-pour :
    (memory : List ℕ) (segs : List Segment) (bytes : List ℕ)
    → length (pour memory segs bytes) ≡ length memory
unfolding pour
length-pour memory [] bytes = refl
length-pour memory (s ∷ segs) bytes = length-pour _ segs _ ∙ length-overwrite memory _ _

-- The loop stops where nothing is left, and would change nothing if it went on.
after_segment_ok :
    (segs : List Segment) (left : List ℕ) (q : Queue)
    → fill_segments segs left q
      ≡ (ok (drop (capacity segs) left), record q { memory = pour q.memory segs left })
    → after_segment left (fill_segments segs left) q
      ≡ (ok (drop (capacity segs) left), record q { memory = pour q.memory segs left })
after_segment_ok segs [] q ih =
    ap₂ (λ (t m : List ℕ). (ok t, record q { memory = m })) (sym (drop-nil (capacity segs)))
      (sym (pour-nil q.memory segs))
after_segment_ok segs (b ∷ left) q ih = ih

pub InMemory-overwrite :
    (memory : List ℕ) (at : ℕ) (bytes : List ℕ) (segs : List Segment)
    → All (InMemory memory) segs
    → All (InMemory (overwrite memory at bytes)) segs
InMemory-overwrite memory at bytes = All-mono (λ s h. rw length-overwrite h)

-- What is left of the bytes when the segments are full, or nothing.
pub fill_segments_ok :
    (segs : List Segment) (bytes : List ℕ) (q : Queue)
    → All (InMemory q.memory) segs
    → All IsByte bytes
    → fill_segments segs bytes q
      ≡ (ok (drop (capacity segs) bytes), record q { memory = pour q.memory segs bytes })
unfolding fill_segments capacity pour
fill_segments_ok [] bytes q h hb = refl
fill_segments_ok (s ∷ segs) bytes q h hb =
    let q' = record q { memory = overwrite q.memory s.addr (take s.len bytes) } in
    let left = drop s.len bytes in
    let ih =
      fill_segments_ok segs left q' (InMemory-overwrite q.memory s.addr (take s.len bytes) segs h.1)
        (drop-AreBytes s.len bytes hb) in
    bind_ok (fill s.len s.addr bytes) (λ l. after_segment l (fill_segments segs l)) q
      (fill_ok s.len s.addr bytes q h.0 hb)
    ∙ after_segment_ok segs left q' ih
    ∙ ap (λ (t : List ℕ). (ok t, record q { memory = pour q'.memory segs left }))
        (drop-drop (capacity segs) s.len bytes)

pub written :
    (n : ℕ) (bytes : List ℕ) → length bytes - length (drop n bytes) ≡ length (take n bytes)
written n bytes = omega (
  arith,
  length-append (take n bytes) (drop n bytes),
  ap (length {A = ℕ}) (take-append-drop n bytes),
)
