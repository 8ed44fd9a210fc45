-- ===== src/Virtio/Vring/Transfer.antt =====
-- `readOut` and `writeIn`: the bytes that a chain's segments hold, in order.
use nix_wasm.Prelude.{ℕ, zero, suc, ◌+◌, ◌≤◌, List, [], ◌∷◌, ◌++◌, ◌≡◌, refl, sym, ap, ap₂, ◌∙◌}
use nix_wasm.Prelude.{arith, ◌⊎◌, length, take, drop, overwrite, All}
use nix_wasm.Prelude.{length-take, length-drop, length-take_le, take-nil, drop-nil, All-mono}
use nix_wasm.Prelude.Bytes.{IsByte}
use nix_wasm.Virtio.Machine.{Queue, ok, ◌>>=◌}
use nix_wasm.Virtio.Machine.Laws.{bytes_at, bytes_at-overwrite_apart}
use nix_wasm.Virtio.Vring.{Segment, Chain, read_out, write_in, capacity, in_capacity}
use nix_wasm.Virtio.Vring.Copy.{
  InMemory, InMemory-overwrite, fill_segments_ok, gather, length-pour, pour, read_segments_ok,
  written,
}

-- With writable segments in the memory, `writeIn` does not throw: it pours the bytes into the
-- segments in order, as far as the bytes or the room go, and returns how many it wrote.
pub write_in_lem :
    (c : Chain) (bytes : List ℕ) (q : Queue)
    → All (InMemory q.memory) c.ins
    → All IsByte bytes
    → write_in c bytes q
      ≡ (ok (length (take (capacity c.ins) bytes)), record q { memory = pour q.memory c.ins bytes })
unfolding write_in
write_in_lem c bytes q h hb = rw (fill_segments_ok c.ins bytes q h hb) (
    ap (λ (n : ℕ). (ok n, record q { memory = pour q.memory c.ins bytes }))
      (written (capacity c.ins) bytes))

-- No segment meets another one.
abbrev pub Apart : Segment → Segment → Type 0
Apart s t = (s.addr + s.len ≤ t.addr) ⊎ (t.addr + t.len ≤ s.addr)

abbrev pub AllApart : List Segment → Type 0
AllApart [] = Unit
AllApart (s ∷ segs) = All (Apart s) segs × AllApart segs

bytes_at-pour :
    (s : Segment) (segs : List Segment) (memory bytes : List ℕ)
    → All (InMemory memory) segs
    → All (Apart s) segs
    → bytes_at s.len s.addr (pour memory segs bytes) ≡ bytes_at s.len s.addr memory
unfolding pour
bytes_at-pour s [] memory bytes h a = refl
bytes_at-pour s (t ∷ segs) memory bytes h a =
    bytes_at-pour s segs (overwrite memory t.addr (take t.len bytes)) (drop t.len bytes)
      (InMemory-overwrite memory t.addr (take t.len bytes) segs h.1) a.1
    ∙ bytes_at-overwrite_apart memory s.addr s.len t.addr (take t.len bytes)
        (omega (arith, h.0, length-take_le t.len bytes))
        (grind (arith, a.0, length-take_le t.len bytes))

gather-overwrite-Apart :
    (s : Segment) (segs : List Segment) (memory bytes : List ℕ)
    → InMemory memory s
    → All (Apart s) segs
    → gather (overwrite memory s.addr (take s.len bytes)) segs ≡ gather memory segs
unfolding gather
gather-overwrite-Apart s [] memory bytes h a = refl
gather-overwrite-Apart s (t ∷ segs) memory bytes h a =
    ap₂ (λ x y. x ++ y)
      (bytes_at-overwrite_apart memory t.addr t.len s.addr (take s.len bytes)
        (omega (arith, h, length-take_le s.len bytes))
        (grind (arith, a.0, length-take_le s.len bytes)))
      (gather-overwrite-Apart s segs memory bytes h a.1)

-- One segment: what was written, and behind it what stood there.
front_filled :
    (n : ℕ) (memory bytes : List ℕ)
    → n ≤ length memory
    → take n (overwrite memory 0 (take n bytes))
      ≡ take n bytes ++ drop (length bytes) (take n memory)
front_filled zero memory bytes h = sym (drop-nil (length bytes))
front_filled (suc n) [] bytes h = absurd (omega arith)
front_filled (suc n) (m ∷ memory) [] h = refl
front_filled (suc n) (m ∷ memory) (b ∷ bytes) h =
    ap (λ zs. b ∷ zs) (front_filled n memory bytes (omega arith))

bytes_at-filled :
    (n at : ℕ) (memory bytes : List ℕ)
    → at + n ≤ length memory
    → bytes_at n at (overwrite memory at (take n bytes))
      ≡ take n bytes ++ drop (length bytes) (bytes_at n at memory)
bytes_at-filled n zero memory bytes h = front_filled n memory bytes (omega arith)
bytes_at-filled n (suc at) [] bytes h = absurd (omega arith)
bytes_at-filled n (suc at) (m ∷ memory) bytes h = bytes_at-filled n at memory bytes (omega arith)

-- A front of old content and the rest behind it, filled one after the other or at once.
fill_in_two :
    (c : ℕ) (bytes front back : List ℕ)
    → (take (length front) bytes ++ drop (length bytes) front)
        ++ (take c (drop (length front) bytes) ++ drop (length (drop (length front) bytes)) back)
      ≡ take (length front + c) bytes ++ drop (length bytes) (front ++ back)
fill_in_two c bytes [] back = let e : 0 + c ≡ c = omega arith in rw (drop-nil, e)
fill_in_two c [] (f ∷ front) back = simp take-nil
fill_in_two c (b ∷ bytes) (f ∷ front) back =
    let e : suc (length front) + c ≡ suc (length front + c) = omega arith in
    rw e (ap (λ zs. b ∷ zs) (fill_in_two c bytes front back))

pub length-bytes_at :
    (n at : ℕ) (memory : List ℕ) → at + n ≤ length memory → length (bytes_at n at memory) ≡ n
length-bytes_at n at memory h = length-take n (drop at memory) (rw length-drop (omega arith))

-- After `writeIn` into segments that lie apart, the segments hold the bytes that were written and,
-- behind those, what they held before.
pub gather-pour :
    (segs : List Segment) (memory bytes : List ℕ)
    → All (InMemory memory) segs
    → AllApart segs
    → gather (pour memory segs bytes) segs
      ≡ take (capacity segs) bytes ++ drop (length bytes) (gather memory segs)
unfolding gather pour capacity
gather-pour [] memory bytes h a = sym (drop-nil (length bytes))
gather-pour (s ∷ segs) memory bytes h a =
    let next = overwrite memory s.addr (take s.len bytes) in
    let left = drop s.len bytes in
    let inside = InMemory-overwrite memory s.addr (take s.len bytes) segs h.1 in
    let len = length-bytes_at s.len s.addr memory h.0 in
    ap₂ (λ x y. x ++ y)
      (bytes_at-pour s segs next left inside a.0 ∙ bytes_at-filled s.len s.addr memory bytes h.0)
      (gather-pour segs next left inside a.1
        ∙ ap (λ t. take (capacity segs) left ++ drop (length left) t)
            (gather-overwrite-Apart s segs memory bytes h.0 a.0))
    ∙ rw len at
        (fill_in_two (capacity segs) bytes (bytes_at s.len s.addr memory) (gather memory segs))

-- What `writeIn` puts into segments that lie apart in the memory, `readOut` of the same segments
-- gives back: the bytes as far as the room goes, and behind them what the segments held before.
pub read_out-write_in :
    (c d : Chain) (bytes : List ℕ) (q : Queue)
    → d.outs ≡ c.ins
    → All (InMemory q.memory) c.ins
    → AllApart c.ins
    → All IsByte bytes
    → ((do n ← write_in c bytes; read_out d) q).0
      ≡ ok (take (in_capacity c) bytes ++ drop (length bytes) (gather q.memory c.ins))
unfolding read_out in_capacity
read_out-write_in c d bytes q same h a hb =
    let q' = record q { memory = pour q.memory c.ins bytes } in
    rw (write_in_lem c bytes q h hb) (
      rw same (
        ap (λ t. t.0) (read_segments_ok c.ins q' (All-mono (λ s k. rw length-pour k) c.ins h))
        ∙ ap ok (gather-pour c.ins q.memory bytes h a)))
