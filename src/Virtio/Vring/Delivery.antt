-- ===== src/Virtio/Vring/Delivery.antt =====
-- Bytes that the host delivers through a receive queue (runtime/virtio/vring.ts): each time a chain is
-- popped, the bytes are written into it, and it is given back with their number.
use nix_wasm.Prelude.{
  ℕ, zero, suc, ◌+◌, ◌-◌, ◌≤◌, ◌<◌, List, [], ◌∷◌, ◌≡◌, refl, sym, ap, ◌∙◌, arith, Bool, true,
  false,
}
use nix_wasm.Prelude.{
  ◌++◌, take, Option, none, some, length, drop, drop-drop, drop-nil, length-drop,
}
use nix_wasm.Virtio.Machine.{M, Queue, Result, ok, fault, and_then, set_uint, pure}
use nix_wasm.Virtio.Vring.{
  Layout, Segment, Chain, next_chain, fill, after_segment, fill_segments, write_in, push_used,
  capacity, in_capacity,
}

-- What is left of bytes behind a step that returned.
abbrev Left : Result (List ℕ) × Queue → List ℕ → Type 0
Left r rest = (left : List ℕ) → r.0 ≡ ok left → left ≡ rest

after_byte-Left :
    (r : Result (Unit {0}) × Queue) (next : M Queue (List ℕ)) (rest : List ℕ)
    → ((q : Queue) → Left (next q) rest)
    → Left (and_then r (λ u. next)) rest
after_byte-Left (ok u, q) next rest h left e = h q left e
after_byte-Left (fault x, q) next rest h left e = cc e

fill-Left : (n addr : ℕ) (bytes : List ℕ) (q : Queue) → Left (fill n addr bytes q) (drop n bytes)
unfolding fill
fill-Left zero addr bytes q left e = ground (arith, e)
fill-Left (suc n) addr [] q left e = ground (arith, e)
fill-Left (suc n) addr (b ∷ bytes) q left e =
    after_byte-Left (set_uint 1 addr b q) (fill n (addr + 1) bytes) (drop n bytes)
      (λ q'. fill-Left n (addr + 1) bytes q') left e

after_segment-Left :
    (r : Result (List ℕ) × Queue) (mid : List ℕ) (n : ℕ) (more : List ℕ → M Queue (List ℕ))
    → Left r mid
    → ((left : List ℕ) (q : Queue) → Left (more left q) (drop n left))
    → Left (and_then r (λ left. after_segment left (more left))) (drop n mid)
after_segment-Left (ok [], q) mid n more h ih left e =
    ground (arith, e, drop-nil {A = ℕ} n) ∙ ap (drop n) (h [] refl)
after_segment-Left (ok (b ∷ bs), q) mid n more h ih left e =
    ih (b ∷ bs) q left e ∙ ap (drop n) (h (b ∷ bs) refl)
after_segment-Left (fault x, q) mid n more h ih left e = cc e

fill_segments-Left :
    (segs : List Segment) (bytes : List ℕ) (q : Queue)
    → Left (fill_segments segs bytes q) (drop (capacity segs) bytes)
unfolding fill_segments capacity
fill_segments-Left [] bytes q = λ left e. ground (arith, e)
fill_segments-Left (s ∷ segs) bytes q = λ left e.
    after_segment-Left (fill s.len s.addr bytes q) (drop s.len bytes) (capacity segs)
      (λ left. fill_segments segs left) (fill-Left s.len s.addr bytes q)
      (λ left q'. fill_segments-Left segs left q') left e
    ∙ drop-drop (capacity segs) s.len bytes

-- A write of bytes that fit the chain writes all of them.
pub write_in_all :
    (c : Chain) (bytes : List ℕ) (q : Queue) (w : ℕ)
    → length bytes ≤ in_capacity c
    → (write_in c bytes q).0 ≡ ok w
    → w ≡ length bytes
unfolding write_in in_capacity
write_in_all c bytes q w room =
    counted (fill_segments c.ins bytes q) (fill_segments-Left c.ins bytes q)
  where
    counted :
        (r : Result (List ℕ) × Queue)
        → Left r (drop (capacity c.ins) bytes)
        → (and_then r (λ left. pure (length bytes - length left))).0 ≡ ok w
        → w ≡ length bytes
    counted (ok left, q') h e =
        ground
          (arith, e, room, ap (length {A = ℕ}) (h left refl), length-drop (capacity c.ins) bytes)
    counted (fault x, q') h e = cc e

-- The bytes went to the guest: a chain with room for them was popped, they were written into it, and it
-- went into the used ring with their number.
pub record Delivered (l : Layout) (bytes : List ℕ) (q q' : Queue) : Type 0 where
  pub chain : Chain
  pub popped : Queue
  pub filled : Queue
  pub pops : next_chain l q ≡ (ok (some chain), popped)
  pub room : length bytes ≤ in_capacity chain
  pub fills : write_in chain bytes popped ≡ (ok (length bytes), filled)
  pub gives : push_used l chain.head (length bytes) filled ≡ (ok tt, q')

-- A chain with room for fewer than `limit` bytes was popped and given back empty.
pub record GivenBack (l : Layout) (limit : ℕ) (q q' : Queue) : Type 0 where
  pub chain : Chain
  pub popped : Queue
  pub pops : next_chain l q ≡ (ok (some chain), popped)
  pub small : in_capacity chain < limit
  pub gives : push_used l chain.head 0 popped ≡ (ok tt, q')

-- The queue before and after byte strings are delivered in turn, and nothing else is: chains that are too
-- small are given back. The Boolean says that something was thrown, after which the queue is not described.
pub data Deliveries (l : Layout) (limit : ℕ) : List (List ℕ) → Bool → Queue → Queue → Type 0 where
  ended : (q : Queue) → Deliveries l limit [] false q q
  starved : (q q' : Queue) → next_chain l q ≡ (ok none, q') → Deliveries l limit [] false q q'
  threw : (q q' : Queue) → Deliveries l limit [] true q q'
  too_small :
      (q t q' : Queue) (ps : List (List ℕ)) (b : Bool)
      → GivenBack l limit q t
      → Deliveries l limit ps b t q'
      → Deliveries l limit ps b q q'
  delivered :
      (bytes : List ℕ) (q t q' : Queue) (ps : List (List ℕ)) (b : Bool)
      → Delivered l bytes q t
      → Deliveries l limit ps b t q'
      → Deliveries l limit (bytes ∷ ps) b q q'

abbrev pub is_fault : {A : Type 0} → Result A → Bool
is_fault (ok a) = false
is_fault (fault x) = true

-- The same of a queue that may not be set up.
abbrev pub Delivers : Option Layout → ℕ → List (List ℕ) → Bool → Queue → Queue → Type 0
Delivers none limit pieces b q q' = (pieces ≡ []) × (q ≡ q')
Delivers (some l) limit pieces b q q' = Deliveries l limit pieces b q q'

-- Pieces as one stream of bytes.
abbrev pub flat : List (List ℕ) → List ℕ
flat [] = []
flat (piece ∷ pieces) = piece ++ flat pieces

take_nil : (n : ℕ) → take {A = ℕ} n [] ≡ []
take_nil zero = refl
take_nil (suc n) = refl

pub take_add :
    (n m : ℕ) (bytes : List ℕ) → take (n + m) bytes ≡ take n bytes ++ take m (drop n bytes)
take_add zero m bytes = let e : 0 + m ≡ m = omega arith in rw e refl
take_add (suc n) m [] = take_nil (suc n + m) ∙ sym (take_nil m)
take_add (suc n) m (b ∷ bytes) =
    let e : suc n + m ≡ suc (n + m) = omega arith in rw e (ap (λ xs. b ∷ xs) (take_add n m bytes))
