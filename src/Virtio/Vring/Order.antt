-- ===== src/Virtio/Vring/Order.antt =====
-- The order in which chains are popped from the avail ring.
use nix_wasm.Prelude.{
  ℕ, zero, suc, ◌+◌, ◌-◌, ◌*◌, ◌%◌, ◌^◌, ◌≤◌, ◌<◌, List, [], ◌≡◌, ◌≢◌, refl, sym, ap, ◌∙◌,
}
use nix_wasm.Prelude.{
  arith, ◌⊎◌, inl, inr, length, leb, ◌==◌, if◌then◌else◌, none, some, Bool-cases,
}
use nix_wasm.Virtio.Machine.{Queue, Result, Fault, ok, fault, chain_too_long, get_uint}
use nix_wasm.Virtio.Machine.Laws.{peek, get_uint_ok}
use nix_wasm.Virtio.Machine.ReadOnly.{
  ReadOnly, pure-ReadOnly, throw-ReadOnly, >>=-ReadOnly, if-ReadOnly, get_uint-ReadOnly,
}
use nix_wasm.Virtio.Vring.{
  Layout, Segment, Chain, Descriptor, has_next, read_descriptor, chain_loop, read_chain, pop,
  next_chain,
}
use nix_wasm.Virtio.Vring.Walk.{Walk, readable, writable, read_chain-Walk}
use native.Mathlib.Nat.{mod-lt}

-- The avail ring lies in the memory, and has an entry.
pub record AvailFits (l : Layout) (q : Queue) : Type 0 where
  pub positive : 0 < l.num
  pub in_memory : l.avail + 4 + l.num * 2 ≤ length q.memory

abbrev pub guest_idx : Layout → Queue → ℕ
guest_idx l q = peek 2 (l.avail + 2) q.memory

-- The head in the slot that the host's cursor points to.
abbrev pub next_head : Layout → Queue → ℕ
next_head l q = peek 2 (l.avail + 4 + q.last_avail % l.num * 2) q.memory

abbrev pub advanced : Queue → Queue
advanced q = record q { last_avail = (q.last_avail + 1) % 2 ^ 16 }

module _ (l : Layout) (q : Queue) (fits : AvailFits l q) where
  slot-lt : q.last_avail % l.num < l.num
  slot-lt = mod-lt q.last_avail fits.positive

  idx_read : get_uint 2 (l.avail + 2) q ≡ (ok (guest_idx l q), q)
  idx_read = get_uint_ok 2 (l.avail + 2) q (omega (arith, fits.in_memory, fits.positive))

  head_read : get_uint 2 (l.avail + 4 + q.last_avail % l.num * 2) q ≡ (ok (next_head l q), q)
  head_read = get_uint_ok 2 _ q (omega (arith, slot-lt, fits.in_memory))

  next_chain-none : q.last_avail ≡ guest_idx l q → next_chain l q ≡ (ok none, q)
  unfolding next_chain
  next_chain-none e = rw idx_read (ground arith)

  next_chain-pop : q.last_avail ≢ guest_idx l q → next_chain l q ≡ pop l q.last_avail q
  unfolding next_chain
  next_chain-pop ne = rw idx_read (ground arith)

  pop_ok :
      {outs ins : List Segment}
      → read_chain l (next_head l q) q ≡ (ok (outs, ins), q)
      → pop l q.last_avail q
        ≡ (ok (some (record { head = next_head l q; outs = outs; ins = ins })), advanced q)
  unfolding pop
  pop_ok e = rw head_read (rw e)

  pop_fault :
      {x : Fault}
      → read_chain l (next_head l q) q ≡ (fault x, q)
      → pop l q.last_avail q ≡ (fault x, q)
  unfolding pop
  pop_fault e = rw head_read (rw e)

-- With an avail ring that has an entry and lies in the memory, and a chain that ends from the head in
-- the cursor's slot on: with nothing waiting there is no chain. Otherwise the chain in the cursor's slot is popped, if it
-- has at most one descriptor more than the ring, and the cursor moves on by one; a longer chain is
-- refused and the cursor stays.
pub next_chain-Walk :
    (l : Layout) (q : Queue) {ds : List Descriptor}
    → AvailFits l q
    → Walk l q (next_head l q) ds
    → next_chain l q ≡ (
        if q.last_avail == guest_idx l q
        then (ok none, q)
        else if leb (length ds) (l.num + 1)
        then (
          ok (some (record { head = next_head l q; outs = readable ds; ins = writable ds })),
          advanced q,
        )
        else (fault chain_too_long, q))
next_chain-Walk l q {ds = ds} fits w = elim (Bool-cases (q.last_avail == guest_idx l q)) [
  | inl e ↦ rw e (next_chain-none l q fits (ground arith))
  | inr ne ↦ rw ne (
      next_chain-pop l q fits (ground arith) ∙ elim (Bool-cases (leb (length ds) (l.num + 1))) [
        | inl short ↦ rw short (pop_ok l q fits (rw short at (read_chain-Walk l q w)))
        | inr long ↦ rw long (pop_fault l q fits (rw long at (read_chain-Walk l q w)))
      ])
]

read_descriptor-ReadOnly : (l : Layout) (i : ℕ) → ReadOnly (read_descriptor l i)
unfolding read_descriptor
read_descriptor-ReadOnly l i = >>=-ReadOnly _ _ (get_uint-ReadOnly 8 _) λ addr.
    >>=-ReadOnly _ _ (get_uint-ReadOnly 4 _) λ len.
      >>=-ReadOnly _ _ (get_uint-ReadOnly 2 _)
        λ flags. >>=-ReadOnly _ _ (get_uint-ReadOnly 2 _) λ next. pure-ReadOnly _

chain_loop-ReadOnly :
    (l : Layout) (rounds i : ℕ) (outs ins : List Segment)
    → ReadOnly (chain_loop l rounds i outs ins)
unfolding chain_loop
chain_loop-ReadOnly l zero i outs ins = throw-ReadOnly _
chain_loop-ReadOnly l (suc rounds) i outs ins =
    >>=-ReadOnly (read_descriptor l i) _ (read_descriptor-ReadOnly l i) λ d.
      if-ReadOnly (has_next d) _ _ (chain_loop-ReadOnly l rounds d.next_index _ _) (pure-ReadOnly _)

read_chain-ReadOnly : (l : Layout) (head : ℕ) → ReadOnly (read_chain l head)
unfolding read_chain
read_chain-ReadOnly l head = chain_loop-ReadOnly l (l.num + 1) head [] []

-- How many chains the guest has exposed and the host not taken.
abbrev pub waiting : Layout → Queue → ℕ
waiting l q = (guest_idx l q + 2 ^ 16 - q.last_avail) % 2 ^ 16

Result-cases :
    {A S : Type 0} (r : Result A × S)
    → ((a : A) × (s : S) × (r ≡ (ok a, s))) ⊎ ((x : Fault) × (s : S) × (r ≡ (fault x, s)))
Result-cases (ok a, s) = inl (a, s, refl)
Result-cases (fault x, s) = inr (x, s, refl)

pop_inv :
    (l : Layout) (q q' : Queue) (c : Chain)
    → AvailFits l q
    → pop l q.last_avail q ≡ (ok (some c), q')
    → (c.head ≡ next_head l q) × (q' ≡ advanced q)
pop_inv l q q' c fits e = elim (Result-cases (read_chain l (next_head l q) q)) [
  | inl ((outs, ins), s, r) ↦
      let here : read_chain l (next_head l q) q ≡ (ok (outs, ins), q) =
        r ∙ ap (λ t. (ok (outs, ins), t)) (unmoved r) in
      let both = sym (pop_ok l q fits here) ∙ e in (ground (arith, both), sym (ap (λ t. t.1) both))
  | inr (x, s, r) ↦
      let here : read_chain l (next_head l q) q ≡ (fault x, q) =
        r ∙ ap (λ t. (fault x, t)) (unmoved r) in
      cc (sym (pop_fault l q fits here) ∙ e)
]
  where
    unmoved :
        {r : Result (List Segment × List Segment)} {s : Queue}
        → read_chain l (next_head l q) q ≡ (r, s)
        → s ≡ q
    unmoved e' = sym (ap (λ t. t.1) e') ∙ (read_chain-ReadOnly l (next_head l q)).same q

-- With an avail ring that has an entry and lies in the memory, and both indices below 2 ^ 16: when a
-- chain is popped, its head is the one in the cursor's slot, the memory stays, and one chain fewer
-- waits, so that the chains are taken in the guest's order, each once.
pub next_chain-waiting :
    (l : Layout) (q q' : Queue) (c : Chain)
    → AvailFits l q
    → q.last_avail < 2 ^ 16
    → guest_idx l q < 2 ^ 16
    → next_chain l q ≡ (ok (some c), q')
    → (c.head ≡ next_head l q) × (q'.memory ≡ q.memory) × (waiting l q' + 1 ≡ waiting l q)
next_chain-waiting l q q' c fits small idx e = elim (Bool-cases (q.last_avail == guest_idx l q)) [
  | inl same ↦ cc (sym (next_chain-none l q fits (ground arith)) ∙ e)
  | inr ne ↦
      let (head, moved) =
        pop_inv l q q' c fits (sym (next_chain-pop l q fits (ground arith)) ∙ e) in
      (head, ap (λ t. t.memory) moved, rw moved (ground arith))
]
