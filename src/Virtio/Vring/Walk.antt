-- ===== src/Virtio/Vring/Walk.antt =====
-- Descriptor chains as walks through the table, and what `_readChain` makes of them.
use nix_wasm.Prelude.{ℕ, zero, suc, ◌+◌, ◌≤◌, ◌<◌, List, [], ◌∷◌, ◌++◌, true, false, ◌≡◌, refl}
use nix_wasm.Prelude.{
  sym, ◌∙◌, arith, if◌then◌else◌, length, append_assoc, append-nil, Bool-cases, inl, inr, leb, ap₂,
}
use nix_wasm.Virtio.Machine.{Queue, ok, fault, chain_too_long}
use nix_wasm.Virtio.Vring.{
  Layout, Segment, Descriptor, is_write, has_next, read_descriptor, chain_loop, read_chain,
}

-- A chain from a descriptor on: it ends at the first one without the NEXT flag.
pub data Walk (l : Layout) (q : Queue) : ℕ → List Descriptor → Type 0 where
  last :
      {i : ℕ} {d : Descriptor}
      → read_descriptor l i q ≡ (ok d, q)
      → has_next d ≡ false
      → Walk l q i (d ∷ [])
  link :
      {i : ℕ} {d : Descriptor} {ds : List Descriptor}
      → read_descriptor l i q ≡ (ok d, q)
      → has_next d ≡ true
      → Walk l q d.next_index ds
      → Walk l q i (d ∷ ds)

-- The segments that the device reads, and those that it writes, in the chain's order.
abbrev pub readable : List Descriptor → List Segment
readable [] = []
readable (d ∷ ds) = if is_write d then readable ds else d.segment ∷ readable ds

abbrev pub writable : List Descriptor → List Segment
writable [] = []
writable (d ∷ ds) = if is_write d then d.segment ∷ writable ds else writable ds

module _ (l : Layout) (q : Queue) where
  abbrev outs_after : List Segment → Descriptor → List Segment
  outs_after outs d = if is_write d then outs else outs ++ (d.segment ∷ [])

  abbrev ins_after : List Segment → Descriptor → List Segment
  ins_after ins d = if is_write d then ins ++ (d.segment ∷ []) else ins

  -- One round, by the flag of the descriptor that is read.
  chain_loop-last :
      (rounds i : ℕ) (outs ins : List Segment) {d : Descriptor}
      → read_descriptor l i q ≡ (ok d, q)
      → has_next d ≡ false
      → chain_loop l (suc rounds) i outs ins q ≡ (ok (outs_after outs d, ins_after ins d), q)
  unfolding chain_loop
  chain_loop-last rounds i outs ins e f = rw e (rw f)

  chain_loop-link :
      (rounds i : ℕ) (outs ins : List Segment) {d : Descriptor}
      → read_descriptor l i q ≡ (ok d, q)
      → has_next d ≡ true
      → chain_loop l (suc rounds) i outs ins q
        ≡ chain_loop l rounds d.next_index (outs_after outs d) (ins_after ins d) q
  unfolding chain_loop
  chain_loop-link rounds i outs ins e f = rw e (rw f)

  readable-cons :
      (outs : List Segment) (d : Descriptor) (ds : List Descriptor)
      → outs_after outs d ++ readable ds ≡ outs ++ readable (d ∷ ds)
  readable-cons outs d ds = elim (Bool-cases (is_write d)) [
    | inl w ↦ rw w
    | inr r ↦ rw r (append_assoc outs (d.segment ∷ []) (readable ds))
  ]

  writable-cons :
      (ins : List Segment) (d : Descriptor) (ds : List Descriptor)
      → ins_after ins d ++ writable ds ≡ ins ++ writable (d ∷ ds)
  writable-cons ins d ds = elim (Bool-cases (is_write d)) [
    | inl w ↦ rw w (append_assoc ins (d.segment ∷ []) (writable ds))
    | inr r ↦ rw r
  ]

  chain_loop-Walk :
      (rounds : ℕ) (outs ins : List Segment) {i : ℕ} {ds : List Descriptor}
      → Walk l q i ds
      → length ds ≤ rounds
      → chain_loop l rounds i outs ins q ≡ (ok (outs ++ readable ds, ins ++ writable ds), q)
  chain_loop-Walk zero outs ins (last e f) h = absurd (omega arith)
  chain_loop-Walk zero outs ins (link e f w) h = absurd (omega arith)
  chain_loop-Walk (suc rounds) outs ins (last {i = i} {d = d} e f) h =
      chain_loop-last rounds i outs ins e f
      ∙ ap₂ (λ o n. (ok (o, n), q)) (sym (append-nil _) ∙ readable-cons outs d [])
          (sym (append-nil _) ∙ writable-cons ins d [])
  chain_loop-Walk (suc rounds) outs ins (link {i = i} {d = d} {ds = ds} e f w) h =
      chain_loop-link rounds i outs ins e f
      ∙ chain_loop-Walk rounds (outs_after outs d) (ins_after ins d) w (omega arith)
      ∙ ap₂ (λ o n. (ok (o, n), q)) (readable-cons outs d ds) (writable-cons ins d ds)

  chain_loop-too_long :
      (rounds : ℕ) (outs ins : List Segment) {i : ℕ} {ds : List Descriptor}
      → Walk l q i ds
      → rounds < length ds
      → chain_loop l rounds i outs ins q ≡ (fault chain_too_long, q)
  chain_loop-too_long zero outs ins w h = unfold chain_loop in refl
  chain_loop-too_long (suc rounds) outs ins (last e f) h = absurd (omega arith)
  chain_loop-too_long (suc rounds) outs ins (link {i = i} {d = d} e f w) h =
      chain_loop-link rounds i outs ins e f
      ∙ chain_loop-too_long rounds (outs_after outs d) (ins_after ins d) w (omega arith)

-- Where the descriptors from the head on end in one without the NEXT flag: a chain of up to one
-- descriptor more than the ring has is read, its segments in order and by their direction, and a
-- longer one is refused. Neither changes the queue.
pub read_chain-Walk :
    (l : Layout) (q : Queue) {head : ℕ} {ds : List Descriptor}
    → Walk l q head ds
    → read_chain l head q ≡ (
        if leb (length ds) (l.num + 1)
        then (ok (readable ds, writable ds), q)
        else (fault chain_too_long, q))
unfolding read_chain
read_chain-Walk l q {ds = ds} w = elim (Bool-cases (leb (length ds) (l.num + 1))) [
  | inl fits ↦ rw fits (chain_loop-Walk l q (l.num + 1) [] [] w (ground arith))
  | inr long ↦ rw long (chain_loop-too_long l q (l.num + 1) [] [] w (ground arith))
]
