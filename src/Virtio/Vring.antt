-- ===== src/Virtio/Vring.antt =====
-- runtime/virtio/vring.ts: the split virtqueue that a device services. The ring's size is positive,
-- as virtio has it.
pub mod Walk
pub mod Used
pub mod Order
pub mod Copy
pub mod Transfer
pub mod Delivery
use nix_wasm.Prelude.{ℕ, zero, suc, ◌+◌, ◌-◌, ◌*◌, ◌%◌, ◌^◌, List, [], ◌∷◌, ◌++◌, Bool, true, false}
use nix_wasm.Prelude.{Option, none, some, not, ◌==◌, if◌then◌else◌, length}
use nix_wasm.Prelude.Number.{to_number}
use nix_wasm.Virtio.Machine.{M, Queue, chain_too_long, ◌>>=◌, ◌>>◌, pure, throw, get_uint, set_uint}
use Prim.Native.Nat.{bit_and}

abbrev pub desc_f_next : ℕ
desc_f_next = 1

abbrev pub desc_f_write : ℕ
desc_f_write = 2

pub record Layout : Type 0 where
  pub desc : ℕ
  pub avail : ℕ
  pub used : ℕ
  pub num : ℕ

pub record Segment : Type 0 where
  pub addr : ℕ
  pub len : ℕ

-- A popped chain: its head, and its readable and writable segments.
pub record Chain : Type 0 where
  pub head : ℕ
  pub outs : List Segment
  pub ins : List Segment

-- A descriptor of the table, as `_readChain` reads it.
pub record Descriptor : Type 0 where
  pub segment : Segment
  pub flags : ℕ
  pub next_index : ℕ

abbrev pub is_write : Descriptor → Bool
is_write d = not (bit_and d.flags desc_f_write == 0)

abbrev pub has_next : Descriptor → Bool
has_next d = not (bit_and d.flags desc_f_next == 0)

module _ (l : Layout) where
  unfoldable pub avail_idx : M Queue ℕ
  avail_idx = get_uint 2 (l.avail + 2)

  unfoldable pub has_avail : M Queue Bool
  unfolding avail_idx
  has_avail q = (do i ← avail_idx; pure (not (q.last_avail == i))) q

  unfoldable pub read_descriptor : ℕ → M Queue Descriptor
  read_descriptor i = do
    addr ← get_uint 8 (l.desc + i * 16)
    len ← get_uint 4 (l.desc + i * 16 + 8)
    flags ← get_uint 2 (l.desc + i * 16 + 12)
    next ← get_uint 2 (l.desc + i * 16 + 14)
    pure (record {
      segment = record { addr = to_number addr; len = len };
      flags = flags;
      next_index = next;
    })

  -- The loop of `_readChain`, on the rounds that are left.
  unfoldable pub chain_loop :
      ℕ → ℕ → List Segment → List Segment → M Queue (List Segment × List Segment)
  unfolding read_descriptor
  chain_loop zero i outs ins = throw chain_too_long
  chain_loop (suc rounds) i outs ins = do
    d ← read_descriptor i
    let outs' = if is_write d then outs else outs ++ (d.segment ∷ [])
    let ins' = if is_write d then ins ++ (d.segment ∷ []) else ins
    let rest = chain_loop rounds d.next_index outs' ins'
    if has_next d then rest else pure (outs', ins')

  -- `guard <= num`: one round more than the ring has descriptors.
  unfoldable pub read_chain : ℕ → M Queue (List Segment × List Segment)
  unfolding chain_loop
  read_chain head = chain_loop (l.num + 1) head [] []

  abbrev pub advance : M Queue (Unit {0})
  advance q = pure tt (record q { last_avail = (q.last_avail + 1) % 2 ^ 16 })

  unfoldable pub pop : ℕ → M Queue (Option Chain)
  unfolding read_chain
  pop last = do
    head ← get_uint 2 (l.avail + 4 + last % l.num * 2)
    segs ← read_chain head
    advance
    pure (some (record { head = head; outs = segs.0; ins = segs.1 }))

  -- `next`
  unfoldable pub next_chain : M Queue (Option Chain)
  unfolding pop
  next_chain q =
      (do i ← get_uint 2 (l.avail + 2); if q.last_avail == i then pure none else pop q.last_avail) q

  -- used.ring[idx % num] = { id: head, len }; used.idx++
  unfoldable pub push_used : ℕ → ℕ → M Queue (Unit {0})
  push_used head len = do
    used_idx ← get_uint 2 (l.used + 2)
    set_uint 4 (l.used + 4 + used_idx % l.num * 8) (head % 2 ^ 32)
    set_uint 4 (l.used + 4 + used_idx % l.num * 8 + 4) (len % 2 ^ 32)
    set_uint 2 (l.used + 2) ((used_idx + 1) % 2 ^ 16)

-- `for (b = 0; b < s.len; b++) buf[off++] = getUint8(s.addr + b)`
unfoldable pub read_segment : ℕ → ℕ → M Queue (List ℕ)
read_segment zero addr = pure []
read_segment (suc n) addr = do
  b ← get_uint 1 addr
  rest ← read_segment n (addr + 1)
  pure (b ∷ rest)

unfoldable pub read_segments : List Segment → M Queue (List ℕ)
unfolding read_segment
read_segments [] = pure []
read_segments (s ∷ segs) = do
  bytes ← read_segment s.len s.addr
  rest ← read_segments segs
  pure (bytes ++ rest)

unfoldable pub read_out : Chain → M Queue (List ℕ)
unfolding read_segments
read_out c = read_segments c.outs

-- The inner loop of `writeIn`: what is left of the bytes after one segment.
unfoldable pub fill : ℕ → ℕ → List ℕ → M Queue (List ℕ)
fill zero addr bytes = pure bytes
fill (suc n) addr [] = pure []
fill (suc n) addr (b ∷ bytes) = do set_uint 1 addr b; fill n (addr + 1) bytes

abbrev after_segment : List ℕ → M Queue (List ℕ) → M Queue (List ℕ)
after_segment [] more = pure []
after_segment (b ∷ left) more = more

unfoldable pub fill_segments : List Segment → List ℕ → M Queue (List ℕ)
unfolding fill
fill_segments [] bytes = pure bytes
fill_segments (s ∷ segs) bytes = do
  left ← fill s.len s.addr bytes
  let more = fill_segments segs left
  after_segment left more

-- The number of bytes written.
unfoldable pub write_in : Chain → List ℕ → M Queue ℕ
unfolding fill_segments
write_in c bytes = do left ← fill_segments c.ins bytes; pure (length bytes - length left)

unfoldable pub capacity : List Segment → ℕ
capacity [] = 0
capacity (s ∷ segs) = s.len + capacity segs

unfoldable pub in_capacity : Chain → ℕ
unfolding capacity
in_capacity c = capacity c.ins
