-- ===== src/Virtio/Vring/Used.antt =====
-- What `pushUsed` publishes, and what it leaves alone.
use nix_wasm.Prelude.{ℕ, ◌+◌, ◌*◌, ◌%◌, ◌^◌, ◌≤◌, ◌<◌, List, ◌≡◌, ◌≢◌, ◌∙◌}
use nix_wasm.Prelude.{arith, ◌⊎◌, inl, inr, length, overwrite, length-overwrite}
use nix_wasm.Prelude.Bytes.{le_bytes}
use nix_wasm.Virtio.Machine.{Queue, ok}
use nix_wasm.Virtio.Machine.Laws.{
  peek, get_uint_ok, set_uint_ok, peek-overwrite_same, peek-overwrite_apart,
}
use nix_wasm.Virtio.Vring.{Layout, push_used}
use native.Mathlib.Nat.{mod-lt, mod-eq_of_lt}

-- The used ring lies in the memory, and has an entry.
pub record UsedFits (l : Layout) (q : Queue) : Type 0 where
  pub positive : 0 < l.num
  pub in_memory : l.used + 4 + l.num * 8 ≤ length q.memory

abbrev pub used_idx : Layout → List ℕ → ℕ
used_idx l memory = peek 2 (l.used + 2) memory

abbrev pub entry_at : Layout → ℕ → ℕ
entry_at l slot = l.used + 4 + slot * 8

module _ (l : Layout) (head len : ℕ) (q : Queue) (fits : UsedFits l q) where
  abbrev idx : ℕ
  idx = used_idx l q.memory

  abbrev slot : ℕ
  slot = idx % l.num

  slot-lt : slot < l.num
  slot-lt = mod-lt idx fits.positive

  in_ring : entry_at l slot + 8 ≤ length q.memory
  in_ring = omega (arith, slot-lt, fits.in_memory)

  abbrev with_id : List ℕ
  with_id = overwrite q.memory (entry_at l slot) (le_bytes 4 (head % 2 ^ 32))

  abbrev with_len : List ℕ
  with_len = overwrite with_id (entry_at l slot + 4) (le_bytes 4 (len % 2 ^ 32))

  abbrev pub published : List ℕ
  published = overwrite with_len (l.used + 2) (le_bytes 2 ((idx + 1) % 2 ^ 16))

  length-with_id : length with_id ≡ length q.memory
  length-with_id = length-overwrite q.memory _ _

  length-with_len : length with_len ≡ length q.memory
  length-with_len = length-overwrite with_id _ _ ∙ length-with_id

  pub push_used-published : push_used l head len q ≡ (ok tt, record q { memory = published })
  unfolding push_used
  push_used-published = rw (get_uint_ok 2 (l.used + 2) q (omega (arith, in_ring))) (
      rw (set_uint_ok 4 (entry_at l slot) (head % 2 ^ 32) q (omega (arith, in_ring))) (
        rw
          (set_uint_ok 4 (entry_at l slot + 4) (len % 2 ^ 32) (record q { memory = with_id })
            (omega (arith, in_ring, length-with_id)))
          (set_uint_ok 2 (l.used + 2) ((idx + 1) % 2 ^ 16) (record q { memory = with_len })
            (omega (arith, in_ring, length-with_len)))))

  pub length-published : length published ≡ length q.memory
  length-published = length-overwrite with_len _ _ ∙ length-with_len

  -- A range that meets neither the index nor the entry.
  pub peek-published_apart :
      (n off : ℕ)
      → (off + n ≤ l.used + 2) ⊎ (l.used + 4 ≤ off)
      → (off + n ≤ entry_at l slot) ⊎ (entry_at l slot + 8 ≤ off)
      → peek n off published ≡ peek n off q.memory
  peek-published_apart n off outside apart =
      peek-overwrite_apart with_len off n (l.used + 2) 2 ((idx + 1) % 2 ^ 16)
        (omega (arith, in_ring, length-with_len)) (grind arith)
      ∙ peek-overwrite_apart with_id off n (entry_at l slot + 4) 4 (len % 2 ^ 32)
          (omega (arith, in_ring, length-with_id)) (grind arith)
      ∙ peek-overwrite_apart q.memory off n (entry_at l slot) 4 (head % 2 ^ 32)
          (omega (arith, in_ring)) (grind arith)

  pub used_idx-published : used_idx l published ≡ (idx + 1) % 2 ^ 16
  used_idx-published =
      peek-overwrite_same with_len 2 (l.used + 2) ((idx + 1) % 2 ^ 16)
        (omega (arith, in_ring, length-with_len)) (omega arith)

  pub id-published : head < 2 ^ 32 → peek 4 (entry_at l slot) published ≡ head
  id-published h =
      peek-overwrite_apart with_len (entry_at l slot) 4 (l.used + 2) 2 ((idx + 1) % 2 ^ 16)
        (omega (arith, in_ring, length-with_len)) (inr (omega arith))
      ∙ peek-overwrite_apart with_id (entry_at l slot) 4 (entry_at l slot + 4) 4 (len % 2 ^ 32)
          (omega (arith, in_ring, length-with_id)) (inl (omega arith))
      ∙ peek-overwrite_same q.memory 4 (entry_at l slot) (head % 2 ^ 32) (omega (arith, in_ring))
          (omega arith)
      ∙ mod-eq_of_lt h

  pub len-published : len < 2 ^ 32 → peek 4 (entry_at l slot + 4) published ≡ len
  len-published h =
      peek-overwrite_apart with_len (entry_at l slot + 4) 4 (l.used + 2) 2 ((idx + 1) % 2 ^ 16)
        (omega (arith, in_ring, length-with_len)) (inr (omega arith))
      ∙ peek-overwrite_same with_id 4 (entry_at l slot + 4) (len % 2 ^ 32)
          (omega (arith, in_ring, length-with_id)) (omega arith)
      ∙ mod-eq_of_lt h

-- The memory after a buffer is given back: its entry stands at the old index, the index is one more,
-- and every other entry, and all that lies outside the used ring, is as it was.
pub record Published (l : Layout) (head len : ℕ) (before after : List ℕ) : Type 0 where
  pub same_size : length after ≡ length before
  pub index : used_idx l after ≡ (used_idx l before + 1) % 2 ^ 16
  pub id : peek 4 (entry_at l (used_idx l before % l.num)) after ≡ head
  pub size : peek 4 (entry_at l (used_idx l before % l.num) + 4) after ≡ len
  pub others :
      (j : ℕ)
      → j < l.num
      → j ≢ used_idx l before % l.num
      → peek 8 (entry_at l j) after ≡ peek 8 (entry_at l j) before
  pub outside :
      (n off : ℕ)
      → (off + n ≤ l.used + 2) ⊎ (l.used + 4 + l.num * 8 ≤ off)
      → peek n off after ≡ peek n off before

-- With a used ring that has an entry and lies in the memory, and a head and a length below 2 ^ 32,
-- `pushUsed` does not throw. The entry at the old index then holds the head and the length, the index
-- is one more modulo 2 ^ 16, and every other entry and all outside the used ring is as it was.
pub push_used-Published :
    (l : Layout) (head len : ℕ) (q : Queue)
    → UsedFits l q
    → head < 2 ^ 32
    → len < 2 ^ 32
    → (after : List ℕ) × (push_used l head len q ≡ (ok tt, record q { memory = after }))
      × Published l head len q.memory after
push_used-Published l head len q fits h k = (
  published l head len q fits,
  push_used-published l head len q fits,
  record {
    same_size = length-published l head len q fits;
    index = used_idx-published l head len q fits;
    id = id-published l head len q fits h;
    size = len-published l head len q fits k;
    others = λ j hj ne.
        peek-published_apart l head len q fits 8 (entry_at l j) (inr (omega arith)) (ground arith);
    outside = λ n off o.
        peek-published_apart l head len q fits n off (ground (arith, slot-lt l head len q fits))
          (ground (arith, slot-lt l head len q fits));
  },
)
