-- ===== src/Virtio/Shared.antt =====
-- runtime/virtio/shared-queues.ts: the table of queue layouts that the workers share. The state is the
-- words of the Int32Array, each as its 32 bits (a ring size is below 2 ^ 31, so that its word reads
-- the same with a sign). Numbers are nonnegative integers, a BigInt becomes a Number by rounding.
pub mod Words
pub mod Slots
pub mod Cursor
use nix_wasm.Prelude.{
  ℕ, zero, suc, ◌+◌, ◌*◌, ◌/◌, ◌%◌, ◌^◌, List, [], ◌∷◌, Bool, Option, none, some,
}
use nix_wasm.Prelude.{◌||◌, leb, ◌==◌, if◌then◌else◌, get_elem?, overwrite, replicate}
use nix_wasm.Prelude.Number.{to_number}
use nix_wasm.Virtio.Machine.{M, ok, past_table, ◌>>=◌, ◌>>◌, pure, throw}
use nix_wasm.Virtio.Vring.{Layout}

abbrev pub slot_words : ℕ
slot_words = 9

abbrev pub max_devs : ℕ
max_devs = 16

abbrev pub max_qs : ℕ
max_qs = 4

abbrev pub config_base : ℕ
config_base = max_devs * max_qs * slot_words

abbrev pub total_words : ℕ
total_words = config_base + max_devs

abbrev pub Words : Type 0
Words = List ℕ

-- A new SharedArrayBuffer is zeros.
unfoldable pub make_shared_queues : Words
make_shared_queues = replicate total_words 0

unfoldable pub word : Words → ℕ → ℕ
word ws i = elim (get_elem? ws i) [ none ↦ 0 | some w ↦ w ]

abbrev pub load : ℕ → M Words ℕ
load i ws = (ok (word ws i), ws)

-- Stores from `i` on, one after another, each as 32 bits.
unfoldable pub store_from : ℕ → List ℕ → Words → Words
store_from i [] ws = ws
store_from i (v ∷ vs) ws = store_from (i + 1) vs (overwrite ws i (v % 2 ^ 32 ∷ []))

abbrev pub store_words : ℕ → List ℕ → M Words (Unit {0})
store_words i vs ws = (ok tt, store_from i vs ws)

abbrev pub base_of : ℕ → ℕ → ℕ
base_of dev q = (dev * max_qs + q) * slot_words

unfoldable pub slot_base : ℕ → ℕ → M Words ℕ
slot_base dev q =
    if leb max_devs dev || leb max_qs q then throw past_table else pure (base_of dev q)

-- The nine words of a slot.
abbrev pub slot_of : ℕ → ℕ → ℕ → ℕ → List ℕ
slot_of desc avail used num =
    to_number desc % 2 ^ 32
    ∷ to_number desc / 2 ^ 32
    ∷ to_number avail % 2 ^ 32
    ∷ to_number avail / 2 ^ 32
    ∷ to_number used % 2 ^ 32
    ∷ to_number used / 2 ^ 32
    ∷ to_number num
    ∷ 0
    ∷ 1
    ∷ []

-- `(i[lo] >>> 0) + (i[hi] >>> 0) * 0x100000000`, a sum of Numbers.
abbrev pub u32_pair : ℕ → ℕ → ℕ
u32_pair lo hi = to_number (lo + hi * 2 ^ 32)

-- The layout in a slot that is valid.
unfoldable pub read_layout : ℕ → M Words (Option Layout)
unfolding word
read_layout b ws = (
  ok (
      some (record {
        desc = u32_pair (word ws (b + 0)) (word ws (b + 1));
        avail = u32_pair (word ws (b + 2)) (word ws (b + 3));
        used = u32_pair (word ws (b + 4)) (word ws (b + 5));
        num = word ws (b + 6);
      })),
  ws,
)

module _ (dev q : ℕ) where
  unfoldable pub set : ℕ → ℕ → ℕ → ℕ → M Words (Unit {0})
  unfolding slot_base store_from
  set desc avail used num = do b ← slot_base dev q; store_words b (slot_of desc avail used num)

  unfoldable pub has : M Words Bool
  unfolding slot_base word
  has = do b ← slot_base dev q; valid ← load (b + 8); pure (valid == 1)

  unfoldable pub get : M Words (Option Layout)
  unfolding slot_base read_layout
  get = do
    b ← slot_base dev q
    valid ← load (b + 8)
    if valid == 1 then read_layout b else pure none

  unfoldable pub load_last_avail : M Words ℕ
  unfolding slot_base word
  load_last_avail = do b ← slot_base dev q; v ← load (b + 7); pure (v % 2 ^ 16)

  unfoldable pub store_last_avail : ℕ → M Words (Unit {0})
  unfolding slot_base store_from
  store_last_avail v = do b ← slot_base dev q; store_words (b + 7) (v % 2 ^ 16 ∷ [])

  -- Forgets a queue: the words 8 and 7 of its slot.
  unfoldable pub clear : M Words (Unit {0})
  unfolding slot_base store_from
  clear = do b ← slot_base dev q; store_words (b + 8) (0 ∷ []); store_words (b + 7) (0 ∷ [])

-- `((rows & 0xffff) << 16) | (cols & 0xffff)`
unfoldable pub set_config_size : ℕ → ℕ → ℕ → M Words (Unit {0})
unfolding store_from
set_config_size dev cols rows =
    if leb max_devs dev
    then throw past_table
    else store_words (config_base + dev) ((rows % 2 ^ 16 * 2 ^ 16 + cols % 2 ^ 16) ∷ [])

-- The columns and the rows.
unfoldable pub get_config_size : ℕ → M Words (ℕ × ℕ)
unfolding word
get_config_size dev =
    if leb max_devs dev
    then throw past_table
    else do packed ← load (config_base + dev); pure (packed % 2 ^ 16, packed / 2 ^ 16 % 2 ^ 16)
