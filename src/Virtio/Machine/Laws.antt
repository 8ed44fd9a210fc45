-- ===== src/Virtio/Machine/Laws.antt =====
-- Reads and writes of the linear memory: what a read in bounds gives, and a read after a write.
use nix_wasm.Prelude.{ℕ, ◌+◌, ◌-◌, ◌^◌, ◌≤◌, ◌<◌, List, ◌≡◌, ap, ◌∙◌, arith}
use nix_wasm.Prelude.{◌⊎◌, length, take, drop, overwrite, get_elem?, le→leb, leb_of_lt, ltb}
use nix_wasm.Prelude.{if◌then◌else◌, none}
use nix_wasm.Prelude.Bytes.{le_bytes, from_le, length-le_bytes, from_le-le_bytes}
use nix_wasm.Prelude.Lookup.{
  get_elem?-ext, get_elem?-take, get_elem?-drop, get_elem?-overwrite, get_elem?-past_end,
}
use nix_wasm.Virtio.Machine.{Queue, ok, fault, range_error, get_uint, set_uint}

-- The `n` bytes at `off`, and the number that they are.
abbrev pub bytes_at : ℕ → ℕ → List ℕ → List ℕ
bytes_at n off memory = take n (drop off memory)

unfoldable pub peek : ℕ → ℕ → List ℕ → ℕ
peek n off memory = from_le (bytes_at n off memory)

pub get_uint_ok :
    (n off : ℕ) (q : Queue)
    → off + n ≤ length q.memory
    → get_uint n off q ≡ (ok (peek n off q.memory), q)
unfolding get_uint peek
get_uint_ok n off q h = rw (le→leb (off + n) (length q.memory) h)

pub get_uint_fault :
    (n off : ℕ) (q : Queue) → length q.memory < off + n → get_uint n off q ≡ (fault range_error, q)
unfolding get_uint
get_uint_fault n off q h = rw (leb_of_lt (off + n) (length q.memory) h)

pub set_uint_ok :
    (n off v : ℕ) (q : Queue)
    → off + n ≤ length q.memory
    → set_uint n off v q ≡ (ok tt, record q { memory = overwrite q.memory off (le_bytes n v) })
unfolding set_uint
set_uint_ok n off v q h = rw (length-le_bytes n v) (rw (le→leb (off + n) (length q.memory) h))

get_elem?-bytes_at :
    (n off i : ℕ) (memory : List ℕ)
    → get_elem? (bytes_at n off memory) i ≡ (if ltb i n then get_elem? memory (off + i) else none)
get_elem?-bytes_at n off i memory =
    get_elem?-take n i (drop off memory) ∙ ground (arith, get_elem?-drop off i memory)

pub bytes_at-overwrite_same :
    (memory : List ℕ) (off : ℕ) (bytes : List ℕ)
    → off + length bytes ≤ length memory
    → bytes_at (length bytes) off (overwrite memory off bytes) ≡ bytes
bytes_at-overwrite_same memory off bytes h = get_elem?-ext _ _ (λ i.
    let back : off + i - off ≡ i = omega arith in
    get_elem?-bytes_at (length bytes) off i (overwrite memory off bytes)
    ∙ ground (
      arith,
      get_elem?-overwrite memory off bytes (off + i) h,
      ap (get_elem? bytes) back,
      get_elem?-past_end bytes i,
    ))

-- A write elsewhere does not show.
pub bytes_at-overwrite_apart :
    (memory : List ℕ) (off n at : ℕ) (bytes : List ℕ)
    → at + length bytes ≤ length memory
    → (off + n ≤ at) ⊎ (at + length bytes ≤ off)
    → bytes_at n off (overwrite memory at bytes) ≡ bytes_at n off memory
bytes_at-overwrite_apart memory off n at bytes h apart = get_elem?-ext _ _ (λ i.
    get_elem?-bytes_at n off i (overwrite memory at bytes)
    ∙ ground
        (arith, get_elem?-bytes_at n off i memory, get_elem?-overwrite memory at bytes (off + i) h))

pub peek-overwrite_same :
    (memory : List ℕ) (n off v : ℕ)
    → off + n ≤ length memory
    → v < 256 ^ n
    → peek n off (overwrite memory off (le_bytes n v)) ≡ v
unfolding peek
peek-overwrite_same memory n off v h small =
    let len = length-le_bytes n v in
    ap from_le (rw len at (bytes_at-overwrite_same memory off (le_bytes n v) (rw len h)))
    ∙ from_le-le_bytes n v small

pub peek-overwrite_apart :
    (memory : List ℕ) (off n at k v : ℕ)
    → at + k ≤ length memory
    → (off + n ≤ at) ⊎ (at + k ≤ off)
    → peek n off (overwrite memory at (le_bytes k v)) ≡ peek n off memory
unfolding peek
peek-overwrite_apart memory off n at k v h apart =
    let len = length-le_bytes k v in
    ap from_le (bytes_at-overwrite_apart memory off n at (le_bytes k v) (rw len h) (rw len apart))
