-- ===== src/Virtio/Disk.antt =====
-- runtime/virtio/blk-disk.ts: the journal of dirty sectors (CBHD). A Uint8Array is the list of its
-- bytes. The bitmap of dirty sectors is the state: in a SharedArrayBuffer a step behind its end throws, in
-- an ordinary buffer a read there counts as 0 and a write is dropped. `s >> 3` and `s & 7` are the quotient
-- and the remainder by 8, for a sector number below 2 ^ 31.
pub mod Marks
pub mod Bitmap
pub mod Restore
use nix_wasm.Prelude.{
  ℕ, zero, suc, ◌+◌, ◌-◌, ◌*◌, ◌/◌, ◌%◌, ◌^◌, List, [], ◌∷◌, ◌++◌, Bool, true, false,
}
use nix_wasm.Prelude.{Option, none, some, not, ◌&&◌, ltb, ◌==◌, if◌then◌else◌, length, get_elem?}
use nix_wasm.Prelude.{take, drop, overwrite}
use nix_wasm.Prelude.Bytes.{le_bytes, from_le}
use nix_wasm.Prelude.Bits.{has_bit}
use nix_wasm.Virtio.Machine.{M, ok, range_error, ◌>>=◌, ◌>>◌, pure, throw}
use Prim.Native.Nat.{bit_and, bit_or}

abbrev pub sector_size : ℕ
sector_size = 512

abbrev pub overlay_version : ℕ
overlay_version = 1

-- `bytes[i]`, behind the end 0.
unfoldable pub byte_at : List ℕ → ℕ → ℕ
byte_at bytes i = elim (get_elem? bytes i) [ none ↦ 0 | some b ↦ b ]

-- Behind the end of the bitmap: the Atomics of a shared one throw.
abbrev pub behind : {A : Type 0} → Bool → A → M (List ℕ) A
behind true a = throw range_error
behind false a = pure a

abbrev pub loaded : Bool → Option ℕ → M (List ℕ) ℕ
loaded shared none = behind shared 0
loaded shared (some b) = pure b

unfoldable pub load_byte : Bool → ℕ → M (List ℕ) ℕ
load_byte shared i bitmap = loaded shared (get_elem? bitmap i) bitmap

abbrev pub stored : Bool → ℕ → (ℕ → ℕ) → Option ℕ → M (List ℕ) (Unit {0})
stored shared i change none = behind shared tt
stored shared i change (some b) = λ bitmap. (ok tt, overwrite bitmap i (change b ∷ []))

unfoldable pub or_byte : Bool → ℕ → ℕ → M (List ℕ) (Unit {0})
or_byte shared i mask bitmap = stored shared i (λ b. bit_or b mask) (get_elem? bitmap i) bitmap

unfoldable pub and_byte : Bool → ℕ → ℕ → M (List ℕ) (Unit {0})
and_byte shared i mask bitmap = stored shared i (λ b. bit_and b mask) (get_elem? bitmap i) bitmap

-- Whether bit `s` is set, which says that sector `s` is dirty.
unfoldable pub is_dirty : List ℕ → ℕ → Bool
unfolding byte_at
is_dirty bitmap s = has_bit (byte_at bitmap (s / 8)) (s % 8)

-- `~bit & 0xff` is 255 less the bit.
abbrev pub clear_dirty : Bool → ℕ → Bool → M (List ℕ) (Unit {0})
clear_dirty shared s true = and_byte shared (s / 8) (255 - 2 ^ (s % 8))
clear_dirty shared s false = pure tt

-- The loop over the sectors: the dirty ones of `n` from `s` on.
unfoldable pub scan : Bool → Bool → ℕ → ℕ → M (List ℕ) (List ℕ)
unfolding load_byte and_byte
scan shared clear zero s = pure []
scan shared clear (suc n) s = do
  b ← load_byte shared (s / 8)
  clear_dirty shared s (has_bit b (s % 8) && clear)
  rest ← scan shared clear n (s + 1)
  pure (if has_bit b (s % 8) then s ∷ rest else rest)

-- One entry: the sector's number and its bytes.
unfoldable pub slice : List ℕ → ℕ → List ℕ
slice image s = take sector_size (drop (s * sector_size) image)

unfoldable pub entries : List ℕ → List ℕ → List ℕ
unfolding slice
entries image [] = []
entries image (s ∷ dirty) = le_bytes 4 (s % 2 ^ 32) ++ (slice image s ++ entries image dirty)

abbrev pub header : ℕ → List ℕ
header count =
    0x43
    ∷ 0x42
    ∷ 0x48
    ∷ 0x44
    ∷ (le_bytes 4 overlay_version ++ (le_bytes 4 sector_size ++ le_bytes 4 (count % 2 ^ 32)))

-- The overlay. With `clear` no scanned sector stays dirty.
unfoldable pub pack_dirty_sectors : Bool → List ℕ → Bool → M (List ℕ) (List ℕ)
unfolding scan entries
pack_dirty_sectors shared image clear = do
  found ← scan shared clear (length image / sector_size) 0
  pure (header (length found) ++ entries image found)

pub data OverlayError : Type 0 where
  truncated_header bad_magic truncated_body : OverlayError
  unsupported_version bad_block_size past_end : ℕ → OverlayError

-- How the function returns: it mutates the image, also before it throws.
pub data Outcome : Type 0 where
  done : Outcome
  thrown : OverlayError → Outcome

abbrev pub u32_at : ℕ → List ℕ → ℕ
u32_at off bytes = from_le (take 4 (drop off bytes))

-- The loop over the entries; the list is the overlay from `off` on.
unfoldable pub apply_entries : ℕ → List ℕ → List ℕ → List ℕ × Outcome
apply_entries zero image rest = (image, done)
apply_entries (suc count) image rest =
    let index = u32_at 0 rest in
    let pos = index * sector_size in
    let next =
      apply_entries count (overwrite image pos (take sector_size (drop 4 rest)))
        (drop (4 + sector_size) rest) in
    if ltb (length image) (pos + sector_size) then (image, thrown (past_end index)) else next

abbrev magic_ok : List ℕ → Bool
magic_ok overlay =
    byte_at overlay 0 == 0x43
    && (byte_at overlay 1 == 0x42 && (byte_at overlay 2 == 0x48 && byte_at overlay 3 == 0x44))

unfoldable pub apply_dirty_overlay : List ℕ → List ℕ → List ℕ × Outcome
unfolding apply_entries byte_at
apply_dirty_overlay image overlay =
    if ltb (length overlay) 16
    then (image, thrown truncated_header)
    else if not (magic_ok overlay)
    then (image, thrown bad_magic)
    else if not (u32_at 4 overlay == overlay_version)
    then (image, thrown (unsupported_version (u32_at 4 overlay)))
    else if not (u32_at 8 overlay == sector_size)
    then (image, thrown (bad_block_size (u32_at 8 overlay)))
    else if ltb (length overlay) (16 + u32_at 12 overlay * (4 + sector_size))
    then (image, thrown truncated_body)
    else apply_entries (u32_at 12 overlay) image (drop 16 overlay)

unfoldable pub dirty_bitmap_bytes : ℕ → ℕ
dirty_bitmap_bytes capacity = (capacity / sector_size + 7) / 8

-- Marks `count` sectors from `sector` on.
unfoldable pub mark_dirty : Bool → ℕ → ℕ → M (List ℕ) (Unit {0})
unfolding or_byte
mark_dirty shared sector zero = pure tt
mark_dirty shared sector (suc count) = do
  or_byte shared (sector / 8) (2 ^ (sector % 8))
  mark_dirty shared (sector + 1) count

-- The bits of a byte, the lowest first: `while (b) { n += b & 1; b >>= 1; }`.
unfoldable pub bit_count : ℕ → ℕ → ℕ
bit_count zero b = 0
bit_count (suc fuel) b = let rest = bit_count fuel (b / 2) in if b == 0 then 0 else b % 2 + rest

-- Eight rounds are enough for a byte.
unfoldable pub dirty_sector_count : List ℕ → ℕ
unfolding bit_count
dirty_sector_count [] = 0
dirty_sector_count (b ∷ bitmap) = bit_count 8 b + dirty_sector_count bitmap
