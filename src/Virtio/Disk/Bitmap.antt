-- ===== src/Virtio/Disk/Bitmap.antt =====
-- Which sectors are dirty after each operation on the bitmap.
use nix_wasm.Prelude.{ℕ, zero, suc, ◌+◌, ◌-◌, ◌*◌, ◌/◌, ◌%◌, ◌^◌, ◌≤◌, ◌<◌, List, [], ◌∷◌, Bool}
use nix_wasm.Prelude.{false, ◌≡◌, refl, ◌∙◌, arith, not, ◌&&◌, ◌||◌, ltb, leb, ◌==◌}
use nix_wasm.Prelude.{if◌then◌else◌, length, All, overwrite}
use nix_wasm.Prelude.{length-overwrite, overwrite-nil, Bool-cases, inl, inr}
use nix_wasm.Prelude.Bytes.{IsByte}
use nix_wasm.Prelude.Bits.{has_bit-set, has_bit-clear, set-lt, clear-lt}
use nix_wasm.Virtio.Machine.{ok}
use nix_wasm.Virtio.Disk.{byte_at, is_dirty, mark_dirty}
use nix_wasm.Virtio.Disk.Marks.{with_bit, without_bit, found, marked, mark_dirty_ok}
use Prim.Native.Nat.{bit_and, bit_or}

byte_at-lt : (bitmap : List ℕ) (i : ℕ) → All IsByte bitmap → byte_at bitmap i < 256
unfolding byte_at
byte_at-lt [] i h = omega arith
byte_at-lt (b ∷ bitmap) zero h = h.0
byte_at-lt (b ∷ bitmap) (suc i) h = byte_at-lt bitmap i h.1

-- A byte that is replaced, and the others.
byte_at-overwrite :
    (bitmap : List ℕ) (i j v : ℕ)
    → i < length bitmap
    → byte_at (overwrite bitmap i (v ∷ [])) j ≡ (if i == j then v else byte_at bitmap j)
unfolding byte_at
byte_at-overwrite [] i j v h = absurd (omega arith)
byte_at-overwrite (b ∷ bitmap) zero zero v h = ground arith
byte_at-overwrite (b ∷ bitmap) zero (suc j) v h = rw (overwrite-nil bitmap 0) (ground arith)
byte_at-overwrite (b ∷ bitmap) (suc i) zero v h = ground arith
byte_at-overwrite (b ∷ bitmap) (suc i) (suc j) v h =
    byte_at-overwrite bitmap i j v (omega arith) ∙ ground arith

overwrite-AreBytes :
    (bitmap : List ℕ) (i v : ℕ)
    → v < 256
    → All IsByte bitmap
    → All IsByte (overwrite bitmap i (v ∷ []))
overwrite-AreBytes [] i v hv h = h
overwrite-AreBytes (b ∷ bitmap) zero v hv h = (hv, rw overwrite-nil h.1)
overwrite-AreBytes (b ∷ bitmap) (suc i) v hv h = (h.0, overwrite-AreBytes bitmap i v hv h.1)

-- A bitmap of bytes that has a bit for each of so many sectors.
pub record Covers (sectors : ℕ) (bitmap : List ℕ) : Type 0 where
  pub bytes : All IsByte bitmap
  pub wide : sectors ≤ 8 * length bitmap

module _ {sectors : ℕ} {bitmap : List ℕ} (c : Covers sectors bitmap) (s : ℕ)
    (hs : s < sectors) where
  pub with_bit-Covers : Covers sectors (with_bit bitmap (s / 8) (2 ^ (s % 8)))
  unfolding with_bit
  with_bit-Covers = record {
    bytes =
        overwrite-AreBytes _ _ _ (set-lt _ _ (byte_at-lt bitmap _ c.bytes) (omega arith)) c.bytes;
    wide = rw length-overwrite c.wide;
  }

  pub without_bit-Covers : Covers sectors (without_bit bitmap s)
  unfolding without_bit
  without_bit-Covers = record {
    bytes =
        overwrite-AreBytes _ _ _ (clear-lt _ _ (byte_at-lt bitmap _ c.bytes) (omega arith)) c.bytes;
    wide = rw length-overwrite c.wide;
  }

  inside : s / 8 < length bitmap
  inside = omega (arith, c.wide, hs)

  same_bit : (k : ℕ) → k / 8 ≡ s / 8 → k % 8 == s % 8 ≡ k == s
  same_bit k h = ground arith

  -- Setting a sector's bit sets it, and no other.
  pub is_dirty-with_bit :
      (k : ℕ) → is_dirty (with_bit bitmap (s / 8) (2 ^ (s % 8))) k ≡ ((k == s) || is_dirty bitmap k)
  unfolding is_dirty with_bit
  is_dirty-with_bit k =
      let b = byte_at bitmap (s / 8) in
      ground (
        arith,
        byte_at-overwrite bitmap (s / 8) (k / 8) (bit_or b (2 ^ (s % 8))) inside,
        has_bit-set b (s % 8) (k % 8) (byte_at-lt bitmap (s / 8) c.bytes) (omega arith)
            (omega arith),
        same_bit k,
      )

  pub is_dirty-without_bit :
      (k : ℕ) → is_dirty (without_bit bitmap s) k ≡ (not (k == s) && is_dirty bitmap k)
  unfolding is_dirty without_bit
  is_dirty-without_bit k =
      let b = byte_at bitmap (s / 8) in
      ground (
        arith,
        byte_at-overwrite bitmap (s / 8) (k / 8) (bit_and b (255 - 2 ^ (s % 8))) inside,
        has_bit-clear b (s % 8) (k % 8) (byte_at-lt bitmap (s / 8) c.bytes) (omega arith)
            (omega arith),
        same_bit k,
      )

pub is_dirty-marked :
    {sectors : ℕ} (count sector : ℕ) {bitmap : List ℕ} (c : Covers sectors bitmap) (k : ℕ)
    → sector + count ≤ sectors
    → is_dirty (marked bitmap sector count) k
      ≡ ((leb sector k && ltb k (sector + count)) || is_dirty bitmap k)
unfolding marked
is_dirty-marked zero sector c k h = ground arith
is_dirty-marked {sectors} (suc count) sector c k h =
    let hs : sector < sectors = omega arith in
    ground (
      arith,
      is_dirty-with_bit c sector hs k,
      is_dirty-marked count (sector + 1) (with_bit-Covers c sector hs) k (omega arith),
    )

pub marked-Covers :
    {sectors : ℕ} (count sector : ℕ) {bitmap : List ℕ}
    → Covers sectors bitmap
    → sector + count ≤ sectors
    → Covers sectors (marked bitmap sector count)
unfolding marked
marked-Covers zero sector c h = c
marked-Covers (suc count) sector c h =
    marked-Covers count (sector + 1) (with_bit-Covers c sector (omega arith)) (omega arith)

-- In a bitmap of bytes that covers the marked sectors, shared or not, marking them does not throw, and
-- exactly those become dirty: the others are as they were.
pub is_dirty-mark_dirty :
    {sectors : ℕ} (shared : Bool) (count sector : ℕ) {bitmap : List ℕ} (c : Covers sectors bitmap)
    (k : ℕ)
    → sector + count ≤ sectors
    → ((mark_dirty shared sector count bitmap).0 ≡ ok tt)
      × (is_dirty (mark_dirty shared sector count bitmap).1 k
          ≡ ((leb sector k && ltb k (sector + count)) || is_dirty bitmap k))
is_dirty-mark_dirty shared count sector {bitmap} c k h =
    rw (mark_dirty_ok shared count sector bitmap (omega (arith, c.wide, h)))
      (refl, is_dirty-marked count sector c k h)

unfoldable pub contains : List ℕ → ℕ → Bool
contains [] k = false
contains (s ∷ rest) k = (k == s) || contains rest k

-- One round of the scan keeps the bitmap wide enough, and the bits of the other sectors.
abbrev scanned : List ℕ → Bool → ℕ → List ℕ
scanned bitmap clear s = if is_dirty bitmap s && clear then without_bit bitmap s else bitmap

module _ {sectors : ℕ} {bitmap : List ℕ} (c : Covers sectors bitmap) (clear : Bool) (s : ℕ) where
  scanned-Covers : s < sectors → Covers sectors (scanned bitmap clear s)
  scanned-Covers h = elim (Bool-cases (is_dirty bitmap s && clear)) [
    | inl e ↦ rw e (without_bit-Covers c s h)
    | inr e ↦ rw e c
  ]

  is_dirty-scanned :
      (k : ℕ)
      → s < sectors
      → is_dirty (scanned bitmap clear s) k
        ≡ (if (k == s) && clear then false else is_dirty bitmap k)
  is_dirty-scanned k h = ground (arith, is_dirty-without_bit c s h k)

-- The scan finds exactly the dirty sectors of its range.
pub contains-found :
    {sectors : ℕ} (clear : Bool) (n s : ℕ) {bitmap : List ℕ} (c : Covers sectors bitmap) (k : ℕ)
    → s + n ≤ sectors
    → contains (found clear n s bitmap).0 k ≡ ((leb s k && ltb k (s + n)) && is_dirty bitmap k)
unfolding contains found
contains-found clear zero s c k h = ground arith
contains-found {sectors} clear (suc n) s c k h =
    let hs : s < sectors = omega arith in
    ground (
      arith,
      is_dirty-scanned c clear s k hs,
      contains-found clear n (s + 1) (scanned-Covers c clear s hs) k (omega arith),
    )

-- With `clear` the sectors of the range are clean afterwards; nothing else changes.
pub is_dirty-found :
    {sectors : ℕ} (clear : Bool) (n s : ℕ) {bitmap : List ℕ} (c : Covers sectors bitmap) (k : ℕ)
    → s + n ≤ sectors
    → is_dirty (found clear n s bitmap).1 k
      ≡ (if clear && (leb s k && ltb k (s + n)) then false else is_dirty bitmap k)
unfolding found
is_dirty-found clear zero s c k h = ground arith
is_dirty-found {sectors} clear (suc n) s c k h =
    let hs : s < sectors = omega arith in
    ground (
      arith,
      is_dirty-scanned c clear s k hs,
      is_dirty-found clear n (s + 1) (scanned-Covers c clear s hs) k (omega arith),
    )

-- The scan lists sectors of its range only.
pub found_below :
    (limit : ℕ) (clear : Bool) (n s : ℕ) (bitmap : List ℕ)
    → s + n ≤ limit
    → All (λ d. d < limit) (found clear n s bitmap).0
unfolding found
found_below limit clear zero s bitmap h = tt
found_below limit clear (suc n) s bitmap h =
    let rest = found_below limit clear n (s + 1) (scanned bitmap clear s) (omega arith) in
    elim (Bool-cases (is_dirty bitmap s)) [
      | inl e ↦ rw e (omega arith, rw e at rest)
      | inr e ↦ rw e (rw e at rest)
    ]

pub length-found :
    (clear : Bool) (n s : ℕ) (bitmap : List ℕ) → length (found clear n s bitmap).0 ≤ n
unfolding found
length-found clear zero s bitmap = omega arith
length-found clear (suc n) s bitmap =
    ground (arith, length-found clear n (s + 1) (scanned bitmap clear s))
