-- ===== src/Virtio/Disk/Marks.antt =====
-- What the operations on a bitmap do where it is long enough, and that they do not throw there.
use nix_wasm.Prelude.{
  ℕ, zero, suc, ◌+◌, ◌-◌, ◌*◌, ◌/◌, ◌%◌, ◌^◌, ◌≤◌, ◌<◌, List, [], ◌∷◌, Bool, true, false, ◌≡◌, refl,
  ap, arith,
}
use nix_wasm.Prelude.{Option, none, some, ◌&&◌, if◌then◌else◌, length, overwrite, get_elem?}
use nix_wasm.Prelude.{length-overwrite}
use nix_wasm.Virtio.Machine.{M, ok, ◌>>◌}
use nix_wasm.Virtio.Disk.{
  byte_at, loaded, stored, load_byte, or_byte, and_byte, is_dirty, clear_dirty, scan, mark_dirty,
}
use Prim.Native.Nat.{bit_and, bit_or}

unfoldable pub with_bit : List ℕ → ℕ → ℕ → List ℕ
with_bit bitmap i mask = overwrite bitmap i (bit_or (byte_at bitmap i) mask ∷ [])

unfoldable pub without_bit : List ℕ → ℕ → List ℕ
without_bit bitmap s =
    overwrite bitmap (s / 8) (bit_and (byte_at bitmap (s / 8)) (255 - 2 ^ (s % 8)) ∷ [])

-- The dirty sectors of a range, and the bitmap that is left.
unfoldable pub found : Bool → ℕ → ℕ → List ℕ → List ℕ × List ℕ
found clear zero s bitmap = ([], bitmap)
found clear (suc n) s bitmap =
    let hit = is_dirty bitmap s in
    let next = found clear n (s + 1) (if hit && clear then without_bit bitmap s else bitmap) in
    (if hit then s ∷ next.0 else next.0, next.1)

unfoldable pub marked : List ℕ → ℕ → ℕ → List ℕ
marked bitmap sector zero = bitmap
marked bitmap sector (suc count) =
    marked (with_bit bitmap (sector / 8) (2 ^ (sector % 8))) (sector + 1) count

get_elem?-byte_at :
    (bytes : List ℕ) (i : ℕ) → i < length bytes → get_elem? bytes i ≡ some (byte_at bytes i)
unfolding byte_at
get_elem?-byte_at [] i h = absurd (omega arith)
get_elem?-byte_at (b ∷ bytes) zero h = refl
get_elem?-byte_at (b ∷ bytes) (suc i) h = get_elem?-byte_at bytes i (omega arith)

module _ (shared : Bool) (bitmap : List ℕ) (i : ℕ) (h : i < length bitmap) where
  load_byte_ok : load_byte shared i bitmap ≡ (ok (byte_at bitmap i), bitmap)
  unfolding load_byte
  load_byte_ok = ap (λ o. loaded shared o bitmap) (get_elem?-byte_at bitmap i h)

  or_byte_ok : (mask : ℕ) → or_byte shared i mask bitmap ≡ (ok tt, with_bit bitmap i mask)
  unfolding or_byte with_bit
  or_byte_ok mask =
      ap (λ o. stored shared i (λ b. bit_or b mask) o bitmap) (get_elem?-byte_at bitmap i h)

  and_byte_ok :
      (mask : ℕ)
      → and_byte shared i mask bitmap
        ≡ (ok tt, overwrite bitmap i (bit_and (byte_at bitmap i) mask ∷ []))
  unfolding and_byte
  and_byte_ok mask =
      ap (λ o. stored shared i (λ b. bit_and b mask) o bitmap) (get_elem?-byte_at bitmap i h)

pub mark_dirty_ok :
    (shared : Bool) (count sector : ℕ) (bitmap : List ℕ)
    → sector + count ≤ 8 * length bitmap
    → mark_dirty shared sector count bitmap ≡ (ok tt, marked bitmap sector count)
unfolding mark_dirty marked
mark_dirty_ok shared zero sector bitmap h = refl
mark_dirty_ok shared (suc count) sector bitmap h =
    rw (or_byte_ok shared bitmap (sector / 8) (omega (arith, h)) (2 ^ (sector % 8))) (
      mark_dirty_ok shared count (sector + 1) (with_bit bitmap (sector / 8) (2 ^ (sector % 8)))
        (unfold with_bit in rw length-overwrite (omega (arith, h))))

clear_dirty_ok :
    (shared : Bool) (bitmap : List ℕ) (s : ℕ) (b : Bool)
    → s < 8 * length bitmap
    → clear_dirty shared s b bitmap ≡ (ok tt, if b then without_bit bitmap s else bitmap)
unfolding without_bit
clear_dirty_ok shared bitmap s true h =
    and_byte_ok shared bitmap (s / 8) (omega (arith, h)) (255 - 2 ^ (s % 8))
clear_dirty_ok shared bitmap s false h = refl

length-without_bit : (bitmap : List ℕ) (s : ℕ) → length (without_bit bitmap s) ≡ length bitmap
unfolding without_bit
length-without_bit bitmap s = length-overwrite bitmap _ _

pub scan_ok :
    (shared clear : Bool) (n s : ℕ) (bitmap : List ℕ)
    → s + n ≤ 8 * length bitmap
    → scan shared clear n s bitmap ≡ (ok (found clear n s bitmap).0, (found clear n s bitmap).1)
unfolding scan found is_dirty
scan_ok shared clear zero s bitmap h = refl
scan_ok shared clear (suc n) s bitmap h =
    let b = is_dirty bitmap s && clear in
    let left = if b then without_bit bitmap s else bitmap in
    let wide : length left ≡ length bitmap = ground (arith, length-without_bit bitmap s) in
    rw (load_byte_ok shared bitmap (s / 8) (omega (arith, h))) (
      rw (clear_dirty_ok shared bitmap s b (omega (arith, h)))
        (rw (scan_ok shared clear n (s + 1) left (omega (arith, h, wide))) refl))

-- In an ordinary buffer nothing throws.
unshared_step :
    (i : ℕ) (change : ℕ → ℕ) (o : Option ℕ) (rest : M (List ℕ) (Unit {0})) (bitmap : List ℕ)
    → ((b : List ℕ) → (rest b).0 ≡ ok tt)
    → ((stored false i change o >> rest) bitmap).0 ≡ ok tt
unshared_step i change none rest bitmap h = h bitmap
unshared_step i change (some b) rest bitmap h = h (overwrite bitmap i (change b ∷ []))

pub mark_dirty_unshared :
    (count sector : ℕ) (bitmap : List ℕ) → (mark_dirty false sector count bitmap).0 ≡ ok tt
unfolding mark_dirty or_byte
mark_dirty_unshared zero sector bitmap = refl
mark_dirty_unshared (suc count) sector bitmap =
    unshared_step (sector / 8) (λ b. bit_or b (2 ^ (sector % 8))) (get_elem? bitmap (sector / 8))
      (mark_dirty false (sector + 1) count) bitmap (λ b. mark_dirty_unshared count (sector + 1) b)
