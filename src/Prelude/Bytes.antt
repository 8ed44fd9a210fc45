-- ===== src/Prelude/Bytes.antt =====
-- Little-endian numbers, as a DataView writes and reads them.
use nix_wasm.Prelude.Tests.{ltb}
use nix_wasm.Prelude.Lists.{length, take, All}
use Prim.Native.Nat.{ℕ, zero, suc, ◌+◌, ◌*◌, ◌/◌, ◌%◌, ◌^◌, ◌<◌}
use mathlib.Core.Path.{◌≡◌, refl}
use mathlib.Core.Bool.{Bool, true, false, ◌&&◌}
use mathlib.Core.List.{List, [], ◌∷◌}
use native.Mathlib.Nat.{pow-suc}
use native.Mathlib.Omega.{arith}

abbrev pub IsByte : ℕ → Type 0
IsByte b = b < 256

-- The low `n` bytes of a number, the lowest first.
abbrev pub le_bytes : ℕ → ℕ → List ℕ
le_bytes zero v = []
le_bytes (suc n) v = (v % 256) ∷ le_bytes n (v / 256)

abbrev pub from_le : List ℕ → ℕ
from_le [] = 0
from_le (b ∷ bs) = b + 256 * from_le bs

pub length-le_bytes : (n v : ℕ) → length (le_bytes n v) ≡ n
length-le_bytes zero v = refl
length-le_bytes (suc n) v = omega (arith, length-le_bytes n (v / 256))

pub le_bytes-IsByte : (n v : ℕ) → All IsByte (le_bytes n v)
le_bytes-IsByte zero v = tt
le_bytes-IsByte (suc n) v = (omega arith, le_bytes-IsByte n (v / 256))

below : (n v : ℕ) → v < 256 ^ suc n → v / 256 < 256 ^ n
below n v h = let e : 256 ^ suc n ≡ 256 ^ n * 256 = pow-suc 256 n in omega (arith, e)

-- A number below 256 ^ n is what its n bytes give back.
pub from_le-le_bytes : (n v : ℕ) → v < 256 ^ n → from_le (le_bytes n v) ≡ v
from_le-le_bytes zero v h = omega arith
from_le-le_bytes (suc n) v h = let ih = from_le-le_bytes n (v / 256) (below n v h) in omega arith

pow_pos : (n : ℕ) → 0 < 256 ^ n
pow_pos zero = omega arith
pow_pos (suc n) = let e : 256 ^ suc n ≡ 256 ^ n * 256 = pow-suc 256 n in omega (arith, e, pow_pos n)

-- The first `n` of some bytes make a number below 256 ^ n.
pub from_le-take : (n : ℕ) (bytes : List ℕ) → All IsByte bytes → from_le (take n bytes) < 256 ^ n
from_le-take zero bytes h = omega arith
from_le-take (suc n) [] h = pow_pos (suc n)
from_le-take (suc n) (b ∷ bytes) h =
    let e : 256 ^ suc n ≡ 256 ^ n * 256 = pow-suc 256 n in
    omega (arith, e, h.0, from_le-take n bytes h.1)

-- The test that all numbers of a list are bytes.
unfoldable pub all_bytes : List ℕ → Bool
all_bytes [] = true
all_bytes (b ∷ bytes) = ltb b 256 && all_bytes bytes

and_right : (x y : Bool) → (x && y) ≡ true → y ≡ true
and_right true y e = e
and_right false y e = cc e

pub all_bytes_sound : (bytes : List ℕ) → all_bytes bytes ≡ true → All IsByte bytes
unfolding all_bytes
all_bytes_sound [] h = tt
all_bytes_sound (b ∷ bytes) h =
    (ground (arith, h), all_bytes_sound bytes (and_right (ltb b 256) (all_bytes bytes) h))
