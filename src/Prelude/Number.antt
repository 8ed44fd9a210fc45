-- ===== src/Prelude/Number.antt =====
-- The language's Number, as far as the program meets it: a 64-bit integer made a double.
use nix_wasm.Prelude.Tests.{ltb, if◌then◌else◌, lt→ltb}
use Prim.Native.Nat.{ℕ, zero, suc, ◌+◌, ◌*◌, ◌/◌, ◌%◌, ◌^◌, ◌<◌}
use mathlib.Core.Path.{◌≡◌, refl}
use native.Mathlib.Omega.{arith}

-- The nearest multiple of `p`, a tie going to the even one.
abbrev round_to : ℕ → ℕ → ℕ
round_to p v =
    if ltb (2 * (v % p)) p
    then v / p * p
    else if ltb p (2 * (v % p))
    then (v / p + 1) * p
    else (v / p + v / p % 2) * p

-- How far apart the Numbers stand at `v`, for `v` below 2 ^ (53 + fuel).
abbrev spacing : ℕ → ℕ → ℕ
spacing zero v = 1
spacing (suc fuel) v = if ltb v (2 ^ 53) then 1 else 2 * spacing fuel (v / 2)

-- Number(v) of a 64-bit BigInt: the nearest double.
unfoldable pub to_number : ℕ → ℕ
to_number v = round_to (spacing 11 v) v

round_to-one : (v : ℕ) → round_to 1 v ≡ v
round_to-one v = ground arith

spacing-one : (fuel v : ℕ) → v < 2 ^ 53 → spacing fuel v ≡ 1
spacing-one zero v h = refl
spacing-one (suc fuel) v h = rw (lt→ltb v (2 ^ 53) h)

-- Every integer below 2 ^ 53 is a Number.
pub to_number_lem : (v : ℕ) → v < 2 ^ 53 → to_number v ≡ v
unfolding to_number
to_number_lem v h = rw (spacing-one 11 v h) (round_to-one v)
