-- ===== src/Prelude/Bits.antt =====
-- Single bits of a byte, by evaluated tables.
use nix_wasm.Prelude.Tests.{ltb, ◌==◌}
use Prim.Native.Nat.{ℕ, zero, suc, ◌-◌, ◌^◌, ◌<◌, bit_and, bit_or}
use mathlib.Core.Path.{◌≡◌, refl}
use mathlib.Core.Bool.{Bool, true, false, ◌&&◌, ◌||◌, not}
use native.Mathlib.Omega.{arith}

-- `byte & (1 << k)`, as a test.
abbrev pub has_bit : ℕ → ℕ → Bool
has_bit b k = not (bit_and b (2 ^ k) == 0)

-- A test of every number under a bound, and what it says of one of them.
every : (ℕ → Bool) → ℕ → Bool
every test zero = true
every test (suc bound) = every test bound && test bound

every_at : (test : ℕ → Bool) (bound i : ℕ) → i < bound → every test bound ≡ true → test i ≡ true
unfolding every
every_at test zero i inside all = absurd (omega arith)
every_at test (suc bound) i inside all = ground (arith, every_at test bound i)

agree : Bool → Bool → Bool
agree true b = b
agree false b = not b

agree_sound : (a b : Bool) → agree a b ≡ true → a ≡ b
unfolding agree
agree_sound true true h = refl
agree_sound true false h = cc
agree_sound false true h = cc
agree_sound false false h = refl

-- Over all bytes and all pairs of bits.
holds : (ℕ → ℕ → ℕ → Bool) → Bool
holds p = every (λ b. every (λ k. every (p b k) 8) 8) 256

holds_sound :
    (p : ℕ → ℕ → ℕ → Bool) (b k j : ℕ) → holds p ≡ true → b < 256 → k < 8 → j < 8 → p b k j ≡ true
unfolding holds
holds_sound p b k j h hb hk hj =
    let byte = every_at (λ b'. every (λ k'. every (p b' k') 8) 8) 256 b hb h in
    let bit = every_at (λ k'. every (p b k') 8) 8 k hk byte in every_at (p b k) 8 j hj bit

set_table : ℕ → ℕ → ℕ → Bool
set_table b k j = agree (has_bit (bit_or b (2 ^ k)) j) ((j == k) || has_bit b j)

clear_table : ℕ → ℕ → ℕ → Bool
clear_table b k j = agree (has_bit (bit_and b (255 - 2 ^ k)) j) (not (j == k) && has_bit b j)

byte_table : ℕ → ℕ → ℕ → Bool
byte_table b k j = ltb (bit_or b (2 ^ k)) 256 && ltb (bit_and b (255 - 2 ^ k)) 256

set_table-true : holds set_table ≡ true
unfolding holds every set_table agree
set_table-true = refl

clear_table-true : holds clear_table ≡ true
unfolding holds every clear_table agree
clear_table-true = refl

byte_table-true : holds byte_table ≡ true
unfolding holds every byte_table
byte_table-true = refl

module _ (b k j : ℕ) (hb : b < 256) (hk : k < 8) (hj : j < 8) where
  pub has_bit-set : has_bit (bit_or b (2 ^ k)) j ≡ ((j == k) || has_bit b j)
  unfolding set_table
  has_bit-set = agree_sound _ _ (holds_sound set_table b k j set_table-true hb hk hj)

  pub has_bit-clear : has_bit (bit_and b (255 - 2 ^ k)) j ≡ (not (j == k) && has_bit b j)
  unfolding clear_table
  has_bit-clear = agree_sound _ _ (holds_sound clear_table b k j clear_table-true hb hk hj)

module _ (b k : ℕ) (hb : b < 256) (hk : k < 8) where
  pub set-lt : bit_or b (2 ^ k) < 256
  unfolding byte_table
  set-lt = ground (arith, holds_sound byte_table b k 0 byte_table-true hb hk (omega arith))

  pub clear-lt : bit_and b (255 - 2 ^ k) < 256
  unfolding byte_table
  clear-lt = ground (arith, holds_sound byte_table b k 0 byte_table-true hb hk (omega arith))
