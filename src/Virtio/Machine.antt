-- ===== src/Virtio/Machine.antt =====
-- What the device models share: actions on a state that may throw, and a queue's state, the linear
-- memory and the host's cursor. A throw keeps what was changed before it.
pub mod Laws
pub mod ReadOnly
use nix_wasm.Prelude.{
  ℕ, ◌≡◌, ◌+◌, List, Bool, true, false, leb, if◌then◌else◌, length, take, drop, overwrite,
}
use nix_wasm.Prelude.Bytes.{le_bytes, from_le}

pub data Fault : Type 0 where
  -- A DataView or a view of the memory that passes its end.
  range_error : Fault
  chain_too_long : Fault
  -- A device or a queue that the shared table has no slot for.
  past_table : Fault

pub data Result {ℓ} (A : Type ℓ) : Type ℓ where
  ok : A → Result A
  fault : Fault → Result A

abbrev pub M {ℓ} : Type 0 → Type ℓ → Type ℓ
M S A = S → Result A × S

abbrev pub and_then {ℓ κ} :
    {S : Type 0} {A : Type ℓ} {B : Type κ} → Result A × S → (A → M S B) → Result B × S
and_then (ok a, s) f = f a s
and_then (fault e, s) f = (fault e, s)

infixl 5 ◌>>=◌ ◌>>◌
abbrev pub ◌>>=◌ {ℓ κ} : {S : Type 0} {A : Type ℓ} {B : Type κ} → M S A → (A → M S B) → M S B
◌>>=◌ m f s = and_then (m s) f

abbrev pub ◌>>◌ {ℓ} : {S : Type 0} {B : Type ℓ} → M S (Unit {0}) → M S B → M S B
m >> k = m >>= λ _. k

abbrev pub pure {ℓ} : {S : Type 0} {A : Type ℓ} → A → M S A
pure a s = (ok a, s)

abbrev pub throw {ℓ} : {S : Type 0} {A : Type ℓ} → Fault → M S A
throw e s = (fault e, s)

pub record Queue : Type 0 where
  pub memory : List ℕ
  pub last_avail : ℕ

-- `length` bytes at `off`, or a RangeError.
unfoldable pub read_bytes : ℕ → ℕ → M Queue (List ℕ)
read_bytes off n q =
    if leb (off + n) (length q.memory)
    then (ok (take n (drop off q.memory)), q)
    else (fault range_error, q)

unfoldable pub write_bytes : ℕ → List ℕ → M Queue (Unit {0})
write_bytes off bytes q =
    if leb (off + length bytes) (length q.memory)
    then (ok tt, record q { memory = overwrite q.memory off bytes })
    else (fault range_error, q)

-- getUint16, getUint32 and getBigUint64 with `n` bytes, and the setters.
unfoldable pub get_uint : ℕ → ℕ → M Queue ℕ
unfolding read_bytes
get_uint n off = do bytes ← read_bytes off n; pure (from_le bytes)

unfoldable pub set_uint : ℕ → ℕ → ℕ → M Queue (Unit {0})
unfolding write_bytes
set_uint n off v = write_bytes off (le_bytes n v)

module _ {S A B : Type 0} (m : M S A) (f : A → M S B) (s : S) where
  pub bind_ok : {a : A} {s' : S} → m s ≡ (ok a, s') → (m >>= f) s ≡ f a s'
  bind_ok e = rw e

  pub bind_fault : {x : Fault} {s' : S} → m s ≡ (fault x, s') → (m >>= f) s ≡ (fault x, s')
  bind_fault e = rw e
