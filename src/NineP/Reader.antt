-- ===== src/NineP/Reader.antt =====
-- `class Reader` of runtime/ninep/protocol.ts. The state is what lies behind `pos`: a read past the
-- end throws a RangeError, but `raw` is cut off at the end, as `subarray` is.
use nix_wasm.Prelude.{ℕ, zero, suc, List, [], ◌∷◌}
use nix_wasm.Prelude.{Option, none, some, take, drop}
use nix_wasm.Prelude.Bytes.{from_le}
use nix_wasm.Prelude.Number.{to_number}
use nix_wasm.Text.{Str, utf8_decode}
use nix_wasm.NineP.Writer.{Qid}

pub data Error : Type 0 where
  range_error : Error
  unknown_type : ℕ → Error

pub data Result {ℓ} (A : Type ℓ) : Type ℓ where
  ok : A → Result A
  err : Error → Result A

abbrev pub Reader {ℓ} : Type ℓ → Type ℓ
Reader A = List ℕ → Result (A × List ℕ)

infixl 5 ◌>>=◌
abbrev pub ◌>>=◌ {ℓ κ} : {A : Type ℓ} {B : Type κ} → Reader A → (A → Reader B) → Reader B
◌>>=◌ m f bs = elim (m bs) [ ok (a, rest) ↦ f a rest | err e ↦ err e ]

abbrev pub pure {ℓ} : {A : Type ℓ} → A → Reader A
pure a bs = ok (a, bs)

abbrev pub throw {ℓ} : {A : Type ℓ} → Error → Reader A
throw e bs = err e

-- The first `n` bytes and the rest, if there are so many.
abbrev pub split_exact : ℕ → List ℕ → Option (List ℕ × List ℕ)
split_exact zero bs = some ([], bs)
split_exact (suc n) [] = none
split_exact (suc n) (b ∷ bs) = elim (split_exact n bs) [
  | none ↦ none
  | some (xs, rest) ↦ some (b ∷ xs, rest)
]

-- A DataView's little-endian read of `n` bytes.
unfoldable pub get_uint : ℕ → Reader ℕ
get_uint n bs = elim (split_exact n bs) [
  | none ↦ err range_error
  | some (xs, rest) ↦ ok (from_le xs, rest)
]

unfoldable pub u8 : Reader ℕ
unfolding get_uint
u8 = get_uint 1

unfoldable pub u16 : Reader ℕ
unfolding get_uint
u16 = get_uint 2

unfoldable pub u32 : Reader ℕ
unfolding get_uint
u32 = get_uint 4

unfoldable pub u64 : Reader ℕ
unfolding get_uint to_number
u64 = do v ← get_uint 8; pure (to_number v)

unfoldable pub raw : ℕ → Reader (List ℕ)
raw n bs = ok (take n bs, drop n bs)

unfoldable pub str : Reader Str
unfolding u16 raw
str = do n ← u16; b ← raw n; pure (utf8_decode b)

unfoldable pub qid : Reader Qid
unfolding u8 u32 u64
qid = do t ← u8; v ← u32; p ← u64; pure (record { qtype = t; version = v; path = p })

-- `data` of the source.
unfoldable pub blob : Reader (List ℕ)
unfolding u32 raw
blob = do n ← u32; raw n

-- `for (let i = 0; i < n; i++) a.push(read())`
unfoldable pub times {ℓ} : {A : Type ℓ} → ℕ → Reader A → Reader (List A)
times zero read = pure []
times (suc n) read = do x ← read; xs ← times n read; pure (x ∷ xs)

unfoldable pub wnames : Reader (List Str)
unfolding u16 times str
wnames = do n ← u16; times n str

unfoldable pub qids : Reader (List Qid)
unfolding u16 times qid
qids = do n ← u16; times n qid
