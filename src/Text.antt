-- ===== src/Text.antt =====
-- The language's text: strings, TextEncoder and TextDecoder, as runtime/ninep/protocol.ts uses them
-- (`enc`, `dec`). A string is the list of its code points, as iteration over a string gives them: a
-- pair of surrogates is one code point, and a lone surrogate is itself.
pub mod RoundTrip
mod Tests
use nix_wasm.Prelude.{ℕ, zero, suc, ◌+◌, ◌-◌, ◌*◌, ◌/◌, ◌%◌, ◌≤◌, ◌<◌, List, [], ◌∷◌, ◌++◌}
use nix_wasm.Prelude.{Bool, false, ◌≡◌, ◌&&◌, ltb, leb, ◌==◌, if◌then◌else◌, All}

abbrev pub Str : Type 0
Str = List ℕ

abbrev pub replacement : ℕ
replacement = 0xFFFD

abbrev pub is_surrogate : ℕ → Bool
is_surrogate c = leb 0xD800 c && leb c 0xDFFF

-- The bytes of one code point; a lone surrogate is written as the replacement character.
unfoldable pub encode_scalar : ℕ → List ℕ
encode_scalar c =
    if ltb c 0x80
    then c ∷ []
    else if ltb c 0x800
    then (0xC0 + c / 64) ∷ (0x80 + c % 64) ∷ []
    else if ltb c 0x10000
    then (0xE0 + c / 4096) ∷ (0x80 + c / 64 % 64) ∷ (0x80 + c % 64) ∷ []
    else (0xF0 + c / 262144) ∷ (0x80 + c / 4096 % 64) ∷ (0x80 + c / 64 % 64) ∷ (0x80 + c % 64) ∷ []

unfoldable pub encode_point : ℕ → List ℕ
unfolding encode_scalar
encode_point c = encode_scalar (if is_surrogate c then replacement else c)

-- new TextEncoder().encode(s)
unfoldable pub utf8_encode : Str → List ℕ
unfolding encode_point
utf8_encode [] = []
utf8_encode (c ∷ cs) = encode_point c ++ utf8_encode cs

-- The decoder's state: at the start of a code point, or within one: what is read of it, how many
-- bytes it still needs, and the range of the next.
pub data State : Type 0 where
  start : State
  more : ℕ → ℕ → ℕ → ℕ → State

-- The first byte of a code point.
unfoldable pub lead : ℕ → List ℕ × State
lead b =
    if ltb b 0x80
    then (b ∷ [], start)
    else if ltb b 0xC2
    then (replacement ∷ [], start)
    else if ltb b 0xE0
    then ([], more (b - 0xC0) 1 0x80 0xBF)
    else if ltb b 0xF0
    then (
      [],
      more (b - 0xE0) 2 (if b == 0xE0 then 0xA0 else 0x80) (if b == 0xED then 0x9F else 0xBF),
    )
    else if ltb b 0xF5
    then (
      [],
      more (b - 0xF0) 3 (if b == 0xF0 then 0x90 else 0x80) (if b == 0xF4 then 0x8F else 0xBF),
    )
    else (replacement ∷ [], start)

-- One byte: what is decoded, and the next state. A byte outside the range ends the code point with
-- a replacement character, and is read again as a first byte.
unfoldable pub step : State → ℕ → List ℕ × State
unfolding lead
step start b = lead b
step (more cp left lower upper) b =
    if leb lower b && leb b upper
    then (if left == 1
        then ((cp * 64 + b % 64) ∷ [], start)
        else ([], more (cp * 64 + b % 64) (left - 1) 0x80 0xBF))
    else (replacement ∷ (lead b).0, (lead b).1)

-- A code point that the end cuts off is one replacement character.
unfoldable pub run : State → List ℕ → Str
unfolding step
run start [] = []
run (more cp left lower upper) [] = replacement ∷ []
run s (b ∷ bs) = (step s b).0 ++ run (step s b).1 bs

-- A byte order mark in front is not part of the text.
abbrev pub strip_bom : Str → Str
strip_bom [] = []
strip_bom (c ∷ cs) = if c == 0xFEFF then cs else c ∷ cs

-- new TextDecoder().decode(bytes)
unfoldable pub utf8_decode : List ℕ → Str
unfolding run
utf8_decode bs = strip_bom (run start bs)

-- A Unicode scalar value.
abbrev pub IsScalar : ℕ → Type 0
IsScalar c = (c < 0x110000) × (is_surrogate c ≡ false)
