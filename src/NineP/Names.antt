-- ===== src/NineP/Names.antt =====
-- The strings of the wire: `Writer.str` and `Reader.str` of runtime/ninep/protocol.ts, with any text.
use nix_wasm.Prelude.{ℕ, ◌^◌, ◌<◌, List, ◌++◌, ◌≡◌, ap, ◌∙◌, All, length}
use mathlib.Core.Path.{subst}
use nix_wasm.Text.{Str, utf8_encode, utf8_decode, strip_bom, IsScalar}
use nix_wasm.Text.RoundTrip.{utf8_decode-utf8_encode}
use nix_wasm.NineP.Writer.{new_writer, out}
use nix_wasm.NineP.Writer
use nix_wasm.NineP.Writer.Laws.{new_writer-IsValid, out-new_writer}
use nix_wasm.NineP.Reader.{ok}
use nix_wasm.NineP.Reader
use nix_wasm.NineP.Wire.{Carries, Carries->>=, Carries-map, u16-Carries, raw-Carries}

stripped-Carries :
    (s : Str)
    → All IsScalar s
    → length (utf8_encode s) < 2 ^ 16
    → Carries (Writer.str s) Reader.str (strip_bom s)
unfolding Reader.str Writer.str
stripped-Carries s scalars short =
    subst (λ t. Carries (Writer.str s) Reader.str t) (utf8_decode-utf8_encode s scalars)
      (Carries->>= _ (u16-Carries _ short) (Carries-map utf8_decode (raw-Carries (utf8_encode s))))

-- A string of Unicode scalar values, of fewer than 2 ^ 16 bytes, is read as it was written, less a byte
-- order mark in front, and what follows it is left.
pub str-str :
    (s : Str) (rest : List ℕ)
    → All IsScalar s
    → length (utf8_encode s) < 2 ^ 16
    → Reader.str (out (Writer.str s new_writer) ++ rest) ≡ ok (strip_bom s, rest)
str-str s rest scalars short =
    let c = stripped-Carries s scalars short in
    ap (λ (b : List ℕ). Reader.str (b ++ rest))
      (c.emits.appends new_writer new_writer-IsValid ∙ ap (λ t. t ++ c.bytes) out-new_writer)
    ∙ c.reads rest
