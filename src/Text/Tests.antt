-- ===== src/Text/Tests.antt =====
-- Texts at which the decoder and the encoder are run.
use nix_wasm.Prelude.{◌≡◌, refl, [], ◌∷◌}
use nix_wasm.Text.{Str, utf8_encode, utf8_decode}

-- A byte order mark, "é" and a code point with four bytes.
abbrev text : Str
text = 0xFEFF ∷ 0xE9 ∷ 0x1F600 ∷ []

encode_text : utf8_encode text ≡ 0xEF ∷ 0xBB ∷ 0xBF ∷ 0xC3 ∷ 0xA9 ∷ 0xF0 ∷ 0x9F ∷ 0x98 ∷ 0x80 ∷ []
unfolding utf8_encode
encode_text = refl

-- A byte that starts nothing, and a code point that is cut off.
decode_broken : utf8_decode (0x61 ∷ 0xC0 ∷ 0xE2 ∷ 0x82 ∷ []) ≡ 0x61 ∷ 0xFFFD ∷ 0xFFFD ∷ []
unfolding utf8_decode
decode_broken = refl
