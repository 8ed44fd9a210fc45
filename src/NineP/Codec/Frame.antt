-- ===== src/NineP/Codec/Frame.antt =====
-- The bytes of a whole frame: the patched size, the type, the tag and the body.
use nix_wasm.Prelude.{ℕ, ◌+◌, ◌%◌, ◌^◌, List, [], ◌∷◌, ◌++◌, ◌≡◌, refl, sym, ap}
use nix_wasm.Prelude.{◌∙◌, arith, length, overwrite, overwrite-nil, take-overwrite_eq}
use nix_wasm.Prelude.{length-take}
use nix_wasm.Prelude.Bytes.{le_bytes, length-le_bytes}
use nix_wasm.NineP.Writer.{Writer, out, new_writer, patch_u32}
use nix_wasm.NineP.Writer.Laws.{
  IsValid, Emits, Emits->>, u8-Emits, u16-Emits, u32-Emits, new_writer-IsValid, out-new_writer,
}
use nix_wasm.NineP.Message.{Message, body_kind, code}
use nix_wasm.NineP.Codec.{write_message, write_body, encode, tag_or_zero}

overwrite-prefix :
    (xs ys zs : List ℕ) → length ys ≡ length xs → overwrite (xs ++ zs) 0 ys ≡ ys ++ zs
overwrite-prefix [] [] zs e = overwrite-nil zs 0
overwrite-prefix [] (y ∷ ys) zs e = absurd (omega arith)
overwrite-prefix (x ∷ xs) [] zs e = absurd (omega arith)
overwrite-prefix (x ∷ xs) (y ∷ ys) zs e =
    ap (λ ws. y ∷ ws) (overwrite-prefix xs ys zs (omega arith))

-- The patch replaces the first four bytes of what is written, and nothing else.
out-patch_u32 :
    (w : Writer) (v : ℕ) (a z : List ℕ)
    → out w ≡ a ++ z
    → length a ≡ 4
    → out (patch_u32 0 v w) ≡ le_bytes 4 (v % 2 ^ 32) ++ z
unfolding out patch_u32
out-patch_u32 w v a z e four =
    take-overwrite_eq w.pos w.buf 0 (le_bytes 4 (v % 2 ^ 32))
    ∙ ap (λ t. overwrite t 0 (le_bytes 4 (v % 2 ^ 32))) e
    ∙ overwrite-prefix a (le_bytes 4 (v % 2 ^ 32)) z (omega (arith, length-le_bytes 4 (v % 2 ^ 32)))

pos-length_out : (w : Writer) → IsValid w → w.pos ≡ length (out w)
unfolding out
pos-length_out w v = sym (length-take w.pos w.buf v.inside)

-- Type, tag and body.
abbrev pub after_size : Message → List ℕ → List ℕ
after_size m body =
    le_bytes 1 (code (body_kind m.body) % 2 ^ 8)
    ++ (le_bytes 2 (tag_or_zero m.tag % 2 ^ 16) ++ body)

write_message-Emits :
    (m : Message) (body : List ℕ)
    → Emits (write_body m.body) body
    → Emits (write_message m) (le_bytes 4 (0 % 2 ^ 32) ++ after_size m body)
unfolding write_message
write_message-Emits m body e = Emits->> _ _ _ _ (u32-Emits 0) (
    Emits->> _ _ _ _ (u8-Emits (code (body_kind m.body)))
      (Emits->> _ _ _ _ (u16-Emits (tag_or_zero m.tag)) e))

pub encode-frame :
    (m : Message) (body : List ℕ)
    → Emits (write_body m.body) body
    → encode m ≡ le_bytes 4 ((7 + length body) % 2 ^ 32) ++ after_size m body
unfolding encode
encode-frame m body e =
    out-patch_u32 w w.pos (le_bytes 4 (0 % 2 ^ 32)) (after_size m body) written refl
    ∙ ap (λ (n : ℕ). le_bytes 4 (n % 2 ^ 32) ++ after_size m body) size
  where
    w : Writer
    w = write_message m new_writer

    emits : Emits (write_message m) (le_bytes 4 (0 % 2 ^ 32) ++ after_size m body)
    emits = write_message-Emits m body e

    written : out w ≡ le_bytes 4 (0 % 2 ^ 32) ++ after_size m body
    written =
        emits.appends new_writer new_writer-IsValid
        ∙ ap (λ t. t ++ (le_bytes 4 (0 % 2 ^ 32) ++ after_size m body)) out-new_writer

    size : w.pos ≡ 7 + length body
    size =
        pos-length_out w (emits.keeps new_writer new_writer-IsValid)
        ∙ ap length written
        ∙ omega arith

pub length-frame :
    (m : Message) (v : ℕ) (body : List ℕ)
    → length (le_bytes 4 v ++ after_size m body) ≡ 7 + length body
length-frame m v body = omega arith
