-- ===== src/NineP/Tests.antt =====
-- Frames on the wire, and the theorems at concrete messages.
use nix_wasm.Prelude.{◌≡◌, refl, [], ◌∷◌, ◌%◌, ◌^◌, some, arith, length, take}
use nix_wasm.Prelude.Bytes.{from_le}
use nix_wasm.Text.{utf8_encode}
use nix_wasm.NineP.Writer
use nix_wasm.NineP.Writer.{Writer, ensure, each, new_writer, patch_u32, out}
use nix_wasm.NineP.Reader
use nix_wasm.NineP.Names.{str-str}
use nix_wasm.Text.{Str}
use nix_wasm.Prelude.{◌++◌}
use nix_wasm.NineP.Reader.{ok, err, range_error}
use nix_wasm.NineP.Wire.{IsWireStr}
use nix_wasm.NineP.Messages.Session.{Twalk, write_twalk}
use nix_wasm.NineP.Message.{Message, Request, request, body_kind, code}
use nix_wasm.NineP.Dirent.{Dirent, pack_dirent, dirent_size, length-pack_dirent}
use nix_wasm.NineP.Writer.Laws.{HasRoom, ensure-HasRoom, new_writer-IsValid}
use nix_wasm.NineP.Codec.{encode, decode, peek_tag, write_body}
use nix_wasm.NineP.Codec.RoundTrip.{
  MessageFits, sent, decode-encode, size-encode, peek_tag-encode, decode_short,
}

-- Walk from fid 1 to fid 2 by "a" and "é".
abbrev walk : Twalk
walk = record { fid = 1; newfid = 2; wnames = (0x61 ∷ []) ∷ (0xE9 ∷ []) ∷ [] }

abbrev walk_message : Message
walk_message = record { tag = some 9; body = request (Request.twalk walk) }

encode_walk :
    encode walk_message
    ≡ 24 ∷ 0 ∷ 0 ∷ 0 ∷ 110 ∷ 9 ∷ 0 ∷ 1 ∷ 0 ∷ 0 ∷ 0 ∷ 2 ∷ 0 ∷ 0 ∷ 0 ∷ 2 ∷ 0 ∷ 1 ∷ 0 ∷ 0x61 ∷ 2 ∷ 0
      ∷ 0xC3 ∷ 0xA9 ∷ []
unfolding encode write_body write_twalk Writer.wnames Writer.u64 code body_kind new_writer patch_u32
    out utf8_encode each Writer.u32 Writer.u8
encode_walk = refl

walk_fits : MessageFits walk_message
unfolding utf8_encode
walk_fits =
    let a : IsWireStr (0x61 ∷ []) = ((((omega arith, refl), tt), refl), omega arith) in
    let e : IsWireStr (0xE9 ∷ []) = ((((omega arith, refl), tt), refl), omega arith) in
    record {
      tag_fits = omega arith;
      body_fits = (omega arith, omega arith, (omega arith, (a, (e, tt))));
    }

decode-encode_example : decode (encode walk_message) ≡ ok (sent walk_message)
decode-encode_example = decode-encode walk_message walk_fits

size-encode_example : from_le (take 4 (encode walk_message)) ≡ length (encode walk_message) % 2 ^ 32
size-encode_example = size-encode walk_message walk_fits

peek_tag-encode_example : peek_tag (encode walk_message) ≡ 9
peek_tag-encode_example = peek_tag-encode walk_message walk_fits

decode_short_example : decode (24 ∷ 0 ∷ 0 ∷ 0 ∷ 110 ∷ []) ≡ err range_error
decode_short_example = decode_short (24 ∷ 0 ∷ 0 ∷ 0 ∷ 110 ∷ []) (omega arith)

abbrev entry : Dirent
entry = record {
  qid = record { qtype = 0x80; version = 1; path = 5 };
  offset = 2;
  dtype = 4;
  name = 0xE9 ∷ [];
}

length-pack_dirent_example : length (pack_dirent entry) ≡ dirent_size (0xE9 ∷ [])
length-pack_dirent_example = length-pack_dirent entry

ensure-HasRoom_example : HasRoom 300 new_writer (ensure 300 new_writer)
ensure-HasRoom_example = ensure-HasRoom 300 new_writer new_writer-IsValid

-- A name that begins with a byte order mark.
abbrev marked : Str
marked = 0xFEFF ∷ 0x61 ∷ []

str-str_example :
    Reader.str (out (Writer.str marked new_writer) ++ (7 ∷ [])) ≡ ok (0x61 ∷ [], 7 ∷ [])
str-str_example =
    str-str marked (7 ∷ []) ((omega arith, refl), ((omega arith, refl), tt))
      (unfold utf8_encode in omega arith)
