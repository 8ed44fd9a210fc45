-- ===== src/NineP/Codec/RoundTrip.antt =====
-- What `decode` and `peekTag` make of the frames that `encode` builds, and of other input.
use nix_wasm.Prelude.{ℕ, ◌+◌, ◌%◌, ◌^◌, ◌<◌, List, [], ◌∷◌, ◌++◌, ◌≡◌, refl, ap}
use nix_wasm.Prelude.{arith, append-nil, length, take, some}
use mathlib.Core.Path.{subst}
use native.Mathlib.Nat.{mod-eq_of_lt}
use nix_wasm.Prelude.Bytes.{le_bytes, from_le}
use nix_wasm.NineP.Wire.{IsU16, get_uint-le_bytes}
use nix_wasm.NineP.Reader.{Reader, ok, err, range_error, pure, ◌>>=◌, get_uint}
use nix_wasm.NineP.Reader
use nix_wasm.NineP.Message.{Message, Body, Kind, body_kind, code, msg_name}
use nix_wasm.NineP.Codec.{encode, decode, peek_tag, tag_or_zero, read_type, read_body, read_message}
use nix_wasm.NineP.Codec.Frame.{after_size, encode-frame}
use nix_wasm.NineP.Carries.All.{BodyFits, body-Carries}

-- A message whose fields fit the wire.
pub record MessageFits (m : Message) : Type 0 where
  pub tag_fits : IsU16 (tag_or_zero m.tag)
  pub body_fits : BodyFits m.body

msg_name-code : (k : Kind) → msg_name (code k) ≡ some k
unfolding msg_name
msg_name-code Kind.tversion = refl
msg_name-code _ = refl

code-lt : (k : Kind) → code k < 2 ^ 8
unfolding code
code-lt Kind.tversion = omega arith
code-lt _ = omega arith

read_type-code : (k : Kind) → read_type (code k) ≡ read_body k
unfolding read_type
read_type-code k = rw (msg_name-code k, read_type)

-- The message with the tag that goes on the wire.
abbrev pub sent : Message → Message
sent m = record m { tag = some (tag_or_zero m.tag) }

get_wrapped :
    (n m v : ℕ) (rest : List ℕ)
    → v < m
    → m ≡ 256 ^ n
    → get_uint n (le_bytes n (v % m) ++ rest) ≡ ok (v, rest)
get_wrapped n m v rest h e = rw (mod-eq_of_lt h) (get_uint-le_bytes n v rest (rw (← e) h))

read_size : (v : ℕ) (rest : List ℕ) → v < 2 ^ 32 → Reader.u32 (le_bytes 4 v ++ rest) ≡ ok (v, rest)
unfolding Reader.u32
read_size v rest h = get_uint-le_bytes 4 v rest h

read_code :
    (k : Kind) (rest : List ℕ) → Reader.u8 (le_bytes 1 (code k % 2 ^ 8) ++ rest) ≡ ok (code k, rest)
unfolding Reader.u8
read_code k rest = get_wrapped 1 (2 ^ 8) (code k) rest (code-lt k) refl

read_tag :
    (v : ℕ) (rest : List ℕ) → IsU16 v → Reader.u16 (le_bytes 2 (v % 2 ^ 16) ++ rest) ≡ ok (v, rest)
unfolding Reader.u16
read_tag v rest h = get_wrapped 2 (2 ^ 16) v rest h refl

read_frame :
    (m : Message) (size : ℕ) (body : List ℕ)
    → size < 2 ^ 32
    → IsU16 (tag_or_zero m.tag)
    → read_body (body_kind m.body) body ≡ ok (m.body, [])
    → read_message (le_bytes 4 size ++ after_size m body) ≡ ok (sent m, [])
unfolding read_message
read_frame m size body hs ht hb =
    let kind = body_kind m.body in
    ground (
      arith,
      read_size size (after_size m body) hs,
      read_code kind (le_bytes 2 (tag_or_zero m.tag % 2 ^ 16) ++ body),
      read_tag (tag_or_zero m.tag) body ht,
      ap (λ (r : Reader Body). r body) (read_type-code kind),
      hb,
    )

-- A message whose fields fit the wire is decoded from its encoded frame, with its tag filled in: 0
-- where it had none.
pub decode-encode : (m : Message) → MessageFits m → decode (encode m) ≡ ok (sent m)
unfolding decode
decode-encode m fits =
    let c = body-Carries m.body fits.body_fits in
    let reads =
      subst (λ t. read_body (body_kind m.body) t ≡ ok (m.body, [])) (append-nil c.bytes)
        (c.reads []) in
    let read =
      read_frame m ((7 + length c.bytes) % 2 ^ 32) c.bytes (omega arith) fits.tag_fits reads in
    rw (encode-frame m c.bytes c.emits) (rw (read, decode) refl)

-- For a message whose fields fit the wire, the size field of the frame is the length of the whole
-- frame, modulo 2 ^ 32.
pub size-encode :
    (m : Message) → MessageFits m → from_le (take 4 (encode m)) ≡ length (encode m) % 2 ^ 32
size-encode m fits =
    let c = body-Carries m.body fits.body_fits in rw (encode-frame m c.bytes c.emits) (omega arith)

-- For a message whose fields fit the wire, `peekTag` of the frame is the tag of the message, 0 where
-- it has none.
pub peek_tag-encode : (m : Message) → MessageFits m → peek_tag (encode m) ≡ tag_or_zero m.tag
unfolding peek_tag
peek_tag-encode m fits =
    let c = body-Carries m.body fits.body_fits in
    rw (encode-frame m c.bytes c.emits) (ground (arith, fits.tag_fits))

-- Input of fewer than seven bytes, which has no room for size, type and tag, is a range error.
pub decode_short : (input : List ℕ) → length input < 7 → decode input ≡ err range_error
unfolding decode read_message Reader.u32 Reader.u16 Reader.u8 get_uint
decode_short [] h = refl
decode_short (a ∷ []) h = refl
decode_short (a ∷ b ∷ []) h = refl
decode_short (a ∷ b ∷ c ∷ []) h = refl
decode_short (a ∷ b ∷ c ∷ d ∷ []) h = refl
decode_short (a ∷ b ∷ c ∷ d ∷ n ∷ []) h = refl
decode_short (a ∷ b ∷ c ∷ d ∷ n ∷ t ∷ []) h = refl
decode_short (a ∷ b ∷ c ∷ d ∷ n ∷ t ∷ u ∷ rest) h = absurd (omega arith)
