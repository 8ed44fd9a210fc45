-- ===== src/Text/RoundTrip.antt =====
-- What the decoder makes of the encoder's bytes.
use nix_wasm.Prelude.{ℕ, suc, ◌+◌, ◌*◌, ◌/◌, ◌%◌, ◌≤◌, ◌<◌, List, [], ◌∷◌, ◌++◌}
use nix_wasm.Prelude.{
  ◌≡◌, refl, arith, All, ◌==◌, ap, ◌∙◌, Bool-cases, inl, inr, ltb, if◌then◌else◌, ltb→lt,
}
use nix_wasm.Text.{
  Str, State, start, more, encode_scalar, encode_point, utf8_encode, lead, step, run, utf8_decode,
  strip_bom, IsScalar,
}

run-cons :
    (s : State) (b : ℕ) (bs : List ℕ) {out : List ℕ} {s' : State}
    → step s b ≡ (out, s')
    → run s (b ∷ bs) ≡ out ++ run s' bs
unfolding run
run-cons start b bs e = cc
run-cons (more cp left lower upper) b bs e = cc

lead_one : (c : ℕ) → c < 0x80 → step start c ≡ (c ∷ [], start)
unfolding step lead
lead_one c h = ground arith

lead_two :
    (c : ℕ) → 0x80 ≤ c → c < 0x800 → step start (0xC0 + c / 64) ≡ ([], more (c / 64) 1 0x80 0xBF)
unfolding step lead
lead_two c lo hi = ground arith

lead_three :
    (c : ℕ)
    → 0x800 ≤ c
    → c < 0x10000
    → step start (0xE0 + c / 4096) ≡ (
      [],
      more
          (c / 4096)
          2
          (if c / 4096 == 0 then 0xA0 else 0x80)
          (if c / 4096 == 13 then 0x9F else 0xBF),
    )
unfolding step lead
lead_three c lo hi = ground arith

lead_four :
    (c : ℕ)
    → 0x10000 ≤ c
    → c < 0x110000
    → step start (0xF0 + c / 262144) ≡ (
      [],
      more
          (c / 262144)
          3
          (if c / 262144 == 0 then 0x90 else 0x80)
          (if c / 262144 == 4 then 0x8F else 0xBF),
    )
unfolding step lead
lead_four c lo hi = ground arith

-- A continuation byte, the last of its code point or not.
last :
    (cp c lower upper : ℕ)
    → lower ≤ 0x80 + c % 64
    → 0x80 + c % 64 ≤ upper
    → step (more cp 1 lower upper) (0x80 + c % 64) ≡ ((cp * 64 + c % 64) ∷ [], start)
unfolding step
last cp c lower upper lo hi = ground arith

inner :
    (cp n c lower upper : ℕ)
    → lower ≤ 0x80 + c % 64
    → 0x80 + c % 64 ≤ upper
    → step (more cp (suc (suc n)) lower upper) (0x80 + c % 64)
      ≡ ([], more (cp * 64 + c % 64) (suc n) 0x80 0xBF)
unfolding step
inner cp n c lower upper lo hi = ground arith

run_last :
    (cp c : ℕ) (rest : List ℕ)
    → run (more cp 1 0x80 0xBF) ((0x80 + c % 64) ∷ rest) ≡ (cp * 64 + c % 64) ∷ run start rest
run_last cp c rest = run-cons _ _ rest (last cp c 0x80 0xBF (omega arith) (omega arith))

run_inner :
    (cp n c : ℕ) (rest : List ℕ)
    → run (more cp (suc (suc n)) 0x80 0xBF) ((0x80 + c % 64) ∷ rest)
      ≡ run (more (cp * 64 + c % 64) (suc n) 0x80 0xBF) rest
run_inner cp n c rest = run-cons _ _ rest (inner cp n c 0x80 0xBF (omega arith) (omega arith))

run_one : (c : ℕ) (rest : List ℕ) → c < 0x80 → run start (c ∷ rest) ≡ c ∷ run start rest
run_one c rest h = run-cons _ _ rest (lead_one c h)

run_two :
    (c : ℕ) (rest : List ℕ)
    → 0x80 ≤ c
    → c < 0x800
    → run start ((0xC0 + c / 64) ∷ (0x80 + c % 64) ∷ rest) ≡ c ∷ run start rest
run_two c rest lo hi =
    let e : c / 64 * 64 + c % 64 ≡ c = omega arith in
    run-cons _ _ _ (lead_two c lo hi) ∙ run_last (c / 64) c rest ∙ ap (λ d. d ∷ run start rest) e

-- The bounds on the second byte shut out overlong forms and surrogates.
run_three :
    (c : ℕ) (rest : List ℕ)
    → 0x800 ≤ c
    → c < 0x10000
    → IsScalar c
    → run start ((0xE0 + c / 4096) ∷ (0x80 + c / 64 % 64) ∷ (0x80 + c % 64) ∷ rest)
      ≡ c ∷ run start rest
run_three c rest lo hi s =
    let e : (c / 4096 * 64 + c / 64 % 64) * 64 + c % 64 ≡ c = omega arith in
    run-cons _ _ _ (lead_three c lo hi)
    ∙ run-cons _ _ _ (inner (c / 4096) 0 (c / 64) _ _ (ground arith) (ground arith))
    ∙ run_last _ c rest
    ∙ ap (λ d. d ∷ run start rest) e

run_four :
    (c : ℕ) (rest : List ℕ)
    → 0x10000 ≤ c
    → c < 0x110000
    → run start (
        (0xF0 + c / 262144)
        ∷ (0x80 + c / 4096 % 64)
        ∷ (0x80 + c / 64 % 64)
        ∷ (0x80 + c % 64)
        ∷ rest)
      ≡ c ∷ run start rest
run_four c rest lo hi =
    let e : ((c / 262144 * 64 + c / 4096 % 64) * 64 + c / 64 % 64) * 64 + c % 64 ≡ c =
      omega arith in
    run-cons _ _ _ (lead_four c lo hi)
    ∙ run-cons _ _ _ (inner (c / 262144) 1 (c / 4096) _ _ (ground arith) (ground arith))
    ∙ run_inner _ 0 (c / 64) _
    ∙ run_last _ c rest
    ∙ ap (λ d. d ∷ run start rest) e

run_scalar :
    (c : ℕ) (rest : List ℕ) → IsScalar c → run start (encode_scalar c ++ rest) ≡ c ∷ run start rest
unfolding encode_scalar
run_scalar c rest (h, s) = elim (Bool-cases (ltb c 0x80)) [
  | inl one ↦ rw one (run_one c rest (ltb→lt _ _ one))
  | inr p ↦ elim (Bool-cases (ltb c 0x800)) [
    | inl two ↦ rw (p, two) (run_two c rest (ground arith) (ltb→lt _ _ two))
    | inr q ↦ elim (Bool-cases (ltb c 0x10000)) [
      | inl three ↦ rw (p, q, three) (run_three c rest (ground arith) (ltb→lt _ _ three) (h, s))
      | inr r ↦ rw (p, q, r) (run_four c rest (ground arith) h)
    ]
  ]
]

run_encode : (s : Str) → All IsScalar s → run start (utf8_encode s) ≡ s
unfolding utf8_encode encode_point
run_encode [] h = unfold run in refl
run_encode (c ∷ cs) ((lt, scalar), hs) =
    rw scalar (run_scalar c (utf8_encode cs) (lt, scalar) ∙ ap (λ t. c ∷ t) (run_encode cs hs))

-- A string of Unicode scalar values is decoded from its bytes as it was, less a byte order mark in
-- front.
pub utf8_decode-utf8_encode : (s : Str) → All IsScalar s → utf8_decode (utf8_encode s) ≡ strip_bom s
unfolding utf8_decode
utf8_decode-utf8_encode s h = ap strip_bom (run_encode s h)

-- The strings that the wire carries unchanged: of scalar values, with no byte order mark in front.
abbrev pub IsPlain : Str → Type 0
IsPlain s = All IsScalar s × (strip_bom s ≡ s)
