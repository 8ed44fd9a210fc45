-- ===== src/Uaccess/Strings.antt =====
-- `readUserCString` of runtime/mmu-uaccess.ts, page by page, against a scan byte by byte.
use nix_wasm.Prelude.{
  ℕ, zero, suc, ◌≡◌, refl, sym, ap, ap₂, ◌≢◌, ◌∙◌, ◌+◌, ◌-◌, ◌%◌, ◌^◌, ◌≤◌, ◌<◌, List, [], ◌∷◌,
  ◌++◌, Bool, true, false, ltb, lt→ltb, ◌==◌, Option, none, some, take, drop, get_elem?, arith,
  drop-nil, take-nil,
}
use nix_wasm.Text.{utf8_decode}
use nix_wasm.Uaccess.{
  page, chunk_of, Outcome, ok, user_fault, range_error, stuck, ◌>>=◌, translate_user, until_zero,
  cstring_loop, read_user_cstring,
}
use nix_wasm.Uaccess.Pages.{translate_user-page}
use nix_wasm.Uaccess.Bytewise.{bind-ok}
use nix_wasm.Uaccess.Reads.{chunk_bounds}

-- What one byte does to a scan: past the memory there is nothing, and a zero ends it.
abbrev pub scan_byte : Option ℕ → Outcome (List ℕ) → Outcome (List ℕ)
scan_byte none rest = rest
scan_byte (some zero) rest = ok []
scan_byte (some (suc b)) rest = rest >>= λ bytes. ok (suc b ∷ bytes)

abbrev pub scan : ℕ → List ℕ → ℕ → ℕ → Outcome (List ℕ)
scan zero mem pt va = ok []
scan (suc n) mem pt va =
    let rest = scan n mem pt (va + 1) in
    translate_user mem pt va false >>= λ p. scan_byte (get_elem? mem p) rest

-- What a slice does to a scan that goes on behind it.
abbrev scan_slice : List ℕ → Outcome (List ℕ) → Outcome (List ℕ)
scan_slice [] rest = rest
scan_slice (b ∷ bytes) rest = scan_byte (some b) (scan_slice bytes rest)

slice-drop :
    (n p : ℕ) (mem : List ℕ) (rest : Outcome (List ℕ))
    → scan_slice (take (suc n) (drop p mem)) rest
      ≡ scan_byte (get_elem? mem p) (scan_slice (take n (drop (p + 1) mem)) rest)
slice-drop n zero [] rest = rw (take-nil {A = ℕ} n) refl
slice-drop n zero (b ∷ mem) rest = refl
slice-drop n (suc p) [] rest = rw (drop-nil {A = ℕ} (suc p + 1), take-nil {A = ℕ} n) refl
slice-drop n (suc p) (b ∷ mem) rest =
    let e : suc p + 1 ≡ suc (p + 1) = omega arith in rw e (slice-drop n p mem rest)

-- What a part that was scanned and what is behind it give.
abbrev ended : List ℕ × Bool → Outcome (List ℕ) → Outcome (List ℕ)
ended part rest = elim (part.1) [
  | true ↦ ok (part.0)
  | false ↦ rest >>= λ more. ok (part.0 ++ more)
]

ended-cons :
    (b : ℕ) (part : List ℕ × Bool) (rest : Outcome (List ℕ))
    → (ended part rest >>= λ bytes. ok (b ∷ bytes)) ≡ ended (b ∷ part.0, part.1) rest
ended-cons b (xs, true) rest = refl
ended-cons b (xs, false) (ok more) = refl
ended-cons b (xs, false) (user_fault e) = refl
ended-cons b (xs, false) range_error = refl
ended-cons b (xs, false) stuck = refl

until_zero-suc :
    (b : ℕ) (bytes : List ℕ)
    → until_zero (suc b ∷ bytes) ≡ (suc b ∷ (until_zero bytes).0, (until_zero bytes).1)
until_zero-suc b bytes = let e : (suc b == 0) ≡ false = ground arith in rw e refl

until_zero-slice :
    (bytes : List ℕ) (rest : Outcome (List ℕ))
    → scan_slice bytes rest ≡ ended (until_zero bytes) rest
until_zero-slice [] rest = sym (bind-ok rest)
until_zero-slice (zero ∷ bytes) rest = refl
until_zero-slice (suc b ∷ bytes) rest =
    ap (λ o. o >>= λ xs. ok (suc b ∷ xs)) (until_zero-slice bytes rest)
    ∙ ended-cons (suc b) (until_zero bytes) rest
    ∙ ap (λ part. ended part rest) (sym (until_zero-suc b bytes))

module _ (mem : List ℕ) (pt : ℕ) where
  scan-page :
      (va p n m i : ℕ)
      → va % page + (i + n) ≤ page
      → translate_user mem pt va false ≡ ok p
      → scan (n + m) mem pt (va + i)
        ≡ scan_slice (take n (drop (p + i) mem)) (scan m mem pt (va + (i + n)))
  scan-page va p zero m i h e =
      let n0 : 0 + m ≡ m = omega arith in
      let v0 : va + (i + 0) ≡ va + i = omega arith in rw (n0, v0) refl
  scan-page va p (suc n) m i h e =
      let here = translate_user-page mem pt va i false p (omega arith) e in
      let n1 : suc n + m ≡ suc (n + m) = omega arith in
      let v1 : va + i + 1 ≡ va + (i + 1) = omega arith in
      let v2 : va + (i + suc n) ≡ va + (i + 1 + n) = omega arith in
      let p1 : p + i + 1 ≡ p + (i + 1) = omega arith in
      let behind = scan-page va p n m (i + 1) (omega arith) e in
      rw (n1, here, v1, v2, behind)
        (sym (
          slice-drop n (p + i) mem _
          ∙ ap
              (λ q.
                scan_byte (get_elem? mem (p + i))
                  (scan_slice (take n (drop q mem)) (scan m mem pt (va + (i + 1 + n)))))
              p1))

  -- A part of the scan that stays on the page of its first byte.
  scan-chunk :
      (va c m : ℕ) (T : Outcome ℕ)
      → 0 < c
      → va % page + c ≤ page
      → translate_user mem pt va false ≡ T
      → scan (c + m) mem pt va
        ≡ (T >>= λ p. ended (until_zero (take c (drop p mem))) (scan m mem pt (va + c)))
  scan-chunk va zero m T some_left inside e = absurd (omega arith)
  scan-chunk va (suc c) m (ok p) some_left inside e =
      let v0 : va + 0 ≡ va = omega arith in
      let p0 : p + 0 ≡ p = omega arith in
      ap (scan (suc c + m) mem pt) (sym v0)
      ∙ scan-page va p (suc c) m 0 (omega arith) e
      ∙ until_zero-slice (take (suc c) (drop (p + 0) mem)) (scan m mem pt (va + (0 + suc c)))
      ∙ ap₂ (λ q v. ended (until_zero (take (suc c) (drop q mem))) (scan m mem pt v)) p0
          (omega arith)
  scan-chunk va (suc c) m (user_fault f) some_left inside e =
      let n1 : suc c + m ≡ suc (c + m) = omega arith in rw (n1, e) refl
  scan-chunk va (suc c) m range_error some_left inside e =
      let n1 : suc c + m ≡ suc (c + m) = omega arith in rw (n1, e) refl
  scan-chunk va (suc c) m stuck some_left inside e =
      let n1 : suc c + m ≡ suc (c + m) = omega arith in rw (n1, e) refl

  cstring_loop_lem :
      (fuel left max scanned va : ℕ)
      → left ≤ fuel
      → max ≡ scanned + left
      → cstring_loop fuel mem pt va max scanned ≡ scan left mem pt (va + scanned)
  unfolding cstring_loop
  cstring_loop_lem zero zero max scanned va h e1 =
      let over : ltb scanned max ≡ false = ground arith in rw over refl
  cstring_loop_lem zero (suc left) max scanned va h e1 = absurd (omega arith)
  cstring_loop_lem (suc fuel) zero max scanned va h e1 =
      let over : ltb scanned max ≡ false = ground arith in rw over refl
  cstring_loop_lem (suc fuel) (suc left) max scanned va h e1 =
      let on : ltb scanned max ≡ true = lt→ltb scanned max (omega arith) in
      let c = chunk_of (suc left) (va + scanned) in
      let b = chunk_bounds (suc left) (va + scanned) (omega arith) in
      let e3 : max - scanned ≡ suc left = omega arith in
      let e4 : suc left ≡ c + (suc left - c) = omega (arith, b) in
      let e5 : va + (scanned + c) ≡ va + scanned + c = omega arith in
      let ih =
        cstring_loop_lem fuel (suc left - c) max (scanned + c) va (omega (arith, b))
          (omega (arith, b)) in
      let whole =
        scan-chunk (va + scanned) c (suc left - c) (translate_user mem pt (va + scanned) false) b.0
          b.2 refl in
      let whole' = ap (λ k. scan k mem pt (va + scanned)) e4 ∙ whole in
      let round : ℕ → Outcome (List ℕ) → Outcome (List ℕ) = λ k rest.
        translate_user mem pt (va + scanned) false >>= λ p.
        ended (until_zero (take (chunk_of k (va + scanned)) (drop p mem))) rest in
      let next : ℕ → Outcome (List ℕ) =
        λ k. cstring_loop fuel mem pt va max (scanned + chunk_of k (va + scanned)) in
      rw on (
        ap (λ k. round k (next k)) e3
        ∙ ap (round (suc left)) (ih ∙ ap (scan (suc left - c) mem pt) e5)
        ∙ sym whole')

-- Read page by page, a string is the one that a scan with one walk for each byte gives, up to the first
-- zero, at most `max` bytes: a byte behind the zero is not looked up.
pub read_user_cstring-scan :
    (mem : List ℕ) (pt_base va max : ℕ)
    → pt_base ≢ 0
    → read_user_cstring mem pt_base va max
      ≡ (scan max mem pt_base (va % 2 ^ 32) >>= λ bytes. ok (utf8_decode bytes))
unfolding read_user_cstring
read_user_cstring-scan mem pt_base va max mapped =
    let e : (pt_base == 0) ≡ false = ground arith in
    let from : va % 2 ^ 32 + 0 ≡ va % 2 ^ 32 = omega arith in
    let whole =
      cstring_loop_lem mem pt_base max max max 0 (va % 2 ^ 32) (omega arith) (omega arith) in
    rw (e, whole, from) refl
