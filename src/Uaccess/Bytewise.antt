-- ===== src/Uaccess/Bytewise.antt =====
-- What the reads of runtime/mmu-uaccess.ts are to give: one byte after the other, each through a walk
-- of its own.
use nix_wasm.Prelude.{
  ℕ, zero, suc, ◌≡◌, refl, sym, ap, ◌∙◌, ◌+◌, ◌%◌, ◌≤◌, ◌<◌, List, [], ◌∷◌, ◌++◌, false, Option,
  none, some, length, take, drop, overwrite, replicate, get_elem?, arith, append_assoc, drop-nil,
}
use nix_wasm.Uaccess.{page, Outcome, ok, user_fault, range_error, stuck, ◌>>=◌, translate_user}
use nix_wasm.Uaccess.Pages.{translate_user-page}

abbrev pub byte_of : Option ℕ → ℕ
byte_of none = 0
byte_of (some b) = b

-- A byte past the end of the memory reads as 0.
abbrev pub byte_or_zero : List ℕ → ℕ → ℕ
byte_or_zero mem p = byte_of (get_elem? mem p)

abbrev pub load_bytes : ℕ → List ℕ → ℕ → ℕ → Outcome (List ℕ)
load_bytes zero mem pt va = ok []
load_bytes (suc n) mem pt va = translate_user mem pt va false >>= λ p.
    (load_bytes n mem pt (va + 1) >>= λ rest. ok (byte_or_zero mem p ∷ rest))

-- The first bytes of a list, zeros behind it.
abbrev pub pad : ℕ → List ℕ → List ℕ
pad zero xs = []
pad (suc n) [] = 0 ∷ pad n []
pad (suc n) (x ∷ xs) = x ∷ pad n xs

pub length-pad : (n : ℕ) (xs : List ℕ) → length (pad n xs) ≡ n
length-pad zero xs = refl
length-pad (suc n) [] = ap suc (length-pad n [])
length-pad (suc n) (x ∷ xs) = ap suc (length-pad n xs)

pad-drop :
    (n p : ℕ) (mem : List ℕ)
    → pad (suc n) (drop p mem) ≡ byte_or_zero mem p ∷ pad n (drop (p + 1) mem)
pad-drop n zero [] = refl
pad-drop n zero (x ∷ mem) = refl
pad-drop n (suc p) [] = rw (drop-nil {A = ℕ} (suc p + 1)) refl
pad-drop n (suc p) (x ∷ mem) =
    let e : suc p + 1 ≡ suc (p + 1) = omega arith in rw e (pad-drop n p mem)

zeros : (n m : ℕ) → replicate (n + m) 0 ≡ pad n [] ++ replicate m 0
zeros zero m = ap (λ (k : ℕ). replicate k 0) (omega arith)
zeros (suc n) m =
    let e : suc n + m ≡ suc (n + m) = omega arith in rw e (ap (λ zs. 0 ∷ zs) (zeros n m))

-- A copy of a slice over zeros.
overwrite-zeros :
    (n m : ℕ) (xs : List ℕ)
    → overwrite (replicate (n + m) 0) 0 (take n xs) ≡ pad n xs ++ replicate m 0
overwrite-zeros zero zero xs = refl
overwrite-zeros zero (suc m) xs = let e : 0 + suc m ≡ suc m = omega arith in rw e refl
overwrite-zeros (suc n) m [] =
    let e : suc n + m ≡ suc (n + m) = omega arith in rw e (ap (λ zs. 0 ∷ zs) (zeros n m))
overwrite-zeros (suc n) m (x ∷ xs) =
    let e : suc n + m ≡ suc (n + m) = omega arith in
    rw e (ap (λ zs. x ∷ zs) (overwrite-zeros n m xs))

overwrite-skip : (xs ys zs : List ℕ) → overwrite (xs ++ zs) (length xs) ys ≡ xs ++ overwrite zs 0 ys
overwrite-skip [] ys zs = refl
overwrite-skip (x ∷ xs) ys zs = ap (λ ws. x ∷ ws) (overwrite-skip xs ys zs)

-- One round of the copy: what it puts behind what is there.
pub overwrite-pad :
    (front : List ℕ) (n m : ℕ) (xs : List ℕ)
    → overwrite (front ++ replicate (n + m) 0) (length front) (take n xs)
      ≡ (front ++ pad n xs) ++ replicate m 0
overwrite-pad front n m xs =
    overwrite-skip front (take n xs) (replicate (n + m) 0)
    ∙ ap (λ zs. front ++ zs) (overwrite-zeros n m xs)
    ∙ sym (append_assoc front (pad n xs) (replicate m 0))

pub bind-ok : {A : Type 0} (m : Outcome A) → (m >>= λ x. ok x) ≡ m
bind-ok (ok x) = refl
bind-ok (user_fault e) = refl
bind-ok range_error = refl
bind-ok stuck = refl

-- The reads in front may be grouped with the first byte or with those behind.
regroup :
    (T : Outcome ℕ) (f : ℕ → ℕ) (L K : Outcome (List ℕ))
    → (T >>= λ p. ((L >>= λ xs. K >>= λ ys. ok (xs ++ ys)) >>= λ rest. ok (f p ∷ rest)))
      ≡ ((T >>= λ p. (L >>= λ rest. ok (f p ∷ rest))) >>= λ xs. K >>= λ ys. ok (xs ++ ys))
regroup (ok p) f (ok xs) (ok ys) = refl
regroup (ok p) f (ok xs) (user_fault e) = refl
regroup (ok p) f (ok xs) range_error = refl
regroup (ok p) f (ok xs) stuck = refl
regroup (ok p) f (user_fault e) K = refl
regroup (ok p) f range_error K = refl
regroup (ok p) f stuck K = refl
regroup (user_fault e) f L K = refl
regroup range_error f L K = refl
regroup stuck f L K = refl

module _ (mem : List ℕ) (pt : ℕ) where
  pub load_bytes-append :
      (n m va : ℕ)
      → load_bytes (n + m) mem pt va
        ≡ (load_bytes n mem pt va >>= λ xs. load_bytes m mem pt (va + n) >>= λ ys. ok (xs ++ ys))
  load_bytes-append zero m va =
      let e : 0 + m ≡ m = omega arith in
      let e' : va + 0 ≡ va = omega arith in rw (e, e') (sym (bind-ok _))
  load_bytes-append (suc n) m va =
      let e : suc n + m ≡ suc (n + m) = omega arith in
      let e' : va + suc n ≡ va + 1 + n = omega arith in
      rw (e, e', load_bytes-append n m (va + 1)) (regroup _ (byte_or_zero mem) _ _)

  -- On one page the bytes are those of one slice of the memory.
  load_bytes-page :
      (va p : ℕ) (n i : ℕ)
      → va % page + (i + n) ≤ page
      → translate_user mem pt va false ≡ ok p
      → load_bytes n mem pt (va + i) ≡ ok (pad n (drop (p + i) mem))
  load_bytes-page va p zero i h e = refl
  load_bytes-page va p (suc n) i h e =
      let here = translate_user-page mem pt va i false p (omega arith) e in
      let e1 : va + i + 1 ≡ va + (i + 1) = omega arith in
      let e2 : p + i + 1 ≡ p + (i + 1) = omega arith in
      rw (here, e1, load_bytes-page va p n (i + 1) (omega arith) e, pad-drop n (p + i) mem, e2) refl

  pub load_bytes-chunk :
      (va n : ℕ) (T : Outcome ℕ)
      → 0 < n
      → va % page + n ≤ page
      → translate_user mem pt va false ≡ T
      → load_bytes n mem pt va ≡ (T >>= λ p. ok (pad n (drop p mem)))
  load_bytes-chunk va zero T h inside e = absurd (omega arith)
  load_bytes-chunk va (suc n) (ok p) h inside e =
      let whole = load_bytes-page va p (suc n) 0 (omega arith) e in
      let v0 : va + 0 ≡ va = omega arith in
      let p0 : p + 0 ≡ p = omega arith in
      ap (λ v. load_bytes (suc n) mem pt v) (sym v0)
      ∙ whole
      ∙ ap (λ q. ok (pad (suc n) (drop q mem))) p0
  load_bytes-chunk va (suc n) (user_fault f) h inside e = rw e refl
  load_bytes-chunk va (suc n) range_error h inside e = rw e refl
  load_bytes-chunk va (suc n) stuck h inside e = rw e refl
