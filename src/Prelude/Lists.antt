-- ===== src/Prelude/Lists.antt =====
-- Lists measured and indexed by native numbers.
use Prim.Native.Nat.{ℕ, zero, suc, ◌+◌, ◌-◌, ◌≤◌}
use mathlib.Core.Path.{◌≡◌, refl, sym, ap, ◌∙◌}
use mathlib.Core.Option.{Option, none, some}
use mathlib.Core.List.{List, [], ◌∷◌, ◌++◌}
use native.Mathlib.Omega.{arith}

module _ {ℓ} {A : Type ℓ} where
  abbrev pub length : List A → ℕ
  length [] = 0
  length (x ∷ xs) = suc (length xs)

  abbrev pub get_elem? : List A → ℕ → Option A
  get_elem? [] i = none
  get_elem? (x ∷ xs) zero = some x
  get_elem? (x ∷ xs) (suc i) = get_elem? xs i

  abbrev pub take : ℕ → List A → List A
  take zero xs = []
  take (suc n) [] = []
  take (suc n) (x ∷ xs) = x ∷ take n xs

  abbrev pub drop : ℕ → List A → List A
  drop zero xs = xs
  drop (suc n) [] = []
  drop (suc n) (x ∷ xs) = drop n xs

  abbrev pub replicate : ℕ → A → List A
  replicate zero x = []
  replicate (suc n) x = x ∷ replicate n x

  abbrev pub All {κ} : (A → Type κ) → List A → Type κ
  All P [] = Unit {κ}
  All P (x ∷ xs) = P x × All P xs

  pub All-mono {κ ν} :
      {P : A → Type κ} {Q : A → Type ν}
      → ((x : A) → P x → Q x)
      → (xs : List A) → All P xs
      → All Q xs
  All-mono h [] p = tt
  All-mono h (x ∷ xs) p = (h x p.0, All-mono h xs p.1)

  -- Writes the second list over the first from an offset on. What would fall behind the end is
  -- dropped: the length stays.
  abbrev pub overwrite : List A → ℕ → List A → List A
  overwrite [] n ys = []
  overwrite (x ∷ xs) (suc n) ys = x ∷ overwrite xs n ys
  overwrite (x ∷ xs) zero [] = x ∷ xs
  overwrite (x ∷ xs) zero (y ∷ ys) = y ∷ overwrite xs zero ys

  pub length-append : (xs ys : List A) → length (xs ++ ys) ≡ length xs + length ys
  length-append [] ys = omega arith
  length-append (x ∷ xs) ys = omega (arith, length-append xs ys)

  pub length-replicate : (n : ℕ) (x : A) → length (replicate n x) ≡ n
  length-replicate zero x = refl
  length-replicate (suc n) x = omega (arith, length-replicate n x)

  pub length-take : (n : ℕ) (xs : List A) → n ≤ length xs → length (take n xs) ≡ n
  length-take zero xs h = refl
  length-take (suc n) [] h = absurd (omega arith)
  length-take (suc n) (x ∷ xs) h = omega (arith, length-take n xs)

  pub length-drop : (n : ℕ) (xs : List A) → length (drop n xs) ≡ length xs - n
  length-drop zero xs = omega arith
  length-drop (suc n) [] = omega arith
  length-drop (suc n) (x ∷ xs) = omega (arith, length-drop n xs)

  pub take-length_append : (xs ys : List A) → take (length xs) (xs ++ ys) ≡ xs
  take-length_append [] ys = refl
  take-length_append (x ∷ xs) ys = ap (λ zs. x ∷ zs) (take-length_append xs ys)

  pub drop-length_append : (xs ys : List A) → drop (length xs) (xs ++ ys) ≡ ys
  drop-length_append [] ys = refl
  drop-length_append (x ∷ xs) ys = drop-length_append xs ys

  pub take-append_le : (n : ℕ) (xs ys : List A) → n ≤ length xs → take n (xs ++ ys) ≡ take n xs
  take-append_le zero xs ys h = refl
  take-append_le (suc n) [] ys h = absurd (omega arith)
  take-append_le (suc n) (x ∷ xs) ys h = ap (λ zs. x ∷ zs) (take-append_le n xs ys (omega arith))

  pub take-all : (n : ℕ) (xs : List A) → length xs ≤ n → take n xs ≡ xs
  take-all zero [] h = refl
  take-all zero (x ∷ xs) h = absurd (omega arith)
  take-all (suc n) [] h = refl
  take-all (suc n) (x ∷ xs) h = ap (λ zs. x ∷ zs) (take-all n xs (omega arith))

  pub take-append-drop : (n : ℕ) (xs : List A) → take n xs ++ drop n xs ≡ xs
  take-append-drop zero xs = refl
  take-append-drop (suc n) [] = refl
  take-append-drop (suc n) (x ∷ xs) = ap (λ zs. x ∷ zs) (take-append-drop n xs)

  pub take-take : (n m : ℕ) (xs : List A) → n ≤ m → take n (take m xs) ≡ take n xs
  take-take zero m xs h = refl
  take-take (suc n) zero xs h = absurd (omega arith)
  take-take (suc n) (suc m) [] h = refl
  take-take (suc n) (suc m) (x ∷ xs) h = ap (λ zs. x ∷ zs) (take-take n m xs (omega arith))

  pub overwrite-nil : (xs : List A) (n : ℕ) → overwrite xs n [] ≡ xs
  overwrite-nil [] n = refl
  overwrite-nil (x ∷ xs) zero = refl
  overwrite-nil (x ∷ xs) (suc n) = ap (λ zs. x ∷ zs) (overwrite-nil xs n)

  pub take-overwrite_eq :
      (p : ℕ) (xs : List A) (n : ℕ) (ys : List A)
      → take p (overwrite xs n ys) ≡ overwrite (take p xs) n ys
  take-overwrite_eq zero [] n ys = refl
  take-overwrite_eq zero (x ∷ xs) zero ys = refl
  take-overwrite_eq zero (x ∷ xs) (suc n) ys = refl
  take-overwrite_eq (suc p) [] n ys = refl
  take-overwrite_eq (suc p) (x ∷ xs) (suc n) ys = ap (λ zs. x ∷ zs) (take-overwrite_eq p xs n ys)
  take-overwrite_eq (suc p) (x ∷ xs) zero [] = refl
  take-overwrite_eq (suc p) (x ∷ xs) zero (y ∷ ys) =
      ap (λ zs. y ∷ zs) (take-overwrite_eq p xs zero ys)

  pub length-overwrite :
      (xs : List A) (n : ℕ) (ys : List A) → length (overwrite xs n ys) ≡ length xs
  length-overwrite [] n ys = refl
  length-overwrite (x ∷ xs) (suc n) ys = ap suc (length-overwrite xs n ys)
  length-overwrite (x ∷ xs) zero [] = refl
  length-overwrite (x ∷ xs) zero (y ∷ ys) = ap suc (length-overwrite xs zero ys)

  -- Up to the end of a write that fits stand the old prefix and what was written.
  pub take-overwrite :
      (xs : List A) (n : ℕ) (ys : List A)
      → n + length ys ≤ length xs
      → take (n + length ys) (overwrite xs n ys) ≡ take n xs ++ ys
  take-overwrite [] zero [] h = refl
  take-overwrite [] (suc n) [] h = absurd (omega arith)
  take-overwrite [] n (y ∷ ys) h = absurd (omega arith)
  take-overwrite (x ∷ xs) (suc n) ys h =
      let e : suc n + length ys ≡ suc (n + length ys) = omega arith in
      rw e (ap (λ zs. x ∷ zs) (take-overwrite xs n ys (omega arith)))
  take-overwrite (x ∷ xs) zero [] h = refl
  take-overwrite (x ∷ xs) zero (y ∷ ys) h =
      let e : 0 + suc (length ys) ≡ suc (0 + length ys) = omega arith in
      rw e (ap (λ zs. y ∷ zs) (take-overwrite xs zero ys (omega arith)))

  -- A write over a list in two parts that ends in the first.
  pub overwrite-append :
      (xs zs : List A) (n : ℕ) (ys : List A)
      → n + length ys ≤ length xs
      → overwrite (xs ++ zs) n ys ≡ overwrite xs n ys ++ zs
  overwrite-append [] [] n [] h = refl
  overwrite-append [] (z ∷ zs) zero [] h = refl
  overwrite-append [] (z ∷ zs) (suc n) [] h = absurd (omega arith)
  overwrite-append [] zs n (y ∷ ys) h = absurd (omega arith)
  overwrite-append (x ∷ xs) zs (suc n) ys h =
      ap (λ ws. x ∷ ws) (overwrite-append xs zs n ys (omega arith))
  overwrite-append (x ∷ xs) zs zero [] h = refl
  overwrite-append (x ∷ xs) zs zero (y ∷ ys) h =
      ap (λ ws. y ∷ ws) (overwrite-append xs zs zero ys (omega arith))

  pub take-nil : (n : ℕ) → ◌≡◌ {A = List A} (take n []) []
  take-nil zero = refl
  take-nil (suc n) = refl

  pub drop-nil : (n : ℕ) → ◌≡◌ {A = List A} (drop n []) []
  drop-nil zero = refl
  drop-nil (suc n) = refl

  pub drop-drop : (n m : ℕ) (xs : List A) → drop n (drop m xs) ≡ drop (m + n) xs
  drop-drop n zero xs = ap (λ (k : ℕ). drop k xs) (omega arith)
  drop-drop n (suc m) [] = drop-nil n ∙ sym (drop-nil (suc m + n))
  drop-drop n (suc m) (x ∷ xs) =
      let e : suc m + n ≡ suc (m + n) = omega arith in rw e (drop-drop n m xs)

  pub length-take_le : (n : ℕ) (xs : List A) → length (take n xs) ≤ n
  length-take_le zero xs = omega arith
  length-take_le (suc n) [] = omega arith
  length-take_le (suc n) (x ∷ xs) = omega (arith, length-take_le n xs)

  pub drop-take : (n m : ℕ) (xs : List A) → drop n (take (n + m) xs) ≡ take m (drop n xs)
  drop-take zero m xs = ap (λ (k : ℕ). take k xs) (omega arith)
  drop-take (suc n) m [] = ap (drop (suc n)) (take-nil (suc n + m)) ∙ sym (take-nil m)
  drop-take (suc n) m (x ∷ xs) =
      let e : suc n + m ≡ suc (n + m) = omega arith in rw e (drop-take n m xs)

  -- Two writes one behind the other are one.
  pub overwrite-overwrite :
      (xs : List A) (n : ℕ) (ys zs : List A)
      → overwrite (overwrite xs n ys) (n + length ys) zs ≡ overwrite xs n (ys ++ zs)
  overwrite-overwrite [] n ys zs = refl
  overwrite-overwrite (x ∷ xs) (suc n) ys zs =
      let e : suc n + length ys ≡ suc (n + length ys) = omega arith in
      rw e (ap (λ ws. x ∷ ws) (overwrite-overwrite xs n ys zs))
  overwrite-overwrite (x ∷ xs) zero [] zs = refl
  overwrite-overwrite (x ∷ xs) zero (y ∷ ys) zs =
      let e : 0 + suc (length ys) ≡ suc (0 + length ys) = omega arith in
      rw e (ap (λ ws. y ∷ ws) (overwrite-overwrite xs zero ys zs))

  pub drop-all : (n : ℕ) (xs : List A) → length xs ≤ n → drop n xs ≡ []
  drop-all zero [] h = refl
  drop-all zero (x ∷ xs) h = absurd (omega arith)
  drop-all (suc n) [] h = refl
  drop-all (suc n) (x ∷ xs) h = drop-all n xs (omega arith)

  pub All-drop {κ} : (P : A → Type κ) (n : ℕ) (xs : List A) → All P xs → All P (drop n xs)
  All-drop P zero xs p = p
  All-drop P (suc n) [] p = tt
  All-drop P (suc n) (x ∷ xs) p = All-drop P n xs p.1
