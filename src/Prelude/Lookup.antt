-- ===== src/Prelude/Lookup.antt =====
-- Elements by index: through slices and overwritten ranges, and lists told apart by them.
use nix_wasm.Prelude.Tests.{ltb, leb, if◌then◌else◌, lt→ltb, le→leb, ltb_of_le, leb_of_lt}
use nix_wasm.Prelude.Lists.{length, get_elem?, take, drop, overwrite}
use Prim.Native.Nat.{ℕ, zero, suc, ◌+◌, ◌-◌, ◌≤◌, ◌<◌}
use mathlib.Core.Path.{◌≡◌, refl, ap, ap₂, ◌∙◌}
use mathlib.Core.Logic.{◌⊎◌, inl, inr}
use mathlib.Core.Bool.{◌&&◌}
use mathlib.Core.Option.{none, some-injective}
use mathlib.Core.List.{List, [], ◌∷◌}
use native.Mathlib.Omega.{arith}

module _ {A : Type 0} where
  pub get_elem?-ext : (xs ys : List A) → ((i : ℕ) → get_elem? xs i ≡ get_elem? ys i) → xs ≡ ys
  get_elem?-ext [] [] h = refl
  get_elem?-ext [] (y ∷ ys) h = cc (h 0)
  get_elem?-ext (x ∷ xs) [] h = cc (h 0)
  get_elem?-ext (x ∷ xs) (y ∷ ys) h =
      ap₂ (λ z zs. z ∷ zs) (some-injective _ _ (h 0)) (get_elem?-ext xs ys (λ i. h (suc i)))

  pub get_elem?-drop : (n i : ℕ) (xs : List A) → get_elem? (drop n xs) i ≡ get_elem? xs (n + i)
  get_elem?-drop zero i xs = ap (get_elem? xs) (omega arith)
  get_elem?-drop (suc n) i [] = refl
  get_elem?-drop (suc n) i (x ∷ xs) =
      let e : suc n + i ≡ suc (n + i) = omega arith in rw e (get_elem?-drop n i xs)

  pub get_elem?-take :
      (n i : ℕ) (xs : List A) → get_elem? (take n xs) i ≡ (if ltb i n then get_elem? xs i else none)
  get_elem?-take zero i xs = ground arith
  get_elem?-take (suc n) i [] = ground arith
  get_elem?-take (suc n) zero (x ∷ xs) = ground arith
  get_elem?-take (suc n) (suc i) (x ∷ xs) = ground (arith, get_elem?-take n i xs)

  pub get_elem?-past_end : (xs : List A) (i : ℕ) → length xs ≤ i → get_elem? xs i ≡ none
  get_elem?-past_end [] i h = refl
  get_elem?-past_end (x ∷ xs) zero h = absurd (omega arith)
  get_elem?-past_end (x ∷ xs) (suc i) h = get_elem?-past_end xs i (omega arith)

  -- A write that fits shows in its range, and nowhere else.
  pub get_elem?-overwrite :
      (xs : List A) (n : ℕ) (ys : List A) (i : ℕ)
      → n + length ys ≤ length xs
      → get_elem? (overwrite xs n ys) i
        ≡ (if leb n i && ltb i (n + length ys) then get_elem? ys (i - n) else get_elem? xs i)
  get_elem?-overwrite [] zero [] i h = ground arith
  get_elem?-overwrite [] (suc n) [] i h = absurd (omega arith)
  get_elem?-overwrite [] n (y ∷ ys) i h = absurd (omega arith)
  get_elem?-overwrite (x ∷ xs) (suc n) ys zero h = ground arith
  get_elem?-overwrite (x ∷ xs) (suc n) ys (suc i) h = ground (arith, get_elem?-overwrite xs n ys i)
  get_elem?-overwrite (x ∷ xs) zero [] i h = ground arith
  get_elem?-overwrite (x ∷ xs) zero (y ∷ ys) zero h = ground arith
  get_elem?-overwrite (x ∷ xs) zero (y ∷ ys) (suc i) h =
      ground (arith, get_elem?-overwrite xs zero ys i)

  pub get_elem?-overwrite_in :
      (xs : List A) (n : ℕ) (ys : List A) (k : ℕ)
      → n + length ys ≤ length xs
      → k < length ys
      → get_elem? (overwrite xs n ys) (n + k) ≡ get_elem? ys k
  get_elem?-overwrite_in xs n ys k h inside =
      let e : n + k - n ≡ k = omega arith in
      get_elem?-overwrite xs n ys (n + k) h
      ∙ rw (le→leb n (n + k) (omega arith), lt→ltb (n + k) (n + length ys) (omega arith), e) refl

  pub get_elem?-overwrite_out :
      (xs : List A) (n : ℕ) (ys : List A) (i : ℕ)
      → n + length ys ≤ length xs
      → (i < n) ⊎ (n + length ys ≤ i)
      → get_elem? (overwrite xs n ys) i ≡ get_elem? xs i
  get_elem?-overwrite_out xs n ys i h (inl before) =
      get_elem?-overwrite xs n ys i h ∙ rw (leb_of_lt n i before) refl
  get_elem?-overwrite_out xs n ys i h (inr behind) =
      get_elem?-overwrite xs n ys i h
      ∙ rw (le→leb n i (omega arith), ltb_of_le i (n + length ys) behind) refl
