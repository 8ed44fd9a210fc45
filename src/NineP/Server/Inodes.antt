-- ===== src/NineP/Server/Inodes.antt =====
-- The table of the numbers that runtime/ninep/server.ts gives to inodes.
use nix_wasm.Prelude.{ℕ, ◌+◌, List, [], ◌∷◌, ◌++◌, ◌≡◌, refl, sym, ap₂, ◌∙◌}
use nix_wasm.Prelude.{true, false, some, ◌==◌, Bool-cases, ◌⊎◌, inl, inr, arith, ◌<◌}
use mathlib.Core.Option.{none, some, some-injective}
use nix_wasm.Prelude.{◌≡◌}
use nix_wasm.Text.{Str}
use nix_wasm.NineP.Server.{str_eq}
use nix_wasm.NineP.Server.Parts.{find_qid}

str_eq_sound : (a b : Str) → str_eq a b ≡ true → a ≡ b
str_eq_sound [] [] e = refl
str_eq_sound [] (d ∷ ds) e = cc e
str_eq_sound (c ∷ cs) [] e = cc e
str_eq_sound (c ∷ cs) (d ∷ ds) e = elim (Bool-cases (c == d)) [
  | inl h ↦ ap₂ (λ x xs. x ∷ xs) (ground (arith, h)) (str_eq_sound cs ds (rw h at e))
  | inr h ↦ cc (rw h at e)
]

str_eq_refl : (a : Str) → str_eq a a ≡ true
str_eq_refl [] = refl
str_eq_refl (c ∷ cs) = ground (arith, str_eq_refl cs)

-- The entries of a table that is longer by one.
pub find_qid-append_some :
    (qs : List (Str × ℕ)) (i : Str) (n : ℕ) (a : Str) (v : ℕ)
    → find_qid qs a ≡ some v
    → find_qid (qs ++ ((i, n) ∷ [])) a ≡ some v
find_qid-append_some [] i n a v e = cc e
find_qid-append_some ((k, w) ∷ qs) i n a v e = elim (Bool-cases (str_eq k a)) [
  | inl h ↦ ground (arith, h, e)
  | inr h ↦ ground (arith, h, e, find_qid-append_some qs i n a v (rw h at e))
]

find_qid-append_cases :
    (qs : List (Str × ℕ)) (i : Str) (n : ℕ) (a : Str) (v : ℕ)
    → find_qid (qs ++ ((i, n) ∷ [])) a ≡ some v
    → (find_qid qs a ≡ some v) ⊎ ((i ≡ a) × (n ≡ v))
find_qid-append_cases [] i n a v e = elim (Bool-cases (str_eq i a)) [
  | inl h ↦ inr (str_eq_sound i a h, some-injective _ _ (rw h at e))
  | inr h ↦ cc (rw h at e)
]
find_qid-append_cases ((k, w) ∷ qs) i n a v e = elim (Bool-cases (str_eq k a)) [
  | inl h ↦ inl (ground (arith, h, e))
  | inr h ↦ carried h (find_qid-append_cases qs i n a v (rw h at e))
]
  where
    carried :
        str_eq k a ≡ false
        → (find_qid qs a ≡ some v) ⊎ ((i ≡ a) × (n ≡ v))
        → (find_qid ((k, w) ∷ qs) a ≡ some v) ⊎ ((i ≡ a) × (n ≡ v))
    carried h (inl p) = inl (ground (arith, h, p))
    carried h (inr p) = inr p

pub find_qid-last :
    (qs : List (Str × ℕ)) (i : Str) (n : ℕ)
    → find_qid qs i ≡ none
    → find_qid (qs ++ ((i, n) ∷ [])) i ≡ some n
find_qid-last [] i n e = rw (str_eq_refl i) refl
find_qid-last ((k, w) ∷ qs) i n e = elim (Bool-cases (str_eq k i)) [
  | inl h ↦ cc (rw h at e)
  | inr h ↦ rw h (find_qid-last qs i n (rw h at e))
]

-- The numbers that are given lie below the next one, and no two inodes have the same.
unfoldable pub Numbered : List (Str × ℕ) → ℕ → Type 0
Numbered qs seq =
    ((i : Str) (v : ℕ) → find_qid qs i ≡ some v → v < seq)
    × ((i j : Str) (v : ℕ) → find_qid qs i ≡ some v → find_qid qs j ≡ some v → i ≡ j)

-- Every number that is given stays.
unfoldable pub Extends : List (Str × ℕ) → List (Str × ℕ) → Type 0
Extends qs ts = (i : Str) (v : ℕ) → find_qid qs i ≡ some v → find_qid ts i ≡ some v

pub append-Numbered :
    (qs : List (Str × ℕ)) (seq : ℕ) (inode : Str)
    → Numbered qs seq
    → Numbered (qs ++ ((inode, seq) ∷ [])) (seq + 1)
unfolding Numbered
append-Numbered qs seq inode h = (
  (λ i v p. below (find_qid-append_cases qs inode seq i v p)),
  (λ i j v p q.
      one (find_qid-append_cases qs inode seq i v p) (find_qid-append_cases qs inode seq j v q)),
)
  where
    below : {i : Str} {v : ℕ} → (find_qid qs i ≡ some v) ⊎ ((inode ≡ i) × (seq ≡ v)) → v < seq + 1
    below {i} {v} (inl p) = let lt = h.0 i v p in omega arith
    below (inr p) = let e = p.1 in omega arith

    old : (i : Str) (v : ℕ) → find_qid qs i ≡ some v → seq ≡ v → ⊥
    old i v p e = let lt = h.0 i v p in omega arith

    one :
        {i j : Str} {v : ℕ}
        → (find_qid qs i ≡ some v) ⊎ ((inode ≡ i) × (seq ≡ v))
        → (find_qid qs j ≡ some v) ⊎ ((inode ≡ j) × (seq ≡ v))
        → i ≡ j
    one {i} {j} {v} (inl p) (inl q) = h.1 i j v p q
    one {i} {j} {v} (inl p) (inr q) = absurd (old i v p q.1)
    one {i} {j} {v} (inr p) (inl q) = absurd (old j v q p.1)
    one (inr p) (inr q) = sym (p.0) ∙ q.0
