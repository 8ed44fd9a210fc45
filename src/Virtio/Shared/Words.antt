-- ===== src/Virtio/Shared/Words.antt =====
-- A word of the table after stores.
use nix_wasm.Prelude.{
  ℕ, zero, suc, ◌+◌, ◌-◌, ◌%◌, ◌^◌, ◌≤◌, ◌<◌, List, [], ◌∷◌, ◌≡◌, refl, ap, ◌∙◌, arith,
}
use nix_wasm.Prelude.{
  ltb, leb, ◌==◌, ◌&&◌, if◌then◌else◌, length, overwrite, overwrite-nil, length-overwrite,
}
use nix_wasm.Virtio.Shared.{Words, word, store_from}

pub word-overwrite :
    (ws : Words) (i v j : ℕ)
    → i < length ws
    → word (overwrite ws i (v ∷ [])) j ≡ (if i == j then v else word ws j)
unfolding word
word-overwrite [] i v j h = absurd (omega arith)
word-overwrite (b ∷ ws) zero v zero h = ground arith
word-overwrite (b ∷ ws) zero v (suc j) h = rw (overwrite-nil ws 0) (ground arith)
word-overwrite (b ∷ ws) (suc i) v zero h = ground arith
word-overwrite (b ∷ ws) (suc i) v (suc j) h = word-overwrite ws i v j (omega arith) ∙ ground arith

word-cons : (v : ℕ) (vs : Words) (k : ℕ) → word (v ∷ vs) k ≡ (if k == 0 then v else word vs (k - 1))
unfolding word
word-cons v vs zero = ground arith
word-cons v vs (suc k) = let e : suc k - 1 ≡ k = omega arith in rw e (ground arith)

pub length-store_from : (i : ℕ) (vs : List ℕ) (ws : Words) → length (store_from i vs ws) ≡ length ws
unfolding store_from
length-store_from i [] ws = refl
length-store_from i (v ∷ vs) ws = length-store_from (i + 1) vs _ ∙ length-overwrite ws i _

-- The words that were stored hold their values, and the others are as they were.
pub word-store_from :
    (i : ℕ) (vs : List ℕ) (ws : Words) (j : ℕ)
    → i + length vs ≤ length ws
    → word (store_from i vs ws) j
      ≡ (if leb i j && ltb j (i + length vs) then word vs (j - i) % 2 ^ 32 else word ws j)
unfolding store_from
word-store_from i [] ws j h = ground arith
word-store_from i (v ∷ vs) ws j h =
    let e : j - i - 1 ≡ j - (i + 1) = omega arith in
    word-store_from (i + 1) vs (overwrite ws i (v % 2 ^ 32 ∷ [])) j
      (rw length-overwrite (omega arith))
    ∙ ground (
      arith,
      word-overwrite ws i (v % 2 ^ 32) j (omega arith),
      word-cons v vs (j - i),
      ap (word vs) e,
    )
