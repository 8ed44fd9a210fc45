-- ===== src/Virtio/Machine/ReadOnly.antt =====
-- Actions that leave the state as it is, whatever they return.
use nix_wasm.Prelude.{
  ℕ, ◌+◌, Bool, true, false, ◌≡◌, refl, ◌∙◌, length, leb, if◌then◌else◌, Bool-cases, inl, inr,
}
use nix_wasm.Virtio.Machine.{M, Result, Fault, ok, fault, and_then, ◌>>=◌, pure, throw, get_uint}

pub record ReadOnly {S A : Type 0} (m : M S A) : Type 0 where
  pub same : (s : S) → (m s).1 ≡ s

pub pure-ReadOnly : {S A : Type 0} (a : A) → ReadOnly {S = S} (pure a)
pure-ReadOnly a = record { same = λ s. refl }

pub throw-ReadOnly : {S A : Type 0} (e : Fault) → ReadOnly {S = S} {A = A} (throw e)
throw-ReadOnly e = record { same = λ s. refl }

then_same :
    {S A B : Type 0} (r : Result A × S) (f : A → M S B)
    → ((a : A) → ReadOnly (f a))
    → (and_then r f).1 ≡ r.1
then_same (ok a, s) f h = (h a).same s
then_same (fault e, s) f h = refl

pub >>=-ReadOnly :
    {S A B : Type 0} (m : M S A) (f : A → M S B)
    → ReadOnly m
    → ((a : A) → ReadOnly (f a))
    → ReadOnly (m >>= f)
>>=-ReadOnly m f h k = record { same = λ s. then_same (m s) f k ∙ h.same s }

pub if-ReadOnly :
    {S A : Type 0} (b : Bool) (m n : M S A)
    → ReadOnly m
    → ReadOnly n
    → ReadOnly (if b then m else n)
if-ReadOnly true m n h k = h
if-ReadOnly false m n h k = k

pub get_uint-ReadOnly : (n off : ℕ) → ReadOnly (get_uint n off)
unfolding get_uint
get_uint-ReadOnly n off = record {
  same = λ q. elim (Bool-cases (leb (off + n) (length q.memory))) [ inl e ↦ rw e | inr e ↦ rw e ];
}
