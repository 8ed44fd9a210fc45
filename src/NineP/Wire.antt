-- ===== src/NineP/Wire.antt =====
-- What one method of the writer and one of the reader make together: the value that is written is
-- the value that is read, and what follows on the wire is left alone.
use nix_wasm.Prelude.{ℕ, zero, suc, ◌%◌, ◌^◌, ◌<◌, List, [], ◌∷◌, ◌++◌}
use nix_wasm.Prelude.{◌≡◌, refl, ap, ◌∙◌, arith, append_assoc, some, All, length}
use nix_wasm.Prelude.{take-length_append, drop-length_append}
use nix_wasm.Prelude.Bytes.{le_bytes, length-le_bytes, from_le-le_bytes}
use mathlib.Core.Path.{subst}
use native.Mathlib.Nat.{mod-eq_of_lt}
use nix_wasm.Prelude.Number.{to_number}
use nix_wasm.Text.{Str, utf8_encode, utf8_decode}
use nix_wasm.Text.RoundTrip.{IsPlain, utf8_decode-utf8_encode}
use nix_wasm.NineP.Writer
use nix_wasm.NineP.Writer.{Writer, Qid, Put, ◌>>◌, each}
use nix_wasm.NineP.Writer.Laws.{
  Emits, Emits->>, skip-Emits, u8-Emits, u16-Emits, u32-Emits, u64-Emits, raw-Emits,
}
use nix_wasm.NineP.Reader
use nix_wasm.NineP.Reader.{Reader, ok, ◌>>=◌, pure, split_exact, get_uint, times}

-- There are bytes that `p` appends, whatever the writer, and that `r` reads as `a`, whatever follows.
pub record Carries {A : Type 0} (p : Put) (r : Reader A) (a : A) : Type 0 where
  pub bytes : List ℕ
  pub emits : Emits p bytes
  pub reads : (rest : List ℕ) → r (bytes ++ rest) ≡ ok (a, rest)

abbrev pub skip : Put
skip w = w

pub Carries-pure : {A : Type 0} (a : A) → Carries skip (pure a) a
Carries-pure a = record { bytes = []; emits = skip-Emits; reads = λ rest. refl }

pub bind_ok :
    {A B : Type 0} (r : Reader A) (f : A → Reader B) (bs : List ℕ) {a : A} {rest : List ℕ}
    → r bs ≡ ok (a, rest)
    → (r >>= f) bs ≡ f a rest
bind_ok r f bs e = rw (e, ◌>>=◌)

-- One method and what stands behind it.
pub Carries->>= :
    {A B : Type 0} {p q : Put} {r : Reader A} (f : A → Reader B) {a : A} {b : B}
    → Carries p r a
    → Carries q (f a) b
    → Carries (p >> q) (r >>= f) b
Carries->>= {r = r} f c d = record {
  bytes = c.bytes ++ d.bytes;
  emits = Emits->> _ _ c.bytes d.bytes c.emits d.emits;
  reads = λ rest.
      ap (r >>= f) (append_assoc c.bytes d.bytes rest)
      ∙ bind_ok r f _ (c.reads (d.bytes ++ rest))
      ∙ d.reads rest;
}

-- The last method of a chain, whose value goes into the result.
pub Carries-map :
    {A B : Type 0} {p : Put} {r : Reader A} (f : A → B) {a : A}
    → Carries p r a
    → Carries p (r >>= λ x. pure (f x)) (f a)
Carries-map {r = r} f c = record {
  bytes = c.bytes;
  emits = c.emits;
  reads = λ rest. bind_ok r (λ x. pure (f x)) _ (c.reads rest);
}

split_exact-append :
    (n : ℕ) (xs rest : List ℕ) → length xs ≡ n → split_exact n (xs ++ rest) ≡ some (xs, rest)
split_exact-append zero [] rest e = refl
split_exact-append zero (x ∷ xs) rest e = absurd (omega arith)
split_exact-append (suc n) [] rest e = absurd (omega arith)
split_exact-append (suc n) (x ∷ xs) rest e = rw (split_exact-append n xs rest (omega arith))

pub get_uint-le_bytes :
    (n v : ℕ) (rest : List ℕ) → v < 256 ^ n → get_uint n (le_bytes n v ++ rest) ≡ ok (v, rest)
unfolding get_uint
get_uint-le_bytes n v rest h =
    rw (split_exact-append n (le_bytes n v) rest (length-le_bytes n v), get_uint)
      (rw (from_le-le_bytes n v h))

-- What each field of the wire holds. A Number that stands for an integer is the nearest double of it.
abbrev pub IsU8 : ℕ → Type 0
IsU8 v = v < 2 ^ 8

abbrev pub IsU16 : ℕ → Type 0
IsU16 v = v < 2 ^ 16

abbrev pub IsU32 : ℕ → Type 0
IsU32 v = v < 2 ^ 32

abbrev pub IsU64 : ℕ → Type 0
IsU64 v = (v < 2 ^ 64) × (to_number v ≡ v)

abbrev pub IsBlob : List ℕ → Type 0
IsBlob b = length b < 2 ^ 32

-- A name whose bytes a u16 can count.
abbrev pub IsWireStr : Str → Type 0
IsWireStr s = IsPlain s × (length (utf8_encode s) < 2 ^ 16)

abbrev pub IsWireQid : Qid → Type 0
IsWireQid q = IsU8 q.qtype × IsU32 q.version × IsU64 q.path

below : (v m : ℕ) → v < m → v % m ≡ v
below v m h = mod-eq_of_lt h

uint-Carries :
    (n m v : ℕ) {p : Put}
    → v < m
    → m ≡ 256 ^ n
    → Emits p (le_bytes n (v % m))
    → Carries p (get_uint n) v
uint-Carries n m v h e emit = record {
  bytes = le_bytes n (v % m);
  emits = emit;
  reads = λ rest. rw (below v m h) (get_uint-le_bytes n v rest (rw (← e) h));
}

pub u8-Carries : (v : ℕ) → IsU8 v → Carries (Writer.u8 v) Reader.u8 v
unfolding Reader.u8
u8-Carries v h = uint-Carries 1 (2 ^ 8) v h refl (u8-Emits v)

pub u16-Carries : (v : ℕ) → IsU16 v → Carries (Writer.u16 v) Reader.u16 v
unfolding Reader.u16
u16-Carries v h = uint-Carries 2 (2 ^ 16) v h refl (u16-Emits v)

pub u32-Carries : (v : ℕ) → IsU32 v → Carries (Writer.u32 v) Reader.u32 v
unfolding Reader.u32
u32-Carries v h = uint-Carries 4 (2 ^ 32) v h refl (u32-Emits v)

pub u64-Carries : (v : ℕ) → IsU64 v → Carries (Writer.u64 v) Reader.u64 v
unfolding Reader.u64
u64-Carries v (h, e) =
    subst (λ (n : ℕ). Carries (Writer.u64 v) Reader.u64 n) e
      (Carries-map to_number (uint-Carries 8 (2 ^ 64) v h refl (u64-Emits v)))

pub raw-Carries : (b : List ℕ) → Carries (Writer.raw b) (Reader.raw (length b)) b
unfolding Reader.raw
raw-Carries b = record {
  bytes = b;
  emits = raw-Emits b;
  reads = λ rest. rw (take-length_append, drop-length_append);
}

pub str-Carries : (s : Str) → IsWireStr s → Carries (Writer.str s) Reader.str s
unfolding Reader.str Writer.str
str-Carries s (plain, short) =
    let e = utf8_decode-utf8_encode s plain.0 ∙ plain.1 in
    subst (λ t. Carries (Writer.str s) Reader.str t) e
      (Carries->>= _ (u16-Carries _ short) (Carries-map utf8_decode (raw-Carries (utf8_encode s))))

pub qid-Carries : (q : Qid) → IsWireQid q → Carries (Writer.qid q) Reader.qid q
unfolding Reader.qid Writer.qid
qid-Carries q (t, v, p) =
    Carries->>= _ (u8-Carries q.qtype t)
      (Carries->>= _ (u32-Carries q.version v) (Carries-map _ (u64-Carries q.path p)))

pub blob-Carries : (b : List ℕ) → IsBlob b → Carries (Writer.blob b) Reader.blob b
unfolding Reader.blob Writer.blob
blob-Carries b h = Carries->>= _ (u32-Carries _ h) (raw-Carries b)

module _ {A : Type 0} {put : A → Put} {read : Reader A} {Fits : A → Type 0}
    (one : (x : A) → Fits x → Carries (put x) read x) where
  each-Carries : (xs : List A) → All Fits xs → Carries (each put xs) (times (length xs) read) xs
  unfolding each times
  each-Carries [] h = Carries-pure []
  each-Carries (x ∷ xs) (h, hs) =
      Carries->>= _ (one x h) (Carries-map (λ ys. x ∷ ys) (each-Carries xs hs))

abbrev pub AreWireNames : List Str → Type 0
AreWireNames v = (length v < 2 ^ 16) × All IsWireStr v

abbrev pub AreWireQids : List Qid → Type 0
AreWireQids v = (length v < 2 ^ 16) × All IsWireQid v

pub wnames-Carries : (v : List Str) → AreWireNames v → Carries (Writer.wnames v) Reader.wnames v
unfolding Writer.wnames Reader.wnames
wnames-Carries v (n, h) = Carries->>= _ (u16-Carries _ n) (each-Carries str-Carries v h)

pub qids-Carries : (v : List Qid) → AreWireQids v → Carries (Writer.qids v) Reader.qids v
unfolding Writer.qids Reader.qids
qids-Carries v (n, h) = Carries->>= _ (u16-Carries _ n) (each-Carries qid-Carries v h)
