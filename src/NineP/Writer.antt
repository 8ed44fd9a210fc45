-- ===== src/NineP/Writer.antt =====
-- `class Writer` of runtime/ninep/protocol.ts: a growable little-endian buffer. Field values are
-- nonnegative integers, as the codec's callers give them.
pub mod Laws
use nix_wasm.Prelude.{ℕ, zero, suc, ◌+◌, ◌*◌, ◌%◌, ◌^◌, ◌≤◌, List, [], ◌∷◌, ◌++◌, true, false}
use nix_wasm.Prelude.{ltb, leb, if◌then◌else◌, length, take, replicate, overwrite}
use nix_wasm.Prelude.Bytes.{le_bytes}
use nix_wasm.Text.{Str, utf8_encode}

pub record Writer : Type 0 where
  pub buf : List ℕ
  pub pos : ℕ

-- 9P's qid: type[1] version[4] path[8].
pub record Qid : Type 0 where
  pub qtype : ℕ
  pub version : ℕ
  pub path : ℕ

-- A method that changes the writer, and one after another.
abbrev pub Put : Type 0
Put = Writer → Writer

infixr 5 ◌>>◌
abbrev pub ◌>>◌ : Put → Put → Put
◌>>◌ p q w = q (p w)

unfoldable pub new_writer : Writer
new_writer = record { buf = replicate 64 0; pos = 0 }

-- `while (cap < need) cap *= 2`, with fuel.
pub grow : ℕ → ℕ → ℕ → ℕ
grow zero need cap = cap
grow (suc fuel) need cap = elim (ltb cap need) [ true ↦ grow fuel need (cap * 2) | false ↦ cap ]

-- A doubling gains a byte at least, so `need` rounds are enough.
unfoldable pub ensure : ℕ → Put
unfolding grow
ensure n w = if leb (w.pos + n) (length w.buf) then w else record w {
  buf = overwrite (replicate (grow (w.pos + n) (w.pos + n) (length w.buf * 2)) 0) 0 w.buf;
}

-- The three lines that the methods share: room for `n` bytes, the bytes at `pos`, and `pos += n`.
unfoldable pub store : ℕ → List ℕ → Put
unfolding ensure
store n bytes w =
    let w' = ensure n w in record { buf = overwrite w'.buf w'.pos bytes; pos = w'.pos + n }

unfoldable pub u8 : ℕ → Put
unfolding store
u8 v = store 1 (le_bytes 1 (v % 2 ^ 8))

unfoldable pub u16 : ℕ → Put
unfolding store
u16 v = store 2 (le_bytes 2 (v % 2 ^ 16))

unfoldable pub u32 : ℕ → Put
unfolding store
u32 v = store 4 (le_bytes 4 (v % 2 ^ 32))

-- setBigUint64 keeps the low 64 bits.
unfoldable pub u64 : ℕ → Put
unfolding store
u64 v = store 8 (le_bytes 8 (v % 2 ^ 64))

unfoldable pub raw : List ℕ → Put
unfolding store
raw b = store (length b) b

unfoldable pub str : Str → Put
unfolding u16 raw
str s = let e = utf8_encode s in do u16 (length e); raw e

unfoldable pub qid : Qid → Put
unfolding u8 u32 u64
qid q = do u8 q.qtype; u32 q.version; u64 q.path

-- `data` of the source.
unfoldable pub blob : List ℕ → Put
unfolding u32 raw
blob b = do u32 (length b); raw b

-- `for (const x of xs) put(x)`
unfoldable pub each {ℓ} : {A : Type ℓ} → (A → Put) → List A → Put
each put [] = λ w. w
each put (x ∷ xs) = do put x; each put xs

unfoldable pub wnames : List Str → Put
unfolding u16 each str
wnames v = do u16 (length v); each str v

unfoldable pub qids : List Qid → Put
unfolding u16 each qid
qids v = do u16 (length v); each qid v

unfoldable pub patch_u32 : ℕ → ℕ → Put
patch_u32 off v w = record w { buf = overwrite w.buf off (le_bytes 4 (v % 2 ^ 32)) }

unfoldable pub out : Writer → List ℕ
out w = take w.pos w.buf
