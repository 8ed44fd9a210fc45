-- ===== src/NineP/Writer/Laws.antt =====
-- The growing buffer of the writer refines a plain list of bytes: what each method appends.
use nix_wasm.Prelude.{ℕ, zero, suc, ◌+◌, ◌*◌, ◌%◌, ◌^◌, ◌≤◌, ◌<◌, List, [], ◌++◌}
use nix_wasm.Prelude.{
  ◌≡◌, refl, sym, ap, ◌∙◌, arith, append_assoc, append-nil, inl, inr, Bool-cases,
}
use nix_wasm.Prelude.{leb, length, take, replicate, overwrite, length-replicate, length-overwrite}
use nix_wasm.Prelude.{take-overwrite, take-take}
use nix_wasm.Prelude.Bytes.{le_bytes, length-le_bytes}
use nix_wasm.NineP.Writer.{
  Writer, Put, ◌>>◌, new_writer, grow, ensure, store, u8, u16, u32, u64, raw, out,
}

-- The position is inside a buffer that is not empty.
pub record IsValid (w : Writer) : Type 0 where
  pub inside : w.pos ≤ length w.buf
  pub some_room : 0 < length w.buf

grow_enough : (fuel need cap : ℕ) → 0 < cap → need ≤ fuel + cap → need ≤ grow fuel need cap
unfolding grow
grow_enough zero need cap pos h = omega arith
grow_enough (suc fuel) need cap pos h = ground (arith, grow_enough fuel need (cap * 2))

le-grow : (fuel need cap : ℕ) → cap ≤ grow fuel need cap
unfolding grow
le-grow zero need cap = omega arith
le-grow (suc fuel) need cap = ground (arith, le-grow fuel need (cap * 2))

-- After `ensure n` there is room for `n` bytes, and what was written stands.
pub record HasRoom (n : ℕ) (w w' : Writer) : Type 0 where
  pub room : w'.pos + n ≤ length w'.buf
  pub same_pos : w'.pos ≡ w.pos
  pub same_out : out w' ≡ out w
  pub nonempty : 0 < length w'.buf

-- From a writer whose position lies in its buffer, which is not empty, `ensure n` makes room for `n`
-- bytes: the doubling ends in time, the position stays, and so does what was written.
pub ensure-HasRoom : (n : ℕ) (w : Writer) → IsValid w → HasRoom n w (ensure n w)
unfolding ensure out
ensure-HasRoom n w v = elim (Bool-cases (leb (w.pos + n) (length w.buf))) [
  | inl fits ↦
      rw fits
        (record { room = ground arith; same_pos = refl; same_out = refl; nonempty = v.some_room })
  | inr full ↦ rw full (record {
    room = rw (length-overwrite, length-replicate) enough;
    same_pos = refl;
    same_out = copied;
    nonempty = rw (length-overwrite, length-replicate) (omega (arith, larger, v.some_room));
  })
]
  where
    need : ℕ
    need = w.pos + n

    cap : ℕ
    cap = grow need need (length w.buf * 2)

    enough : need ≤ cap
    enough = grow_enough need need (length w.buf * 2) (omega (arith, v.some_room)) (omega arith)

    larger : length w.buf * 2 ≤ cap
    larger = le-grow need need (length w.buf * 2)

    zeros : List ℕ
    zeros = replicate cap 0

    whole : take (0 + length w.buf) (overwrite zeros 0 w.buf) ≡ w.buf
    whole = take-overwrite zeros 0 w.buf (rw length-replicate (omega (arith, larger)))

    copied : take w.pos (overwrite zeros 0 w.buf) ≡ take w.pos w.buf
    copied =
        sym (take-take w.pos (0 + length w.buf) (overwrite zeros 0 w.buf) (omega (arith, v.inside)))
        ∙ ap (take w.pos) whole

-- The method appends the bytes to what is written, and keeps the writer valid.
pub record Emits (p : Put) (bytes : List ℕ) : Type 0 where
  pub keeps : (w : Writer) → IsValid w → IsValid (p w)
  pub appends : (w : Writer) → IsValid w → out (p w) ≡ out w ++ bytes

pub store-Emits : (n : ℕ) (bytes : List ℕ) → length bytes ≡ n → Emits (store n bytes) bytes
unfolding store out
store-Emits n bytes e = record {
  keeps = λ w v.
      let r = ensure-HasRoom n w v in
      record { inside = rw length-overwrite r.room; some_room = rw length-overwrite r.nonempty };
  appends = λ w v.
      let r = ensure-HasRoom n w v in
      ap
        (λ (k : ℕ). take ((ensure n w).pos + k) (overwrite (ensure n w).buf (ensure n w).pos bytes))
        (sym e)
      ∙ take-overwrite (ensure n w).buf (ensure n w).pos bytes (rw e r.room)
      ∙ ap (λ t. t ++ bytes) r.same_out;
}

pub Emits->> : (p q : Put) (a b : List ℕ) → Emits p a → Emits q b → Emits (p >> q) (a ++ b)
Emits->> p q a b f g = record {
  keeps = λ w v. g.keeps (p w) (f.keeps w v);
  appends = λ w v. g.appends (p w) (f.keeps w v) ∙ rw (f.appends w v, append_assoc);
}

pub skip-Emits : Emits (λ w. w) []
skip-Emits = record { keeps = λ w v. v; appends = λ w v. sym (append-nil (out w)) }

pub u8-Emits : (v : ℕ) → Emits (u8 v) (le_bytes 1 (v % 2 ^ 8))
unfolding u8
u8-Emits v = store-Emits 1 _ (length-le_bytes 1 (v % 2 ^ 8))

pub u16-Emits : (v : ℕ) → Emits (u16 v) (le_bytes 2 (v % 2 ^ 16))
unfolding u16
u16-Emits v = store-Emits 2 _ (length-le_bytes 2 (v % 2 ^ 16))

pub u32-Emits : (v : ℕ) → Emits (u32 v) (le_bytes 4 (v % 2 ^ 32))
unfolding u32
u32-Emits v = store-Emits 4 _ (length-le_bytes 4 (v % 2 ^ 32))

pub u64-Emits : (v : ℕ) → Emits (u64 v) (le_bytes 8 (v % 2 ^ 64))
unfolding u64
u64-Emits v = store-Emits 8 _ (length-le_bytes 8 (v % 2 ^ 64))

pub raw-Emits : (b : List ℕ) → Emits (raw b) b
unfolding raw
raw-Emits b = store-Emits (length b) b refl

pub new_writer-IsValid : IsValid new_writer
unfolding new_writer
new_writer-IsValid = record { inside = omega arith; some_room = omega arith }

pub out-new_writer : out new_writer ≡ []
unfolding out new_writer
out-new_writer = refl
