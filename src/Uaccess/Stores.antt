-- ===== src/Uaccess/Stores.antt =====
-- `writeUser` of runtime/mmu-uaccess.ts: where it stores, and what a load gives back.
use nix_wasm.Prelude.{
  ℕ, zero, suc, ◌≡◌, refl, sym, ap, ap₂, subst, ◌≢◌, ◌∙◌, ◌+◌, ◌-◌, ◌%◌, ◌^◌, ◌≤◌, ◌<◌, ◌⊎◌, List,
  [], ◌∷◌, Bool, true, false, ltb, lt→ltb, lt_or_le, ltb_of_le, le→leb, inl, inr, length, take,
  drop, overwrite, get_elem?, arith, take-all, ◌==◌, length-take, length-drop, length-overwrite,
}
use nix_wasm.Prelude.Bytes.{from_le}
use nix_wasm.Prelude.Lookup.{
  get_elem?-ext, get_elem?-take, get_elem?-drop, get_elem?-overwrite_in, get_elem?-overwrite_out,
}
use nix_wasm.Uaccess.{
  page, chunk_of, get_uint32, Outcome, ok, translate_user, Stored, store_page, write_loop,
  write_user, read_user,
}
use nix_wasm.Uaccess.Pages.{
  pgd_off, pte_off, ok-injective, translate_user-page, translate_user-same, translate_user-load,
}
use nix_wasm.Uaccess.Bytewise.{byte_of, load_bytes}
use nix_wasm.Uaccess.Reads.{chunk_bounds, read_user-load_bytes}

-- Each of `n` addresses from `va` on translates for a store to a byte of the memory of its own, which is
-- none of the entries that their walks read.
pub record Writable (mem : List ℕ) (pt va n : ℕ) (at : ℕ → ℕ) : Type 0 where
  pub mapped : (i : ℕ) → i < n → translate_user mem pt (va + i) true ≡ ok (at i)
  pub inside : (i : ℕ) → i < n → at i < length mem
  pub once : (i j : ℕ) → i < j → j < n → at i ≢ at j
  pub off_pgd : (i j k : ℕ) → i < n → j < n → k < 4 → at i ≢ pgd_off pt (va + j) + k
  pub off_pte : (i j k : ℕ) → i < n → j < n → k < 4 → at i ≢ pte_off mem pt (va + j) + k

take-drop-suc :
    (n i : ℕ) (xs : List ℕ)
    → i < length xs
    → take (suc n) (drop i xs) ≡ byte_of (get_elem? xs i) ∷ take n (drop (i + 1) xs)
take-drop-suc n i [] h = absurd (omega arith)
take-drop-suc n zero (x ∷ xs) h = refl
take-drop-suc n (suc i) (x ∷ xs) h =
    let e : suc i + 1 ≡ suc (i + 1) = omega arith in rw e (take-drop-suc n i xs (omega arith))

-- The memory with the first `done` bytes stored.
pub record Holds (mem mem' : List ℕ) (at : ℕ → ℕ) (bytes : List ℕ) (done : ℕ) : Type 0 where
  pub long : length mem' ≡ length mem
  pub written : (i : ℕ) → i < done → get_elem? mem' (at i) ≡ get_elem? bytes i
  pub kept : (x : ℕ) → ((i : ℕ) → i < done → at i ≢ x) → get_elem? mem' x ≡ get_elem? mem x

get_uint32-same :
    (mem mem' : List ℕ) (off : ℕ)
    → ((k : ℕ) → k < 4 → get_elem? mem' (off + k) ≡ get_elem? mem (off + k))
    → get_uint32 mem' off ≡ get_uint32 mem off
get_uint32-same mem mem' off h = ap from_le (get_elem?-ext _ _ same)
  where
    inside :
        (k : ℕ) (d : (k < 4) ⊎ (4 ≤ k))
        → get_elem? (take 4 (drop off mem')) k ≡ get_elem? (take 4 (drop off mem)) k
    inside k (inl d) =
        rw
          (
            get_elem?-take 4 k (drop off mem'),
            get_elem?-take 4 k (drop off mem),
            get_elem?-drop off k mem',
            get_elem?-drop off k mem,
            h k d,
          )
          refl
    inside k (inr d) =
        rw (get_elem?-take 4 k (drop off mem'), get_elem?-take 4 k (drop off mem), ltb_of_le k 4 d)
          refl

    same : (k : ℕ) → get_elem? (take 4 (drop off mem')) k ≡ get_elem? (take 4 (drop off mem)) k
    same k = inside k (lt_or_le k 4)

module _ (mem : List ℕ) (pt va : ℕ) (bytes : List ℕ) (at : ℕ → ℕ)
    (w : Writable mem pt va (length bytes) at) where
  -- What was stored so far changes no translation.
  translate-Holds :
      (mem' : List ℕ) (done j : ℕ) (write : Bool)
      → Holds mem mem' at bytes done
      → done ≤ length bytes
      → j < length bytes
      → translate_user mem' pt (va + j) write ≡ translate_user mem pt (va + j) write
  translate-Holds mem' done j write h fits inside =
      translate_user-same mem mem' pt (va + j) write h.long
        (get_uint32-same mem mem' _
          (λ k small. h.kept _ (λ i before. w.off_pgd i j k (omega arith) inside small)))
        (get_uint32-same mem mem' _
          (λ k small. h.kept _ (λ i before. w.off_pte i j k (omega arith) inside small)))

  -- On one page the addresses are in a row.
  in_a_row :
      (done k : ℕ)
      → done + k < length bytes
      → (va + done) % page + k < page
      → at (done + k) ≡ at done + k
  in_a_row done k inside on_page =
      let e : va + done + k ≡ va + (done + k) = omega arith in
      let here =
        translate_user-page mem pt (va + done) k true (at done) on_page
          (w.mapped done (omega arith)) in
      ok-injective
        (sym (w.mapped (done + k) inside) ∙ ap (λ v. translate_user mem pt v true) (sym e) ∙ here)

  module _ (mem' : List ℕ) (done c : ℕ) (h : Holds mem mem' at bytes done) (some_left : 0 < c)
      (inside : done + c ≤ length bytes) (on_page : (va + done) % page + c ≤ page) where
    abbrev slice : List ℕ
    slice = take c (drop done bytes)

    length-slice : length slice ≡ c
    length-slice = length-take c (drop done bytes) (omega (arith, length-drop done bytes))

    chunk-fits : at done + length slice ≤ length mem'
    chunk-fits =
        let last = w.inside (done + (c - 1)) (omega arith) in
        let e = in_a_row done (c - 1) (omega arith) (omega arith) in
        omega (arith, last, e, h.long, length-slice)

    chunk-at : (k : ℕ) → k < c → at (done + k) ≡ at done + k
    chunk-at k small = in_a_row done k (omega arith) (omega arith)

    in_chunk :
        (k : ℕ)
        → k < c
        → get_elem? (overwrite mem' (at done) slice) (at (done + k)) ≡ get_elem? bytes (done + k)
    in_chunk k small =
        ap (get_elem? (overwrite mem' (at done) slice)) (chunk-at k small)
        ∙ get_elem?-overwrite_in mem' (at done) slice k chunk-fits (omega (arith, length-slice))
        ∙ get_elem?-take c k (drop done bytes)
        ∙ rw (lt→ltb k c small) (get_elem?-drop done k bytes)

    -- An address that no byte of the chunk is stored to.
    off_chunk :
        (x : ℕ)
        → ((k : ℕ) → k < c → at (done + k) ≢ x)
        → get_elem? (overwrite mem' (at done) slice) x ≡ get_elem? mem' x
    off_chunk x apart =
        get_elem?-overwrite_out mem' (at done) slice x chunk-fits (elim (lt_or_le x (at done)) [
          | inl before ↦ inl before
          | inr from ↦ elim (lt_or_le x (at done + c)) [
            | inl before ↦ absurd (
                apart (x - at done) (omega (arith, before, from))
                  (chunk-at (x - at done) (omega (arith, before, from)) ∙ omega (arith, from)))
            | inr behind ↦ inr (omega (arith, behind, length-slice))
          ]
        ])

    Holds-chunk : Holds mem (overwrite mem' (at done) slice) at bytes (done + c)
    Holds-chunk = record {
      long = length-overwrite mem' (at done) slice ∙ h.long;
      written = λ i small. elim (lt_or_le i done) [
        | inl before ↦
            off_chunk (at i) (λ k in_c e.
              w.once i (done + k) (omega (arith, before)) (omega (arith, in_c)) (sym e))
            ∙ h.written i before
        | inr from ↦
            let e : done + (i - done) ≡ i = omega (arith, from) in
            subst (λ j. get_elem? (overwrite mem' (at done) slice) (at j) ≡ get_elem? bytes j) e
              (in_chunk (i - done) (omega (arith, from, small)))
      ];
      kept = λ x apart.
          off_chunk x (λ k in_c. apart (done + k) (omega (arith, in_c)))
          ∙ h.kept x (λ i before. apart i (omega (arith, before)));
    }

  write_loop-Holds :
      (fuel left done : ℕ) (mem' : List ℕ)
      → left ≤ fuel
      → length bytes ≡ done + left
      → Holds mem mem' at bytes done
      → (end : List ℕ) × (write_loop fuel mem' pt va bytes done ≡ (ok tt, end))
        × Holds mem end at bytes (length bytes)
  unfolding write_loop
  write_loop-Holds zero zero done mem' h e h' =
      let over : ltb done (length bytes) ≡ false = ground arith in
      let all : done ≡ length bytes = omega arith in
      (mem', rw over refl, subst (Holds mem mem' at bytes) all h')
  write_loop-Holds zero (suc left) done mem' h e h' = absurd (omega arith)
  write_loop-Holds (suc fuel) zero done mem' h e h' =
      let over : ltb done (length bytes) ≡ false = ground arith in
      let all : done ≡ length bytes = omega arith in
      (mem', rw over refl, subst (Holds mem mem' at bytes) all h')
  write_loop-Holds (suc fuel) (suc left) done mem' h e h' =
      let on : ltb done (length bytes) ≡ true = lt→ltb done (length bytes) (omega arith) in
      let c = chunk_of (suc left) (va + done) in
      let b = chunk_bounds (suc left) (va + done) (omega arith) in
      let e3 : length bytes - done ≡ suc left = omega arith in
      let inside : done + c ≤ length bytes = omega (arith, b) in
      let here =
        translate-Holds mem' done done true h' (omega arith) (omega arith)
        ∙ w.mapped done (omega arith) in
      let fits = chunk-fits mem' done c h' b.0 inside b.2 in
      let next =
        write_loop-Holds fuel (suc left - c) (done + c)
          (overwrite mem' (at done) (take c (drop done bytes))) (omega (arith, b))
          (omega (arith, b)) (Holds-chunk mem' done c h' b.0 inside b.2) in
      let round : ℕ → Outcome ℕ → Stored = λ k T.
        store_page mem' (take (chunk_of k (va + done)) (drop done bytes)) T
          (λ m. write_loop fuel m pt va bytes (done + chunk_of k (va + done))) in
      (next.0, rw on (ap₂ round e3 here ∙ rw (le→leb _ _ fits) next.1), next.2)

  load_bytes-Holds :
      (end : List ℕ) (n i : ℕ)
      → Holds mem end at bytes (length bytes)
      → i + n ≤ length bytes
      → load_bytes n end pt (va + i) ≡ ok (take n (drop i bytes))
  load_bytes-Holds end zero i h inside = refl
  load_bytes-Holds end (suc n) i h inside =
      let here =
        translate-Holds end (length bytes) i false h (omega arith) (omega arith)
        ∙ translate_user-load mem pt (va + i) true (at i) (w.mapped i (omega arith)) in
      let next : va + i + 1 ≡ va + (i + 1) = omega arith in
      rw (here, next, load_bytes-Holds end n (i + 1) h (omega arith), h.written i (omega arith))
        (ap ok (sym (take-drop-suc n i bytes (omega arith))))

-- Bytes that are stored are what a load of them gives, and every other address keeps its byte.
pub write_user-read_user :
    (mem : List ℕ) (pt_base va : ℕ) (bytes : List ℕ) (at : ℕ → ℕ)
    → pt_base ≢ 0
    → length bytes < 2 ^ 32
    → Writable mem pt_base (va % 2 ^ 32) (length bytes) at
    → (end : List ℕ) × (write_user mem pt_base va bytes ≡ (ok tt, end))
      × (read_user end pt_base va (length bytes) ≡ ok bytes)
      × ((x : ℕ) → ((i : ℕ) → i < length bytes → at i ≢ x) → get_elem? end x ≡ get_elem? mem x)
unfolding write_user
write_user-read_user mem pt_base va bytes at mapped short w =
    let e : (pt_base == 0) ≡ false = ground arith in
    let start : Holds mem mem at bytes 0 = record {
      long = refl;
      written = λ i small. absurd (omega (arith, small));
      kept = λ x apart. refl;
    } in
    let v = va % 2 ^ 32 in
    let stored =
      write_loop-Holds mem pt_base v bytes at w (length bytes) (length bytes) 0 mem (omega arith)
        (omega arith) start in
    let v0 : v + 0 ≡ v = omega arith in
    let loaded =
      ap (load_bytes (length bytes) (stored.0) pt_base) (sym v0)
      ∙ load_bytes-Holds mem pt_base v bytes at w (stored.0) (length bytes) 0 stored.2 (omega arith)
      ∙ ap ok (take-all (length bytes) bytes (omega arith)) in
    (
      stored.0,
      rw e stored.1,
      read_user-load_bytes (stored.0) pt_base va (length bytes) mapped short ∙ loaded,
      λ x apart. stored.2.kept x apart,
    )
