-- ===== src/Uaccess/Reads.antt =====
-- The reads of runtime/mmu-uaccess.ts, page by page, against the reads byte by byte.
use nix_wasm.Prelude.{
  ℕ, zero, suc, ◌≡◌, refl, sym, ap, ◌∙◌, ◌+◌, ◌-◌, ◌%◌, ◌^◌, ◌≤◌, ◌<◌, List, [], ◌++◌, true, false,
  ltb, lt→ltb, ◌==◌, length, take, drop, overwrite, replicate, arith, subst, ◌≢◌, length-append,
  append_assoc,
}
use nix_wasm.Uaccess.{
  page, chunk_of, Outcome, ok, user_fault, range_error, stuck, ◌>>=◌, translate_user, read_loop,
  read_user,
}
use nix_wasm.Uaccess.Bytewise.{
  load_bytes, pad, length-pad, overwrite-pad, bind-ok, load_bytes-append, load_bytes-chunk,
}

-- A round takes at least a byte, and no more than are left or are on the page.
pub chunk_bounds :
    (left cur : ℕ)
    → 0 < left
    → (0 < chunk_of left cur) × (chunk_of left cur ≤ left) × (cur % page + chunk_of left cur ≤ page)
chunk_bounds left cur h = ground arith

behind :
    (front piece : List ℕ) (K : Outcome (List ℕ))
    → (K >>= λ rest. ok ((front ++ piece) ++ rest))
      ≡ ((K >>= λ ys. ok (piece ++ ys)) >>= λ rest. ok (front ++ rest))
behind front piece (ok ys) = ap ok (append_assoc front piece ys)
behind front piece (user_fault e) = refl
behind front piece range_error = refl
behind front piece stuck = refl

module _ (mem : List ℕ) (pt va : ℕ) where
  -- One round, on what it translated and what the rounds behind it do.
  read_round :
      (c m done : ℕ) (front : List ℕ) (next : List ℕ → Outcome (List ℕ)) (T : Outcome ℕ)
      → 0 < c
      → (va + done) % page + c ≤ page
      → length front ≡ done
      → translate_user mem pt (va + done) false ≡ T
      → ((front' : List ℕ)
          → length front' ≡ done + c
          → next (front' ++ replicate m 0)
            ≡ (load_bytes m mem pt (va + (done + c)) >>= λ rest. ok (front' ++ rest)))
      → (T >>= λ phys.
          next (overwrite (front ++ replicate (c + m) 0) done (take c (drop phys mem))))
        ≡ (load_bytes (c + m) mem pt (va + done) >>= λ rest. ok (front ++ rest))
  read_round c m done front next (ok p) some_left inside e2 et ih =
      let here = load_bytes-chunk mem pt (va + done) c (ok p) some_left inside et in
      let front' = front ++ pad c (drop p mem) in
      let e3 : length front' ≡ done + c =
        omega (arith, e2, length-append front (pad c (drop p mem)), length-pad c (drop p mem)) in
      let e4 : va + (done + c) ≡ va + done + c = omega arith in
      let put = overwrite-pad front c m (drop p mem) in
      let put' =
        ap (λ d. overwrite (front ++ replicate (c + m) 0) d (take c (drop p mem))) (sym e2) ∙ put in
      ap next put'
      ∙ ih front' e3
      ∙ rw (load_bytes-append mem pt c m (va + done), here, e4)
          (behind front (pad c (drop p mem)) _)
  read_round c m done front next (user_fault f) some_left inside e2 et ih =
      let here = load_bytes-chunk mem pt (va + done) c (user_fault f) some_left inside et in
      rw (load_bytes-append mem pt c m (va + done), here) refl
  read_round c m done front next range_error some_left inside e2 et ih =
      let here = load_bytes-chunk mem pt (va + done) c range_error some_left inside et in
      rw (load_bytes-append mem pt c m (va + done), here) refl
  read_round c m done front next stuck some_left inside e2 et ih =
      let here = load_bytes-chunk mem pt (va + done) c stuck some_left inside et in
      rw (load_bytes-append mem pt c m (va + done), here) refl

  -- With `front` read, the loop puts the bytes that are left behind it.
  read_loop_lem :
      (fuel left len done : ℕ) (front : List ℕ)
      → left ≤ fuel
      → len ≡ done + left
      → length front ≡ done
      → read_loop fuel mem pt va len done (front ++ replicate left 0)
        ≡ (load_bytes left mem pt (va + done) >>= λ rest. ok (front ++ rest))
  unfolding read_loop
  read_loop_lem zero zero len done front h e1 e2 =
      let over : ltb done len ≡ false = ground arith in rw over (ap ok refl)
  read_loop_lem zero (suc left) len done front h e1 e2 = absurd (omega arith)
  read_loop_lem (suc fuel) zero len done front h e1 e2 =
      let over : ltb done len ≡ false = ground arith in rw over refl
  read_loop_lem (suc fuel) (suc left) len done front h e1 e2 =
      let on : ltb done len ≡ true = lt→ltb done len (omega arith) in
      let c = chunk_of (suc left) (va + done) in
      let b = chunk_bounds (suc left) (va + done) (omega arith) in
      let e3 : len - done ≡ suc left = omega arith in
      let e4 : suc left ≡ c + (suc left - c) = omega (arith, b) in
      let next = read_loop fuel mem pt va len (done + c) in
      let round =
        read_round c (suc left - c) done front next (translate_user mem pt (va + done) false) b.0
          b.2 e2 refl
          (λ front' e.
            read_loop_lem fuel (suc left - c) len (done + c) front' (omega (arith, b))
              (omega (arith, b)) e) in
      let whole =
        subst
          (λ k.
            (translate_user mem pt (va + done) false >>= λ phys.
            next (overwrite (front ++ replicate k 0) done (take c (drop phys mem))))
            ≡ (load_bytes k mem pt (va + done) >>= λ rest. ok (front ++ rest)))
          (sym e4) round in
      rw (on, e3) whole

-- Read page by page, a task's bytes are those that one walk for each byte gives, a fault included.
pub read_user-load_bytes :
    (mem : List ℕ) (pt_base va len : ℕ)
    → pt_base ≢ 0
    → len < 2 ^ 32
    → read_user mem pt_base va len ≡ load_bytes len mem pt_base (va % 2 ^ 32)
unfolding read_user
read_user-load_bytes mem pt_base va len mapped fits =
    let e : (pt_base == 0) ≡ false = ground arith in
    let small : len % 2 ^ 32 ≡ len = omega arith in
    let from : va % 2 ^ 32 + 0 ≡ va % 2 ^ 32 = omega arith in
    let whole =
      read_loop_lem mem pt_base (va % 2 ^ 32) len len len 0 [] (omega arith) (omega arith) refl in
    rw (e, small) (whole ∙ rw from (bind-ok _))
