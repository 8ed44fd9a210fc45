-- ===== src/Uaccess/Pages.antt =====
-- The page walk of runtime/mmu-uaccess.ts: what it gives along one page.
use nix_wasm.Prelude.{
  ℕ, ◌≡◌, refl, ◌+◌, ◌*◌, ◌/◌, ◌%◌, ◌^◌, ◌<◌, List, Bool, true, false, ltb, ◌==◌, if◌then◌else◌,
  length, drop, All, All-drop, arith, ap, ◌∙◌, Bool-cases, inl, inr,
}
use nix_wasm.Prelude.Bytes.{IsByte, from_le-take}
use nix_wasm.Uaccess.{
  page, Detail, UserFault, pgd_out_of_bounds, pgd_not_present, pte_out_of_bounds, Outcome, ok,
  user_fault, check_pte, walk, translate_user, get_uint32, frame, kind_of,
}

-- An address on the page of another.
module _ (va i : ℕ) (inside : va % page + i < page) where
  low_add : (va + i) % 2 ^ 32 ≡ va % 2 ^ 32 + i
  low_add = omega arith

  low-page : va % 2 ^ 32 % page ≡ va % page
  low-page = omega arith

module _ (v i : ℕ) (inside : v % page + i < page) where
  frame_add : (v + i) / page ≡ v / page
  frame_add = omega arith

  offset_add : (v + i) % page ≡ v % page + i
  offset_add = omega arith

  directory_add : (v + i) / 2 ^ 22 ≡ v / 2 ^ 22
  directory_add = omega arith

check_pte-page :
    (v i : ℕ) (write : Bool) (pte p : ℕ)
    → v % page + i < page
    → check_pte v write pte ≡ ok p
    → check_pte (v + i) write pte ≡ ok (p + i)
unfolding check_pte
check_pte-page v i write pte p inside h = ground (arith, offset_add v i inside)

-- A test that failed, of a walk that gave an address.
passed :
    (b : Bool) (e : UserFault) (x : Outcome ℕ) {p : ℕ}
    → (if b then user_fault e else x) ≡ ok p
    → (b ≡ false) × (x ≡ ok p)
passed true e x h = cc
passed false e x h = (refl, h)

-- What a walk that gives an address has read.
record Walked (mem : List ℕ) (pt v : ℕ) (write : Bool) (p : ℕ) : Type 0 where
  pgd : ℕ
  off : ℕ
  pgd_read : pgd ≡ get_uint32 mem (pt + v / 2 ^ 22 * 4)
  pgd_inside : ltb (length mem) (pt + v / 2 ^ 22 * 4 + 4) ≡ false
  pgd_present : (pgd == 0) ≡ false
  off_is : off ≡ frame pgd + v / page % 1024 * 4
  pte_inside : ltb (length mem) (off + 4) ≡ false
  pte_allows : check_pte v write (get_uint32 mem off) ≡ ok p

walk-Walked :
    (mem : List ℕ) (pt v : ℕ) (write : Bool) (p : ℕ)
    → walk mem pt v write ≡ ok p
    → Walked mem pt v write p
unfolding walk check_pte
walk-Walked mem pt v write p h =
    let failed : Detail → UserFault = λ d. record { va = v; kind = kind_of write; detail = d } in
    let pgd = get_uint32 mem (pt + v / 2 ^ 22 * 4) in
    let off = frame pgd + v / page % 1024 * 4 in
    let last = check_pte v write (get_uint32 mem off) in
    let inner =
      if ltb (length mem) (off + 4) then user_fault (failed pte_out_of_bounds) else last in
    let middle = if pgd == 0 then user_fault (failed pgd_not_present) else inner in
    let a =
      passed (ltb (length mem) (pt + v / 2 ^ 22 * 4 + 4)) (failed pgd_out_of_bounds) middle h in
    let b = passed (pgd == 0) (failed pgd_not_present) inner a.1 in
    let c = passed (ltb (length mem) (off + 4)) (failed pte_out_of_bounds) last b.1 in
    record {
      pgd = pgd;
      off = off;
      pgd_read = refl;
      pgd_inside = a.0;
      pgd_present = b.0;
      off_is = refl;
      pte_inside = c.0;
      pte_allows = c.1;
    }

-- The walk of any address and kind that meets the same entries.
Walked-walk :
    (mem : List ℕ) (pt v w : ℕ) (write write' : Bool) (p q : ℕ) (d : Walked mem pt v write p)
    → w / 2 ^ 22 ≡ v / 2 ^ 22
    → w / page ≡ v / page
    → check_pte w write' (get_uint32 mem (d.off)) ≡ ok q
    → walk mem pt w write' ≡ ok q
unfolding walk check_pte
Walked-walk mem pt v w write write' p q d same_dir same_page h =
    rw (same_dir, same_page, d.pgd_inside, ← d.pgd_read, d.pgd_present, ← d.off_is, d.pte_inside) h

walk-page :
    (mem : List ℕ) (pt v i : ℕ) (write : Bool) (p : ℕ)
    → v % page + i < page
    → walk mem pt v write ≡ ok p
    → walk mem pt (v + i) write ≡ ok (p + i)
walk-page mem pt v i write p inside h =
    let d = walk-Walked mem pt v write p h in
    Walked-walk mem pt v (v + i) write write p (p + i) d (directory_add v i inside)
      (frame_add v i inside) (check_pte-page v i write _ p inside d.pte_allows)

pub ok-injective : {v p : ℕ} → ◌≡◌ {A = Outcome ℕ} (ok v) (ok p) → v ≡ p
ok-injective h = cc

identity :
    (v p i : ℕ) → ◌≡◌ {A = Outcome ℕ} (ok v) (ok p) → ◌≡◌ {A = Outcome ℕ} (ok (v + i)) (ok (p + i))
identity v p i h = cc

-- Along a page an address translates as its first byte does.
pub translate_user-page :
    (mem : List ℕ) (pt_base va i : ℕ) (write : Bool) (p : ℕ)
    → va % page + i < page
    → translate_user mem pt_base va write ≡ ok p
    → translate_user mem pt_base (va + i) write ≡ ok (p + i)
unfolding translate_user
translate_user-page mem pt_base va i write p inside h =
    let inside' : va % 2 ^ 32 % page + i < page = rw (low-page va i inside) inside in
    elim (Bool-cases (pt_base % 2 ^ 32 == 0)) [
      | inl e ↦ rw (e, low_add va i inside) (identity _ _ i (rw e at h))
      | inr e ↦
          rw (e, low_add va i inside)
            (walk-page mem (pt_base % 2 ^ 32) (va % 2 ^ 32) i write p inside' (rw e at h))
    ]

get_uint32-lt : (mem : List ℕ) (off : ℕ) → All IsByte mem → get_uint32 mem off < 2 ^ 32
get_uint32-lt mem off bytes = from_le-take 4 (drop off mem) (All-drop IsByte off mem bytes)

check_pte-bounds :
    (v : ℕ) (write : Bool) (pte p : ℕ)
    → pte < 2 ^ 32
    → check_pte v write pte ≡ ok p
    → (p % page ≡ v % page) × (p < 2 ^ 32) × (check_pte v false pte ≡ ok p)
unfolding check_pte
check_pte-bounds v write pte p fits h = ground arith

-- Where a store may go a load may too, at the same address of the same page, below 2 ^ 32.
pub walk-bounds :
    (mem : List ℕ) (pt v : ℕ) (write : Bool) (p : ℕ)
    → All IsByte mem
    → walk mem pt v write ≡ ok p
    → (p % page ≡ v % page) × (p < 2 ^ 32) × (walk mem pt v false ≡ ok p)
walk-bounds mem pt v write p bytes h =
    let d = walk-Walked mem pt v write p h in
    let b = check_pte-bounds v write _ p (get_uint32-lt mem d.off bytes) d.pte_allows in
    (b.0, b.1, Walked-walk mem pt v v write false p p d refl refl b.2)

-- An address that a store or a load translates to lies below 2 ^ 32 and at the same place of its page,
-- and a load translates there too.
pub translate_user-bounds :
    (mem : List ℕ) (pt_base va : ℕ) (write : Bool) (p : ℕ)
    → All IsByte mem
    → translate_user mem pt_base va write ≡ ok p
    → (p % page ≡ va % page) × (p < 2 ^ 32) × (translate_user mem pt_base va false ≡ ok p)
unfolding translate_user
translate_user-bounds mem pt_base va write p bytes h =
    let low : va % 2 ^ 32 % page ≡ va % page = omega arith in
    elim (Bool-cases (pt_base % 2 ^ 32 == 0)) [
      | inl e ↦
          let same = ok-injective (rw e at h) in
          (omega (arith, same, low), omega (arith, same), rw e (ap ok same))
      | inr e ↦
          let b = walk-bounds mem (pt_base % 2 ^ 32) (va % 2 ^ 32) write p bytes (rw e at h) in
          (b.0 ∙ low, b.1, rw e b.2)
    ]

-- Where the two entries of an address stand.
abbrev pub pgd_off : ℕ → ℕ → ℕ
pgd_off pt_base va = pt_base % 2 ^ 32 + va % 2 ^ 32 / 2 ^ 22 * 4

abbrev pub pte_off : List ℕ → ℕ → ℕ → ℕ
pte_off mem pt_base va = frame (get_uint32 mem (pgd_off pt_base va)) + va % 2 ^ 32 / page % 1024 * 4

-- Two memories that hold the same entries translate an address alike.
pub translate_user-same :
    (mem mem' : List ℕ) (pt_base va : ℕ) (write : Bool)
    → length mem' ≡ length mem
    → get_uint32 mem' (pgd_off pt_base va) ≡ get_uint32 mem (pgd_off pt_base va)
    → get_uint32 mem' (pte_off mem pt_base va) ≡ get_uint32 mem (pte_off mem pt_base va)
    → translate_user mem' pt_base va write ≡ translate_user mem pt_base va write
unfolding translate_user walk
translate_user-same mem mem' pt_base va write len pgd pte = rw (len, pgd, pte) refl

check_pte-load :
    (v pte p : ℕ) (write : Bool) → check_pte v write pte ≡ ok p → check_pte v false pte ≡ ok p
unfolding check_pte
check_pte-load v pte p write h = ground arith

-- What may be stored to may be loaded from.
pub translate_user-load :
    (mem : List ℕ) (pt_base va : ℕ) (write : Bool) (p : ℕ)
    → translate_user mem pt_base va write ≡ ok p
    → translate_user mem pt_base va false ≡ ok p
unfolding translate_user
translate_user-load mem pt_base va write p h = elim (Bool-cases (pt_base % 2 ^ 32 == 0)) [
  | inl e ↦ rw e (rw e at h)
  | inr e ↦
      let d = walk-Walked mem (pt_base % 2 ^ 32) (va % 2 ^ 32) write p (rw e at h) in
      rw e (
        Walked-walk mem _ _ _ write false p p d refl refl
          (check_pte-load (va % 2 ^ 32) _ p write d.pte_allows))
]
