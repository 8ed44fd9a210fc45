-- ===== src/Uaccess/Tests.antt =====
-- A memory of 16 bytes with both levels of a page table: page 0 may be stored to, page 1 shows the same
-- frame and may only be loaded from.
use nix_wasm.Prelude.{
  ℕ, zero, suc, ◌+◌, ◌%◌, ◌^◌, ◌<◌, List, [], ◌∷◌, ◌≡◌, refl, ◌≢◌, true, false, get_elem?, arith,
  All,
}
use nix_wasm.Prelude.Bytes.{IsByte, all_bytes, all_bytes_sound}
use nix_wasm.Text.{utf8_decode}
use nix_wasm.Uaccess.{
  page, Outcome, ok, user_fault, store, pte_not_writable, ◌>>=◌, check_pte, walk, translate_user,
  read_loop, read_user, read_user_cstring, write_loop, write_user,
}
use nix_wasm.Uaccess.Pages.{translate_user-bounds}
use nix_wasm.Uaccess.Bytewise.{load_bytes}
use nix_wasm.Uaccess.Reads.{read_user-load_bytes}
use nix_wasm.Uaccess.Strings.{scan, read_user_cstring-scan}
use nix_wasm.Uaccess.Stores.{Writable, write_user-read_user}

abbrev mem : List ℕ
mem = 3 ∷ 0 ∷ 0 ∷ 0 ∷ 1 ∷ 0 ∷ 0 ∷ 0 ∷ 97 ∷ 98 ∷ 0 ∷ 99 ∷ 9 ∷ 9 ∷ 9 ∷ 9 ∷ []

abbrev two : List ℕ
two = 5 ∷ 6 ∷ []

mem-bytes : All IsByte mem
unfolding all_bytes
mem-bytes = all_bytes_sound mem refl

-- A load that crosses into page 1: two bytes past the memory, and two of the frame.
crossing : read_user mem 4 4094 4 ≡ ok (0 ∷ 0 ∷ 3 ∷ 0 ∷ [])
unfolding read_user read_loop translate_user walk check_pte
crossing = refl

-- A page that is present, at a frame past the memory: the store throws a RangeError.
past_memory : write_user mem 4 4094 (7 ∷ []) ≡ (Outcome.range_error, mem)
unfolding write_user write_loop translate_user walk check_pte
past_memory = refl

protected :
    write_user mem 4 4096 (7 ∷ [])
    ≡ (user_fault (record { va = 4096; kind = store; detail = pte_not_writable }), mem)
unfolding write_user write_loop translate_user walk check_pte
protected = refl

at_8 : translate_user mem 4 8 true ≡ ok 8
unfolding translate_user walk check_pte
at_8 = refl

translate_user-bounds_example :
    (8 % page ≡ 8 % page) × (8 < 2 ^ 32) × (translate_user mem 4 8 false ≡ ok 8)
translate_user-bounds_example = translate_user-bounds mem 4 8 true 8 mem-bytes at_8

not_identity : ◌≢◌ {A = ℕ} 4 0
not_identity e = absurd (omega (arith, e))

read_user-load_bytes_example : read_user mem 4 4094 4 ≡ load_bytes 4 mem 4 (4094 % 2 ^ 32)
read_user-load_bytes_example = read_user-load_bytes mem 4 4094 4 not_identity (omega arith)

read_user_cstring-scan_example :
    read_user_cstring mem 4 8 8 ≡ (scan 8 mem 4 (8 % 2 ^ 32) >>= λ bytes. ok (utf8_decode bytes))
read_user_cstring-scan_example = read_user_cstring-scan mem 4 8 8 not_identity

abbrev at : ℕ → ℕ
at i = 8 + i

writable : Writable mem 4 8 2 at
unfolding translate_user walk check_pte
writable = record {
  mapped = mapped;
  inside = λ i h. omega (arith, h);
  once = λ i j h k e. omega (arith, h, e);
  off_pgd = λ i j k hi hj hk e. omega (arith, hi, hj, hk, e);
  off_pte = off_pte;
}
  where
    mapped : (i : ℕ) → i < 2 → translate_user mem 4 (8 + i) true ≡ ok (8 + i)
    mapped zero h = refl
    mapped (suc zero) h = refl
    mapped (suc (suc i)) h = absurd (omega arith)

    off_pte :
        (i j k : ℕ)
        → i < 2
        → j < 2
        → k < 4
        → 8 + i ≢ nix_wasm.Uaccess.Pages.pte_off mem 4 (8 + j) + k
    off_pte i zero k hi hj hk e = omega (arith, hi, hk, e)
    off_pte i (suc zero) k hi hj hk e = omega (arith, hi, hk, e)
    off_pte i (suc (suc j)) k hi hj hk e = absurd (omega arith)

write_user-read_user_example :
    (end : List ℕ) × (write_user mem 4 8 two ≡ (ok tt, end))
    × (read_user end 4 8 2 ≡ ok two)
    × ((x : ℕ) → ((i : ℕ) → i < 2 → at i ≢ x) → get_elem? end x ≡ get_elem? mem x)
write_user-read_user_example =
    write_user-read_user mem 4 8 two at not_identity (omega arith) writable
