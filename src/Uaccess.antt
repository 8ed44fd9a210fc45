-- ===== src/Uaccess.antt =====
-- runtime/mmu-uaccess.ts: the host's own access to a task's memory, through the two levels of the
-- guest's page table. The linear memory is the list of its bytes, and what a throw left of it stays.
pub mod Pages
pub mod Bytewise
pub mod Reads
pub mod Strings
pub mod Stores
mod Tests
use nix_wasm.Prelude.{ℕ, zero, suc, ◌≡◌, ◌+◌, ◌-◌, ◌*◌, ◌/◌, ◌%◌, ◌^◌, List, [], ◌∷◌, ◌++◌}
use nix_wasm.Prelude.{
  Bool, true, false, ltb, leb, ◌==◌, if◌then◌else◌, length, take, drop, overwrite, replicate,
}
use nix_wasm.Prelude.Bytes.{from_le}
use nix_wasm.Text.{Str, utf8_decode}

abbrev pub page : ℕ
page = 4096

pub data Kind : Type 0 where
  load store : Kind

-- Which level and which test failed.
pub data Detail : Type 0 where
  pgd_out_of_bounds pgd_not_present pte_out_of_bounds pte_not_present pte_not_writable : Detail

pub record UserFault : Type 0 where
  pub va : ℕ
  pub kind : Kind
  pub detail : Detail

pub data Outcome {ℓ} (A : Type ℓ) : Type ℓ where
  ok : A → Outcome A
  user_fault : UserFault → Outcome A
  range_error : Outcome A
  -- The fuel of a loop ran out.
  stuck : Outcome A

infixl 5 ◌>>=◌
abbrev pub ◌>>=◌ {ℓ κ} : {A : Type ℓ} {B : Type κ} → Outcome A → (A → Outcome B) → Outcome B
ok a >>= f = f a
user_fault e >>= f = user_fault e
range_error >>= f = range_error
stuck >>= f = stuck

abbrev pub kind_of : Bool → Kind
kind_of write = if write then store else load

-- `& ~PAGE_MASK` and `& PAGE_MASK`.
abbrev pub frame : ℕ → ℕ
frame e = e / page * page

abbrev pub get_uint32 : List ℕ → ℕ → ℕ
get_uint32 mem off = from_le (take 4 (drop off mem))

-- The test of the page's entry, and the physical address.
unfoldable pub check_pte : ℕ → Bool → ℕ → Outcome ℕ
check_pte va write pte =
    if pte % 2 == 0
    then user_fault (record { va = va; kind = kind_of write; detail = pte_not_present })
    else if (if write then pte / 2 % 2 == 0 else false)
    then user_fault (record { va = va; kind = kind_of write; detail = pte_not_writable })
    else ok (frame pte + va % page)

unfoldable pub walk : List ℕ → ℕ → ℕ → Bool → Outcome ℕ
unfolding check_pte
walk mem pt_base va write =
    let pgd_off = pt_base + va / 2 ^ 22 * 4 in
    if ltb (length mem) (pgd_off + 4)
    then user_fault (record { va = va; kind = kind_of write; detail = pgd_out_of_bounds })
    else (let pgd = get_uint32 mem pgd_off in
        if pgd == 0
        then user_fault (record { va = va; kind = kind_of write; detail = pgd_not_present })
        else (let pte_off = frame pgd + va / page % 1024 * 4 in
            if ltb (length mem) (pte_off + 4)
            then user_fault (record { va = va; kind = kind_of write; detail = pte_out_of_bounds })
            else check_pte va write (get_uint32 mem pte_off)))

-- `va >>> 0` and `ptBase >>> 0` are the low 32 bits.
unfoldable pub translate_user : List ℕ → ℕ → ℕ → Bool → Outcome ℕ
unfolding walk
translate_user mem pt_base va write =
    if pt_base % 2 ^ 32 == 0
    then ok (va % 2 ^ 32)
    else walk mem (pt_base % 2 ^ 32) (va % 2 ^ 32) write

abbrev pub min : ℕ → ℕ → ℕ
min a b = if leb a b then a else b

-- How many of the bytes that are left lie on the page of `cur`.
abbrev pub chunk_of : ℕ → ℕ → ℕ
chunk_of left cur = min left (page - cur % page)

-- The loop of `readUser`: `done` bytes of `len` are in `out`.
unfoldable pub read_loop : ℕ → List ℕ → ℕ → ℕ → ℕ → ℕ → List ℕ → Outcome (List ℕ)
unfolding translate_user
read_loop zero mem pt_base va len done out = if ltb done len then stuck else ok out
read_loop (suc fuel) mem pt_base va len done out =
    let chunk = chunk_of (len - done) (va + done) in
    if ltb done len
    then (translate_user mem pt_base (va + done) false >>= λ phys.
        read_loop fuel mem pt_base va len (done + chunk)
          (overwrite out done (take chunk (drop phys mem))))
    else ok out

-- Every round takes a byte at least, so `len` rounds are enough.
unfoldable pub read_user : List ℕ → ℕ → ℕ → ℕ → Outcome (List ℕ)
unfolding read_loop
read_user mem pt_base va len =
    if pt_base == 0
    then ok (take (len % 2 ^ 32) (drop (va % 2 ^ 32) mem))
    else read_loop (len % 2 ^ 32) mem pt_base (va % 2 ^ 32) (len % 2 ^ 32) 0
        (replicate (len % 2 ^ 32) 0)

-- How a store ended, and the memory that it left.
abbrev pub Stored : Type 0
Stored = Outcome (Unit {0}) × List ℕ

-- One page of `writeUser`: what follows runs on the memory that `u8.set` made.
abbrev pub store_page : List ℕ → List ℕ → Outcome ℕ → (List ℕ → Stored) → Stored
store_page mem bytes (ok phys) rest =
    if leb (phys + length bytes) (length mem)
    then rest (overwrite mem phys bytes)
    else (range_error, mem)
store_page mem bytes (user_fault e) rest = (user_fault e, mem)
store_page mem bytes range_error rest = (range_error, mem)
store_page mem bytes stuck rest = (stuck, mem)

unfoldable pub write_loop : ℕ → List ℕ → ℕ → ℕ → List ℕ → ℕ → Stored
unfolding translate_user
write_loop zero mem pt_base va bytes done =
    if ltb done (length bytes) then (stuck, mem) else (ok tt, mem)
write_loop (suc fuel) mem pt_base va bytes done =
    let chunk = chunk_of (length bytes - done) (va + done) in
    if ltb done (length bytes)
    then store_page mem (take chunk (drop done bytes)) (translate_user mem pt_base (va + done) true)
        (λ mem'. write_loop fuel mem' pt_base va bytes (done + chunk))
    else (ok tt, mem)

unfoldable pub write_user : List ℕ → ℕ → ℕ → List ℕ → Stored
unfolding write_loop
write_user mem pt_base va bytes =
    if pt_base == 0
    then store_page mem bytes (ok (va % 2 ^ 32)) (λ mem'. (ok tt, mem'))
    else write_loop (length bytes) mem pt_base (va % 2 ^ 32) bytes 0

-- The bytes in front of the first zero, and whether there is one.
abbrev pub until_zero : List ℕ → List ℕ × Bool
until_zero [] = ([], false)
until_zero (b ∷ bytes) =
    let rest = until_zero bytes in if b == 0 then ([], true) else (b ∷ rest.0, rest.1)

-- The bytes that the loop of `readUserCString` gathers, without the zero.
unfoldable pub cstring_loop : ℕ → List ℕ → ℕ → ℕ → ℕ → ℕ → Outcome (List ℕ)
unfolding translate_user
cstring_loop zero mem pt_base va max scanned = if ltb scanned max then stuck else ok []
cstring_loop (suc fuel) mem pt_base va max scanned =
    let chunk = chunk_of (max - scanned) (va + scanned) in
    if ltb scanned max
    then (translate_user mem pt_base (va + scanned) false >>= λ phys.
        let part = until_zero (take chunk (drop phys mem)) in
        elim part.1 [
          | true ↦ ok part.0
          | false ↦
              cstring_loop fuel mem pt_base va max (scanned + chunk) >>= λ rest. ok (part.0 ++ rest)
        ])
    else ok []

-- The bytes are decoded as a TextDecoder does.
unfoldable pub read_user_cstring : List ℕ → ℕ → ℕ → ℕ → Outcome Str
unfolding cstring_loop
read_user_cstring mem pt_base va max =
    if pt_base == 0
    then ok (utf8_decode ((until_zero (take max (drop (va % 2 ^ 32) mem))).0))
    else cstring_loop max mem pt_base (va % 2 ^ 32) max 0 >>= λ bytes. ok (utf8_decode bytes)
