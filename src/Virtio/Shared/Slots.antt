-- ===== src/Virtio/Shared/Slots.antt =====
-- The slots of the table: what is stored in one, and that the others keep theirs.
use nix_wasm.Prelude.{
  ℕ, suc, ◌+◌, ◌-◌, ◌*◌, ◌/◌, ◌%◌, ◌^◌, ◌≤◌, ◌<◌, ◌≡◌, ◌≢◌, ◌⊎◌, inl, inr, refl, ap, ap₂, ◌∙◌,
  arith,
}
use nix_wasm.Prelude.{false, leb, Bool-cases, ◌==◌, if◌then◌else◌, length, none, some}
use nix_wasm.Prelude.Number.{to_number, to_number_lem}
use nix_wasm.Virtio.Machine.{ok, ◌>>◌}
use nix_wasm.Virtio.Vring.{Layout}
use nix_wasm.Virtio.Shared.{
  Words, word, store_from, total_words, base_of, slot_base, slot_of, max_devs, max_qs, config_base,
  u32_pair, read_layout, set, get, load_last_avail, get_config_size,
}
use nix_wasm.Virtio.Shared.Words.{word-store_from}

abbrev pub IsTable : Words → Type 0
IsTable ws = length ws ≡ total_words

-- A device and a queue that have a slot.
pub record HasSlot (dev q : ℕ) : Type 0 where
  pub dev_lt : dev < max_devs
  pub q_lt : q < max_qs

pub slot_base_ok :
    (dev q : ℕ) (ws : Words) → HasSlot dev q → slot_base dev q ws ≡ (ok (base_of dev q), ws)
unfolding slot_base
slot_base_ok dev q ws h = ground (arith, h.dev_lt, h.q_lt)

pub get_ok :
    (dev q : ℕ) (ws : Words)
    → HasSlot dev q
    → get dev q ws
      ≡ (if word ws (base_of dev q + 8) == 1 then read_layout (base_of dev q) ws else (ok none, ws))
unfolding get
get_ok dev q ws h = rw (slot_base_ok dev q ws h) (ground arith)

pub load_last_avail_ok :
    (dev q : ℕ) (ws : Words)
    → HasSlot dev q
    → load_last_avail dev q ws ≡ (ok (word ws (base_of dev q + 7) % 2 ^ 16), ws)
unfolding load_last_avail
load_last_avail_ok dev q ws h = rw (slot_base_ok dev q ws h) refl

-- The words of a slot in two tables.
abbrev SameSlot : ℕ → ℕ → Words → Words → Type 0
SameSlot dev q ws ws' = (k : ℕ) → k < 9 → word ws' (base_of dev q + k) ≡ word ws (base_of dev q + k)

-- The words of a slot that the layout is read from: all but the cursor.
abbrev pub SameLayout : ℕ → ℕ → Words → Words → Type 0
SameLayout dev q ws ws' =
    (k : ℕ) → k < 9 → k == 7 ≡ false → word ws' (base_of dev q + k) ≡ word ws (base_of dev q + k)

read_layout-SameLayout :
    (dev q : ℕ) (ws ws' : Words)
    → SameLayout dev q ws ws'
    → (read_layout (base_of dev q) ws').0 ≡ (read_layout (base_of dev q) ws).0
unfolding read_layout
read_layout-SameLayout dev q ws ws' same = rw (same 0 (omega arith) refl) (
    rw (same 1 (omega arith) refl) (
      rw (same 2 (omega arith) refl) (
        rw (same 3 (omega arith) refl) (
          rw (same 4 (omega arith) refl)
            (rw (same 5 (omega arith) refl) (rw (same 6 (omega arith) refl) refl))))))

pub get-SameLayout :
    (dev q : ℕ) (ws ws' : Words)
    → HasSlot dev q
    → SameLayout dev q ws ws'
    → (get dev q ws').0 ≡ (get dev q ws).0
get-SameLayout dev q ws ws' h same = rw (get_ok dev q ws h) (
    rw (get_ok dev q ws' h) (
      rw (same 8 (omega arith) refl) (elim (Bool-cases (word ws (base_of dev q + 8) == 1)) [
        | inl e ↦ rw e (read_layout-SameLayout dev q ws ws' same)
        | inr e ↦ rw e refl
      ])))

-- The table after `set`, and its words in the slot.
module _ (dev q desc avail used num : ℕ) (ws : Words) (h : HasSlot dev q) where
  abbrev pub after_set : Words
  after_set = store_from (base_of dev q) (slot_of desc avail used num) ws

  pub set_ok : set dev q desc avail used num ws ≡ (ok tt, after_set)
  unfolding set
  set_ok = rw (slot_base_ok dev q ws h) refl

  in_table : IsTable ws → base_of dev q + 9 ≤ length ws
  in_table t = omega (arith, t, h.dev_lt, h.q_lt)

  word-after_set :
      (k : ℕ)
      → IsTable ws
      → k < 9
      → word after_set (base_of dev q + k) ≡ word (slot_of desc avail used num) k % 2 ^ 32
  word-after_set k t hk =
      let e : base_of dev q + k - base_of dev q ≡ k = omega arith in
      word-store_from (base_of dev q) (slot_of desc avail used num) ws (base_of dev q + k)
        (in_table t)
      ∙ ground (arith, ap (word (slot_of desc avail used num)) e)

  word-after_set_apart :
      (j : ℕ)
      → IsTable ws
      → (j < base_of dev q) ⊎ (base_of dev q + 9 ≤ j)
      → word after_set j ≡ word ws j
  word-after_set_apart j t apart =
      word-store_from (base_of dev q) (slot_of desc avail used num) ws j (in_table t)
      ∙ ground (arith, apart)

-- The halves of a Number below 2 ^ 53, put together.
u32_pair-halves :
    (v : ℕ)
    → v < 2 ^ 53
    → u32_pair (to_number v % 2 ^ 32 % 2 ^ 32) (to_number v / 2 ^ 32 % 2 ^ 32) ≡ v
u32_pair-halves v h = rw (to_number_lem v h) (
    let e : v % 2 ^ 32 % 2 ^ 32 + v / 2 ^ 32 % 2 ^ 32 * 2 ^ 32 ≡ v = omega arith in
    rw e (to_number_lem v h))

read_layout_ok :
    (b : ℕ) (ws : Words) (l : Layout)
    → u32_pair (word ws (b + 0)) (word ws (b + 1)) ≡ l.desc
    → u32_pair (word ws (b + 2)) (word ws (b + 3)) ≡ l.avail
    → u32_pair (word ws (b + 4)) (word ws (b + 5)) ≡ l.used
    → word ws (b + 6) ≡ l.num
    → (read_layout b ws).0 ≡ ok (some l)
unfolding read_layout
read_layout_ok b ws l d a u n = rw d (rw a (rw u (rw n refl)))

-- A layout whose offsets are Numbers, and whose size is below the sign.
pub record LayoutFits (l : Layout) : Type 0 where
  pub desc_fits : l.desc < 2 ^ 53
  pub avail_fits : l.avail < 2 ^ 53
  pub used_fits : l.used < 2 ^ 53
  pub num_fits : l.num < 2 ^ 31

module _ (dev q : ℕ) (l : Layout) (ws : Words) (h : HasSlot dev q) (t : IsTable ws)
    (f : LayoutFits l) where
  abbrev stored : Words
  stored = after_set dev q l.desc l.avail l.used l.num ws h

  word-stored :
      (k : ℕ)
      → k < 9
      → word stored (base_of dev q + k) ≡ word (slot_of l.desc l.avail l.used l.num) k % 2 ^ 32
  word-stored k = word-after_set dev q l.desc l.avail l.used l.num ws h k t

  stored_valid : word stored (base_of dev q + 8) ≡ 1
  stored_valid = word-stored 8 (omega arith) ∙ unfold word in refl

  stored_pair :
      (k v : ℕ)
      → suc k < 9
      → v < 2 ^ 53
      → word (slot_of l.desc l.avail l.used l.num) k ≡ to_number v % 2 ^ 32
      → word (slot_of l.desc l.avail l.used l.num) (suc k) ≡ to_number v / 2 ^ 32
      → u32_pair (word stored (base_of dev q + k)) (word stored (base_of dev q + suc k)) ≡ v
  stored_pair k v hk hv lo hi =
      ap₂ u32_pair (word-stored k (omega arith) ∙ ap (λ (x : ℕ). x % 2 ^ 32) lo)
        (word-stored (suc k) hk ∙ ap (λ (x : ℕ). x % 2 ^ 32) hi)
      ∙ u32_pair-halves v hv

  stored_num : word stored (base_of dev q + 6) ≡ l.num
  stored_num =
      word-stored 6 (omega arith)
      ∙ unfold word in
        rw (to_number_lem l.num (omega (arith, f.num_fits))) (omega (arith, f.num_fits))

  stored_layout : (read_layout (base_of dev q) stored).0 ≡ ok (some l)
  unfolding word
  stored_layout =
      read_layout_ok (base_of dev q) stored l
        (stored_pair 0 l.desc (omega arith) f.desc_fits refl refl)
        (stored_pair 2 l.avail (omega arith) f.avail_fits refl refl)
        (stored_pair 4 l.used (omega arith) f.used_fits refl refl) stored_num

-- A layout that is set for a queue with a slot, its offsets below 2 ^ 53 and its size below 2 ^ 31, is
-- what any worker gets, with the cursor at 0.
pub get-set :
    (dev q : ℕ) (l : Layout) (ws : Words)
    → HasSlot dev q
    → IsTable ws
    → LayoutFits l
    → (((do set dev q l.desc l.avail l.used l.num; get dev q) ws).0 ≡ ok (some l))
      × (((do set dev q l.desc l.avail l.used l.num; load_last_avail dev q) ws).0 ≡ ok 0)
get-set dev q l ws h t f = (layout, cursor)
  where
    ws' : Words
    ws' = after_set dev q l.desc l.avail l.used l.num ws h

    layout : ((do set dev q l.desc l.avail l.used l.num; get dev q) ws).0 ≡ ok (some l)
    layout = rw (set_ok dev q l.desc l.avail l.used l.num ws h) (
        rw (get_ok dev q (after_set dev q l.desc l.avail l.used l.num ws h) h)
          (rw (stored_valid dev q l ws h t f) (stored_layout dev q l ws h t f)))

    cursor : ((do set dev q l.desc l.avail l.used l.num; load_last_avail dev q) ws).0 ≡ ok 0
    cursor = rw (set_ok dev q l.desc l.avail l.used l.num ws h) (
        rw (load_last_avail_ok dev q (after_set dev q l.desc l.avail l.used l.num ws h) h)
          (rw (word-stored dev q l ws h t f 7 (omega arith)) (unfold word in refl)))

-- Two slots that are not the same one do not meet.
pub base_of_apart :
    (dev q dev' q' k : ℕ)
    → HasSlot dev q
    → HasSlot dev' q'
    → (dev ≢ dev') ⊎ (q ≢ q')
    → k < 9
    → (base_of dev' q' + k < base_of dev q) ⊎ (base_of dev q + 9 ≤ base_of dev' q' + k)
base_of_apart dev q dev' q' k h h' (inl ne) hk = ground (arith, h.q_lt, h'.q_lt)
base_of_apart dev q dev' q' k h h' (inr ne) hk = ground (arith, h.q_lt, h'.q_lt)

-- What `set` stores for one queue, the others do not see: their layouts and cursors, and the window
-- sizes, are as they were.
pub get-set_apart :
    (dev q dev' q' desc avail used num : ℕ) (ws : Words)
    → HasSlot dev q
    → HasSlot dev' q'
    → IsTable ws
    → (dev ≢ dev') ⊎ (q ≢ q')
    → let ws' = (set dev q desc avail used num ws).1 in
      ((get dev' q' ws').0 ≡ (get dev' q' ws).0)
      × ((load_last_avail dev' q' ws').0 ≡ (load_last_avail dev' q' ws).0)
      × ((d : ℕ) → (get_config_size d ws').0 ≡ (get_config_size d ws).0)
get-set_apart dev q dev' q' desc avail used num ws h h' t apart =
    rw (set_ok dev q desc avail used num ws h) (
      get-SameLayout dev' q' ws ws' h' (λ k hk ne. same k hk),
      rw (load_last_avail_ok dev' q' ws h')
          (rw (load_last_avail_ok dev' q' ws' h') (rw (same 7 (omega arith)) refl)),
      λ d. elim (Bool-cases (leb max_devs d)) [
        | inl past ↦ unfold get_config_size in rw past refl
        | inr inside ↦
            let e : word ws' (config_base + d) ≡ word ws (config_base + d) =
              word-after_set_apart dev q desc avail used num ws h (config_base + d) t
                (inr (omega (arith, h.dev_lt, h.q_lt))) in
            unfold get_config_size in rw inside (rw e refl)
      ],
    )
  where
    ws' : Words
    ws' = after_set dev q desc avail used num ws h

    same : SameSlot dev' q' ws ws'
    same k hk =
        word-after_set_apart dev q desc avail used num ws h (base_of dev' q' + k) t
          (base_of_apart dev q dev' q' k h h' apart hk)
