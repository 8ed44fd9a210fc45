-- ===== src/Virtio/Shared/Cursor.antt =====
-- The other operations on the shared table: the cursor of a queue, its reset, and the window sizes.
use nix_wasm.Prelude.{
  ℕ, ◌+◌, ◌*◌, ◌/◌, ◌%◌, ◌^◌, ◌<◌, [], ◌∷◌, ◌≡◌, ◌≢◌, ◌⊎◌, inl, inr, refl, ap, ◌∙◌, arith,
}
use nix_wasm.Prelude.{leb, leb_of_lt, Bool-cases, ◌==◌, ◌||◌, if◌then◌else◌, length, none}
use nix_wasm.Virtio.Machine.{ok, ◌>>◌}
use nix_wasm.Virtio.Shared.{
  Words, word, store_from, base_of, max_devs, config_base, get, clear, load_last_avail,
  store_last_avail, set_config_size, get_config_size,
}
use nix_wasm.Virtio.Shared.Words.{word-overwrite, length-store_from}
use nix_wasm.Virtio.Shared.Slots.{
  IsTable, HasSlot, slot_base_ok, get_ok, load_last_avail_ok, get-SameLayout, base_of_apart,
}

-- One word that is stored, and the others.
word-store_one :
    (i v j : ℕ) (ws : Words)
    → i < length ws
    → word (store_from i (v ∷ []) ws) j ≡ (if i == j then v % 2 ^ 32 else word ws j)
unfolding store_from
word-store_one i v j ws h = word-overwrite ws i (v % 2 ^ 32) j h

module _ (dev q : ℕ) (ws : Words) (h : HasSlot dev q) (t : IsTable ws) where
  in_table : (k : ℕ) → k < 9 → base_of dev q + k < length ws
  in_table k hk = omega (arith, t, h.dev_lt, h.q_lt)

  abbrev moved : ℕ → Words
  moved v = store_from (base_of dev q + 7) (v % 2 ^ 16 ∷ []) ws

  store_ok : (v : ℕ) → store_last_avail dev q v ws ≡ (ok tt, moved v)
  unfolding store_last_avail
  store_ok v = rw (slot_base_ok dev q ws h) refl

  abbrev pub invalid : Words
  invalid = store_from (base_of dev q + 8) (0 ∷ []) ws

  abbrev pub cleared : Words
  cleared = store_from (base_of dev q + 7) (0 ∷ []) invalid

  pub clear_ok : clear dev q ws ≡ (ok tt, cleared)
  unfolding clear
  clear_ok = rw (slot_base_ok dev q ws h) refl

  word-cleared :
      (j : ℕ)
      → word cleared j
        ≡ (if (base_of dev q + 7 == j) || (base_of dev q + 8 == j) then 0 else word ws j)
  word-cleared j = ground (
    arith,
    word-store_one (base_of dev q + 7) 0 j invalid
        (rw (length-store_from (base_of dev q + 8) (0 ∷ []) ws) (in_table 7 (omega arith))),
    word-store_one (base_of dev q + 8) 0 j ws (in_table 8 (omega arith)),
  )

  pub length-cleared : length cleared ≡ length ws
  length-cleared =
      length-store_from (base_of dev q + 7) (0 ∷ []) invalid
      ∙ length-store_from (base_of dev q + 8) (0 ∷ []) ws

  pub get-cleared : get dev q cleared ≡ (ok none, cleared)
  get-cleared =
      let e : word cleared (base_of dev q + 8) ≡ 0 =
        ground (arith, word-cleared (base_of dev q + 8)) in
      rw (get_ok dev q cleared h) (rw e refl)

  pub get-cleared_apart :
      (dev' q' : ℕ)
      → HasSlot dev' q'
      → (dev ≢ dev') ⊎ (q ≢ q')
      → (get dev' q' cleared).0 ≡ (get dev' q' ws).0
  get-cleared_apart dev' q' h' apart = get-SameLayout dev' q' ws cleared h' (λ k hk ne.
      ground
        (arith, word-cleared (base_of dev' q' + k), base_of_apart dev q dev' q' k h h' apart hk))

-- The cursor that one worker stores for a queue with a slot is the one that another loads, modulo
-- 2 ^ 16, and the layout of the queue stays.
pub load-store_last_avail :
    (dev q v : ℕ) (ws : Words)
    → HasSlot dev q
    → IsTable ws
    → (((do store_last_avail dev q v; load_last_avail dev q) ws).0 ≡ ok (v % 2 ^ 16))
      × (((do store_last_avail dev q v; get dev q) ws).0 ≡ (get dev q ws).0)
load-store_last_avail dev q v ws h t = rw (store_ok dev q ws h t v) (
  rw (load_last_avail_ok dev q (moved dev q ws h t v) h) (
      ap ok (
        ground (
          arith,
          word-store_one (base_of dev q + 7) (v % 2 ^ 16) (base_of dev q + 7) ws
              (in_table dev q ws h t 7 (omega arith)),
        ))),
  get-SameLayout dev q ws (moved dev q ws h t v) h (λ k hk ne. ground (
    arith,
    ne,
    word-store_one (base_of dev q + 7) (v % 2 ^ 16) (base_of dev q + k) ws
        (in_table dev q ws h t 7 (omega arith)),
  )),
)

module _ (dev cols rows : ℕ) (ws : Words) (hd : dev < max_devs) (t : IsTable ws) where
  abbrev packed : ℕ
  packed = rows % 2 ^ 16 * 2 ^ 16 + cols % 2 ^ 16

  abbrev sized : Words
  sized = store_from (config_base + dev) (packed ∷ []) ws

  sized_ok : set_config_size dev cols rows ws ≡ (ok tt, sized)
  unfolding set_config_size
  sized_ok = rw (leb_of_lt max_devs dev hd) refl

  word-sized : (j : ℕ) → word sized j ≡ (if (config_base + dev) == j then packed else word ws j)
  word-sized j =
      let small : packed % 2 ^ 32 ≡ packed = omega arith in
      word-store_one (config_base + dev) packed j ws (omega (arith, t)) ∙ rw small refl

  size-sized : (get_config_size dev sized).0 ≡ ok (cols % 2 ^ 16, rows % 2 ^ 16)
  unfolding get_config_size
  size-sized =
      let e : word sized (config_base + dev) ≡ packed =
        ground (arith, word-sized (config_base + dev)) in
      let c : packed % 2 ^ 16 ≡ cols % 2 ^ 16 = omega arith in
      let r : packed / 2 ^ 16 % 2 ^ 16 ≡ rows % 2 ^ 16 = omega arith in
      rw (leb_of_lt max_devs dev hd) (rw e (rw c (rw r refl)))

  size-sized_apart : (d : ℕ) → d ≢ dev → (get_config_size d sized).0 ≡ (get_config_size d ws).0
  size-sized_apart d ne = elim (Bool-cases (leb max_devs d)) [
    | inl past ↦ unfold get_config_size in rw past refl
    | inr inside ↦
        let e : word sized (config_base + d) ≡ word ws (config_base + d) =
          ground (arith, word-sized (config_base + d)) in
        unfold get_config_size in rw inside (rw e refl)
  ]

  get-sized : (d q : ℕ) → HasSlot d q → (get d q sized).0 ≡ (get d q ws).0
  get-sized d q h =
      get-SameLayout d q ws sized h
        (λ k hk ne. ground (arith, word-sized (base_of d q + k), h.dev_lt, h.q_lt))

  load-sized : (d q : ℕ) → HasSlot d q → (load_last_avail d q sized).0 ≡ (load_last_avail d q ws).0
  load-sized d q h = rw (load_last_avail_ok d q sized h) (
      rw (load_last_avail_ok d q ws h)
        (ground (arith, word-sized (base_of d q + 7), h.dev_lt, h.q_lt)))

-- The window size of a device in the table comes back, each side modulo 2 ^ 16; no queue's layout or cursor
-- and no other device's size is changed.
pub get-set_config_size :
    (dev cols rows : ℕ) (ws : Words)
    → dev < max_devs
    → IsTable ws
    → let ws' = (set_config_size dev cols rows ws).1 in
      ((get_config_size dev ws').0 ≡ ok (cols % 2 ^ 16, rows % 2 ^ 16))
      × ((d : ℕ) → d ≢ dev → (get_config_size d ws').0 ≡ (get_config_size d ws).0)
      × ((d q : ℕ) → HasSlot d q → (get d q ws').0 ≡ (get d q ws).0)
      × ((d q : ℕ) → HasSlot d q → (load_last_avail d q ws').0 ≡ (load_last_avail d q ws).0)
get-set_config_size dev cols rows ws hd t = rw (sized_ok dev cols rows ws hd t) (
  size-sized dev cols rows ws hd t,
  size-sized_apart dev cols rows ws hd t,
  get-sized dev cols rows ws hd t,
  load-sized dev cols rows ws hd t,
)
