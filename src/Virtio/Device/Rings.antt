-- ===== src/Virtio/Device/Rings.antt =====
-- The queues of a device: what is set up is what any worker's device of that number finds, until the
-- device is reset.
use nix_wasm.Prelude.{
  ℕ, zero, suc, ◌+◌, ◌%◌, ◌^◌, ◌≤◌, ◌<◌, ◌≡◌, ◌≢◌, ◌⊎◌, inl, inr, refl, ap, ap₂, ◌∙◌, arith,
  Bool-cases, ◌==◌, none, some,
}
use nix_wasm.Virtio.Machine.{M, Queue, ok, ◌>>◌}
use nix_wasm.Virtio.Vring.{Layout}
use nix_wasm.Virtio.Shared.{
  read_layout, word, base_of, load_last_avail, set, Words, get, max_devs, max_qs,
}
use nix_wasm.Virtio.Shared.Slots.{
  LayoutFits, get-set, get_ok, load_last_avail_ok, set_ok, after_set, IsTable, HasSlot,
}
use nix_wasm.Virtio.Shared.Cursor.{
  cleared, clear_ok, length-cleared, get-cleared, get-cleared_apart,
}
use nix_wasm.Virtio.Device.{Device, Host, clear_queues, reset, setup_queue, with_ring, on_ring}

-- The table after the first `n` queues of a device are cleared.
record Cleared (dev n : ℕ) (before after : Words) : Type 0 where
  is_table : IsTable after
  gone : (q : ℕ) → q < n → (get dev q after).0 ≡ ok none
  others :
      (dev' q' : ℕ)
      → HasSlot dev' q'
      → (dev ≢ dev') ⊎ (n ≤ q')
      → (get dev' q' after).0 ≡ (get dev' q' before).0

clear_queues-Cleared :
    (dev n : ℕ) (ws : Words)
    → dev < max_devs
    → n ≤ max_qs
    → IsTable ws
    → (after : Words) × (clear_queues dev n ws ≡ (ok tt, after)) × Cleared dev n ws after
unfolding clear_queues
clear_queues-Cleared dev zero ws h hn t = (
  ws,
  refl,
  record { is_table = t; gone = λ q lt. absurd (omega arith); others = λ dev' q' s apart. refl },
)
clear_queues-Cleared dev (suc n) ws h hn t =
    let (ws', ran, c) = clear_queues-Cleared dev n ws h (omega arith) t in
    let slot : HasSlot dev n = record { dev_lt = h; q_lt = omega arith } in
    (
      cleared dev n ws' slot c.is_table,
      rw ran (clear_ok dev n ws' slot c.is_table),
      record {
        is_table = length-cleared dev n ws' slot c.is_table ∙ c.is_table;
        gone = λ q lt. elim (Bool-cases (q == n)) [
          | inl same ↦
              let e : q ≡ n = ground (arith, same) in
              rw e (ap (λ r. r.0) (get-cleared dev n ws' slot c.is_table))
          | inr other ↦
              let slot_q : HasSlot dev q = record { dev_lt = h; q_lt = omega arith } in
              get-cleared_apart dev n ws' slot c.is_table dev q slot_q (inr (ground (arith, other)))
              ∙ c.gone q (ground (arith, other))
        ];
        others = λ dev' q' s apart.
            get-cleared_apart dev n ws' slot c.is_table dev' q' s (ground (arith, apart))
            ∙ c.others dev' q' s (ground (arith, apart));
      },
    )

-- Of a device of the table that is reset no queue is set up, and the layouts of all other devices'
-- queues with a slot, the memory and the interrupts stay.
pub get-reset :
    (d : Device) (s : Host)
    → d.dev < max_devs
    → IsTable s.words
    → let s' = (reset d s).1 in
      ((q : ℕ) → q < max_qs → (get d.dev q s'.words).0 ≡ ok none)
      × ((dev q : ℕ) → HasSlot dev q → d.dev ≢ dev → (get dev q s'.words).0 ≡ (get dev q s.words).0)
      × (s'.memory ≡ s.memory)
      × (s'.raised ≡ s.raised)
unfolding reset
get-reset d s h t =
    let (after, ran, c) = clear_queues-Cleared d.dev 4 s.words h (omega arith) t in
    rw ran (c.gone, λ dev q slot ne. c.others dev q slot (inl ne), refl, refl)

-- The words are read, not changed.
words-get : (dev q : ℕ) (ws : Words) → HasSlot dev q → (get dev q ws).1 ≡ ws
words-get dev q ws h =
    rw (get_ok dev q ws h) (elim (Bool-cases (word ws (base_of dev q + 8) == 1)) [
      | inl valid ↦ rw valid (unfold read_layout in refl)
      | inr e ↦ rw e refl
    ])

-- A queue with a slot that one device sets up, its offsets below 2 ^ 53 and its size below 2 ^ 31, is
-- what a device of the same number steps on, with the memory as it is and the cursor at 0.
pub with_ring-setup_queue :
    {A : Type 0} (d e : Device) (q : ℕ) (l : Layout) (step : Layout → M Queue A) (a : A)
    (q' : Queue) (s : Host)
    → d.dev ≡ e.dev
    → HasSlot d.dev q
    → IsTable s.words
    → LayoutFits l
    → step l (record { memory = s.memory; last_avail = 0 }) ≡ (ok a, q')
    → ((do setup_queue d q l.desc l.avail l.used l.num; with_ring e q step) s).0 ≡ ok (some a)
unfolding setup_queue with_ring on_ring
with_ring-setup_queue d e q l step a q' s same slot t fits ran =
    rw (← same) (rw small (rw done (rw got (rw (← same) (rw small (rw loaded (rw ran refl)))))))
  where
    ws : Words
    ws = after_set d.dev q l.desc l.avail l.used l.num s.words slot

    small : q % 2 ^ 32 ≡ q
    small = omega (arith, slot.q_lt)

    done :
        set d.dev q l.desc l.avail l.used l.num s.words
        ≡ (ok tt, after_set d.dev q l.desc l.avail l.used l.num s.words slot)
    done = set_ok d.dev q l.desc l.avail l.used l.num s.words slot

    got : get d.dev q ws ≡ (ok (some l), ws)
    got =
        ap₂ (λ x y. (x, y)) (rw done at (get-set d.dev q l s.words slot t fits).0)
          (words-get d.dev q ws slot)

    loaded : load_last_avail d.dev q ws ≡ (ok 0, ws)
    loaded =
        ap₂ (λ x y. (x, y)) (rw done at (get-set d.dev q l s.words slot t fits).1)
          (ap (λ r. r.1) (load_last_avail_ok d.dev q ws slot))
