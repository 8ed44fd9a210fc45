-- ===== src/Virtio/Console/Size.antt =====
-- The size of a console: what the guest reads after the host has set one.
use nix_wasm.Prelude.{ℕ, ◌%◌, ◌^◌, ◌<◌, ◌++◌, ◌≡◌, refl, ap, arith}
use nix_wasm.Prelude.{leb_of_lt, Option, none, some}
use nix_wasm.Prelude.Bytes.{le_bytes}
use nix_wasm.Virtio.Machine.{Result, ok, fault, and_then}
use nix_wasm.Virtio.Shared.{Words, set_config_size, max_devs}
use nix_wasm.Virtio.Shared.Slots.{IsTable}
use nix_wasm.Virtio.Shared.Cursor.{get-set_config_size}
use nix_wasm.Virtio.Console.{Console, Ports, config_read, set_size, slice_config, config_of, tell}

-- A size that is not zero on either side, as the guest reads it.
slice-config_of :
    (cols rows : ℕ)
    → 0 < cols
    → 0 < rows
    → slice_config (config_of (cols, rows)) 0 4 ≡ le_bytes 2 cols ++ le_bytes 2 rows
unfolding slice_config
slice-config_of cols rows c r = ground arith

module _ (p : Ports) (cols rows : ℕ) (s : Console) (h : p.dev < max_devs)
    (t : IsTable s.words) where
  stored : Result (Unit {0}) × Words
  stored = set_config_size p.dev (cols % 2 ^ 32) (rows % 2 ^ 32) s.words

  stored_ok : stored.0 ≡ ok tt
  unfolding stored set_config_size
  stored_ok = rw (leb_of_lt max_devs p.dev h) refl

  words-set_size : (set_size p cols rows s).1.words ≡ stored.1
  unfolding set_size stored
  words-set_size = told stored stored_ok p.config_irq
    where
      told :
          (r : Result (Unit {0}) × Words)
          → r.0 ≡ ok tt
          → (irq : Option ℕ)
          → (and_then (r.0, record s { words = r.1 }) (λ u. tell irq)).1.words ≡ r.1
      told (ok u, ws) e none = refl
      told (ok u, ws) e (some i) = refl
      told (fault x, ws) e irq = refl

-- For a device in the table and a size from 1 to 2 ^ 16 - 1 on both sides: after `setSize` the guest
-- reads it from the first four bytes of the configuration.
pub config_read-set_size :
    (p : Ports) (cols rows : ℕ) (s : Console)
    → p.dev < max_devs
    → IsTable s.words
    → 0 < cols
    → cols < 2 ^ 16
    → 0 < rows
    → rows < 2 ^ 16
    → (config_read p 0 4 (set_size p cols rows s).1).0 ≡ ok (le_bytes 2 cols ++ le_bytes 2 rows)
unfolding config_read
config_read-set_size p cols rows s h t c0 c1 r0 r1 =
    let got = (get-set_config_size p.dev (cols % 2 ^ 32) (rows % 2 ^ 32) s.words h t).0 in
    let c : cols % 2 ^ 32 % 2 ^ 16 ≡ cols = omega arith in
    let r : rows % 2 ^ 32 % 2 ^ 16 ≡ rows = omega arith in
    rw (words-set_size p cols rows s h t)
      (unfold stored in rw got (rw c (rw r (ap ok (slice-config_of cols rows c0 r0)))))
