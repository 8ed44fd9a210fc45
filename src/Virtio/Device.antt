-- ===== src/Virtio/Device.antt =====
-- runtime/virtio/device.ts: the base class of the devices, over the table that the workers share. The
-- state is the linear memory, the table and the interrupts that were raised, in order.
pub mod Rings
use nix_wasm.Prelude.{ℕ, zero, suc, ◌+◌, ◌%◌, ◌^◌, List, [], ◌∷◌, ◌++◌}
use nix_wasm.Prelude.{Option, none, some, ltb, if◌then◌else◌, replicate, map}
use nix_wasm.Virtio.Machine.{M, Queue, Result, ok, ◌>>=◌, ◌>>◌, pure, and_then}
use nix_wasm.Virtio.Vring.{Layout}
use nix_wasm.Virtio.Shared.{Words, set, get, clear, load_last_avail, store_last_avail}

pub record Device : Type 0 where
  pub dev : ℕ
  pub irq : ℕ
  pub irq_cpu : ℕ

pub record Host : Type 0 where
  pub memory : List ℕ
  pub words : Words
  -- The CPU and the interrupt of each.
  pub raised : List (ℕ × ℕ)

-- `Math.min(...cpus)` of a list that is not empty.
pub lowest : ℕ → List ℕ → ℕ
lowest c [] = c
lowest c (d ∷ cpus) = lowest (if ltb d c then d else c) cpus

-- 0 where no CPU is named.
unfoldable pub irq_cpu_of : Option (List ℕ) → ℕ
unfolding lowest
irq_cpu_of none = 0
irq_cpu_of (some []) = 0
irq_cpu_of (some (c ∷ cpus)) = lowest c cpus

unfoldable pub new_device : ℕ → ℕ → Option (List ℕ) → Device
unfolding irq_cpu_of
new_device dev irq cpus = record { dev = dev % 2 ^ 32; irq = irq; irq_cpu = irq_cpu_of cpus }

abbrev pub on_words {ℓ} : {A : Type ℓ} → M Words A → M Host A
on_words m s = let r = m s.words in (r.0, record s { words = r.1 })

unfoldable pub setup_queue : Device → ℕ → ℕ → ℕ → ℕ → ℕ → M Host (Unit {0})
setup_queue d q desc avail used num = on_words (set d.dev (q % 2 ^ 32) desc avail used num)

-- The cursor of a Vring is in the table: it is loaded for a step on the ring, and stored after it.
abbrev pub moved {ℓ} : {A : Type ℓ} → Device → ℕ → Result A × Queue → Host → Result A × Host
moved d q r s = (
  r.0,
  record s {
    memory = r.1.memory;
    words = (store_last_avail d.dev (q % 2 ^ 32) r.1.last_avail s.words).1;
  },
)

unfoldable pub on_ring {ℓ} : {A : Type ℓ} → Device → ℕ → M Queue A → M Host A
on_ring d q m s =
    and_then (on_words (load_last_avail d.dev (q % 2 ^ 32)) s)
      (λ last s'. moved d q (m (record { memory = s'.memory; last_avail = last })) s')

-- `vring`, and a step on it: nothing for a queue that is not set up.
unfoldable pub with_ring : {A : Type 0} → Device → ℕ → (Layout → M Queue A) → M Host (Option A)
unfolding on_ring
with_ring d q step = do
  layout ← on_words (get d.dev (q % 2 ^ 32))
  elim layout [ none ↦ pure none | some l ↦ do a ← on_ring d q (step l); pure (some a) ]

unfoldable pub raise_irq : Device → M Host (Unit {0})
raise_irq d s = (ok tt, record s { raised = s.raised ++ ((d.irq_cpu, d.irq) ∷ []) })

-- The configuration of a device that has none: zeros.
pub config_read : ℕ → List ℕ
config_read n = replicate n 0

-- `for (let q = 0; q < n; q++) this.shared.clear(this.dev, q)`
unfoldable pub clear_queues : ℕ → ℕ → M Words (Unit {0})
clear_queues dev zero = pure tt
clear_queues dev (suc n) = do clear_queues dev n; clear dev n

unfoldable pub reset : Device → M Host (Unit {0})
unfolding clear_queues
reset d = on_words (clear_queues d.dev 4)
