-- ===== src/Virtio/Vsock/Heap.antt =====
-- The parts of the state of runtime/virtio/vsock-device.ts that a step leaves alone, and the pieces that
-- wait in a connection as one stream.
use nix_wasm.Prelude.{ℕ, zero, suc, ◌≤◌, ◌<◌, List, [], ◌∷◌, ◌++◌, ◌≡◌, refl, sym, ap, ◌∙◌}
use nix_wasm.Prelude.{
  Bool, true, false, ◌≢◌, ◌⊎◌, Option, none, some, leb, Bool-cases, inl, inr, length, take, drop,
  get_elem?, arith, append_assoc, drop-all, length-drop,
}
use mathlib.Core.Option.{some-injective}
use nix_wasm.Virtio.Machine.{and_then, Queue, Result, ok, fault}
use nix_wasm.Virtio.Vring.{Layout}
use nix_wasm.Virtio.Vring.Delivery.{flat}
use nix_wasm.Virtio.Vsock.{Op, Vsock}
use nix_wasm.Virtio.Vsock.Send.{update, offer, raise_if, push_to, push_rx, sent_from, weight}

-- The objects, the map, the listeners and the log are as they were.
pub record Quiet (s s' : Vsock) : Type 0 where
  pub heap_same : s'.heap ≡ s.heap
  pub conns_same : s'.conns ≡ s.conns
  pub listeners_same : s'.listeners ≡ s.listeners
  pub events_same : s'.events ≡ s.events
  pub guest_same : s'.guest_cid ≡ s.guest_cid

pub Quiet-refl : (s : Vsock) → Quiet s s
Quiet-refl s = record {
  heap_same = refl;
  conns_same = refl;
  listeners_same = refl;
  events_same = refl;
  guest_same = refl;
}

push_to-Quiet : (vr : Option Layout) (pkt : List ℕ) (s : Vsock) → Quiet s (push_to vr pkt s).1
push_to-Quiet none pkt s = Quiet-refl s
push_to-Quiet (some l) pkt s =
    raised (offer l pkt (record { memory = s.memory; last_avail = s.rx_avail }))
  where
    raised :
        (r : Result Bool × Queue)
        → Quiet s
            (and_then (r.0, record s { memory = r.1.memory; rx_avail = r.1.last_avail }) raise_if).1
    raised (ok true, q) = record {
      heap_same = refl;
      conns_same = refl;
      listeners_same = refl;
      events_same = refl;
      guest_same = refl;
    }
    raised (ok false, q) = record {
      heap_same = refl;
      conns_same = refl;
      listeners_same = refl;
      events_same = refl;
      guest_same = refl;
    }
    raised (fault e, q) = record {
      heap_same = refl;
      conns_same = refl;
      listeners_same = refl;
      events_same = refl;
      guest_same = refl;
    }

-- A packet that is offered to the guest changes nothing of the connections.
pub push_rx-Quiet :
    (vr : Option Layout) (src dst : ℕ) (op : Op) (payload : List ℕ) (flags fwd : ℕ) (s : Vsock)
    → Quiet s (push_rx vr src dst op payload flags fwd s).1
unfolding push_rx
push_rx-Quiet vr src dst op payload flags fwd s = push_to-Quiet vr _ s

module _ {A : Type 0} where
  pub get_elem?-update :
      (xs : List A) (i : ℕ) (f : A → A) (x : A)
      → get_elem? xs i ≡ some x
      → get_elem? (update xs i f) i ≡ some (f x)
  get_elem?-update [] i f x h = cc h
  get_elem?-update (y ∷ xs) zero f x h = cc h
  get_elem?-update (y ∷ xs) (suc i) f x h = get_elem?-update xs i f x h

  pub get_elem?-update_other :
      (xs : List A) (i j : ℕ) (f : A → A) → i ≢ j → get_elem? (update xs i f) j ≡ get_elem? xs j
  get_elem?-update_other [] i j f h = refl
  get_elem?-update_other (x ∷ xs) zero zero f h = absurd (h refl)
  get_elem?-update_other (x ∷ xs) zero (suc j) f h = refl
  get_elem?-update_other (x ∷ xs) (suc i) zero f h = refl
  get_elem?-update_other (x ∷ xs) (suc i) (suc j) f h =
      get_elem?-update_other xs i j f (λ e. h (ap suc e))

  pub get_elem?-append :
      (xs ys : List A) (i : ℕ) (x : A) → get_elem? xs i ≡ some x → get_elem? (xs ++ ys) i ≡ some x
  get_elem?-append [] ys i x h = cc h
  get_elem?-append (z ∷ xs) ys zero x h = h
  get_elem?-append (z ∷ xs) ys (suc i) x h = get_elem?-append xs ys i x h

  -- An element behind the others.
  pub get_elem?-last : (xs : List A) (x : A) → get_elem? (xs ++ (x ∷ [])) (length xs) ≡ some x
  get_elem?-last [] x = refl
  get_elem?-last (y ∷ xs) x = get_elem?-last xs x

  pub get_elem?-append_inv :
      (xs : List A) (x y : A) (i : ℕ)
      → get_elem? (xs ++ (x ∷ [])) i ≡ some y
      → (get_elem? xs i ≡ some y) ⊎ (x ≡ y)
  get_elem?-append_inv [] x y zero h = inr (some-injective _ _ h)
  get_elem?-append_inv [] x y (suc i) h = cc h
  get_elem?-append_inv (z ∷ xs) x y zero h = inl h
  get_elem?-append_inv (z ∷ xs) x y (suc i) h = get_elem?-append_inv xs x y i h

  -- What a change of an element left at an index.
  pub get_elem?-update_inv :
      (xs : List A) (i : ℕ) (f : A → A) (x : A)
      → get_elem? (update xs i f) i ≡ some x
      → (y : A) × (get_elem? xs i ≡ some y) × (f y ≡ x)
  get_elem?-update_inv [] i f x h = cc h
  get_elem?-update_inv (y ∷ xs) zero f x h = (y, refl, some-injective _ _ h)
  get_elem?-update_inv (y ∷ xs) (suc i) f x h = get_elem?-update_inv xs i f x h

drop-append_le : (n : ℕ) (xs ys : List ℕ) → n ≤ length xs → drop n (xs ++ ys) ≡ drop n xs ++ ys
drop-append_le zero xs ys h = refl
drop-append_le (suc n) [] ys h = absurd (omega arith)
drop-append_le (suc n) (x ∷ xs) ys h = drop-append_le n xs ys (omega arith)

pub take-append_le : (n : ℕ) (xs ys : List ℕ) → n ≤ length xs → take n (xs ++ ys) ≡ take n xs
take-append_le zero xs ys h = refl
take-append_le (suc n) [] ys h = absurd (omega arith)
take-append_le (suc n) (x ∷ xs) ys h = ap (λ zs. x ∷ zs) (take-append_le n xs ys (omega arith))

pub flat-sent_from :
    (n : ℕ) (head : List ℕ) (rest : List (List ℕ))
    → n ≤ length head
    → flat (sent_from n head rest) ≡ drop n (head ++ flat rest)
flat-sent_from n head rest h = elim (Bool-cases (leb (length head) n)) [
  | inl e ↦ rw (e, drop-append_le n head (flat rest) h, drop-all n head (ground arith)) refl
  | inr e ↦ rw (e, drop-append_le n head (flat rest) h) refl
]

pub flat-append : (xs ys : List (List ℕ)) → flat (xs ++ ys) ≡ flat xs ++ flat ys
flat-append [] ys = refl
flat-append (x ∷ xs) ys =
    ap (λ zs. x ++ zs) (flat-append xs ys) ∙ sym (append_assoc x (flat xs) (flat ys))

-- A round that sends a byte, or the last of an empty piece, leaves less to do.
pub weight-sent_from :
    (n : ℕ) (head : List ℕ) (rest : List (List ℕ))
    → ((0 < length head) → 0 < n)
    → weight (sent_from n head rest) < weight (head ∷ rest)
weight-sent_from n head rest h = elim (Bool-cases (leb (length head) n)) [
  | inl e ↦ rw e (omega arith)
  | inr e ↦
      let long : n < length head = ground arith in
      let some_sent = h (omega (arith, long)) in
      rw (e, length-drop n head) (omega (arith, some_sent, long))
]
