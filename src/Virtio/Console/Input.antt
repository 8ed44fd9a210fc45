-- ===== src/Virtio/Console/Input.antt =====
-- The input of a console is a stream of bytes: what the loop of `flushRx` does with those that wait.
use nix_wasm.Prelude.{ℕ, zero, suc, ◌+◌, ◌≤◌, List, [], ◌∷◌, ◌++◌, ◌≡◌, refl, sym, ap, ◌∙◌, arith}
use nix_wasm.Prelude.{
  false, Bool-cases, inl, inr, ◌==◌, Option, none, some, length, take, drop, drop-drop, length-drop,
  take-append-drop, take-length_append,
}
use mathlib.Core.Path.{subst}
use nix_wasm.Virtio.Machine.{Fault, and_then, M, Queue, Result, ok, fault, ◌>>=◌, ◌>>◌, pure}
use nix_wasm.Virtio.Vring.{Layout, Chain, next_chain, write_in, in_capacity, push_used}
use nix_wasm.Virtio.Vring.Delivery.{
  Delivered, GivenBack, Deliveries, ended, starved, threw, too_small, delivered, Delivers, is_fault,
  flat, take_add, write_in_all,
}
use nix_wasm.Virtio.Console.{
  set_pending, Console, Ports, on_rx, deliver, rx_round, rx_loop, flush_rx, push_rx, raise_if,
}

-- The console's receive queue.
abbrev pub rx_of : Console → Queue
rx_of s = record { memory = s.memory; last_avail = s.rx_avail }

-- How a step leaves the bytes that wait: the first `gone` were delivered to the guest in pieces, from the
-- queue `start` on, and it counted them.
pub record Advances (vr : Option Layout) (before : List ℕ) (counted : ℕ) (start : Queue)
    (r : Result (Option ℕ) × Console) : Type 0 where
  pub gone : ℕ
  pub gone_le : gone ≤ length before
  pub left : r.1.pending ≡ drop gone before
  pub count : (d : ℕ) → r.0 ≡ ok (some d) → d ≡ counted + gone
  pub pieces : List (List ℕ)
  pub bytes_same : flat pieces ≡ take gone before
  pub delivers : Delivers vr 1 pieces (is_fault r.0) start (rx_of r.1)

-- A step on the receive queue, seen there.
on_rx_inv :
    {A : Type 0} (m : M Queue A) (s s' : Console) (a : A)
    → on_rx m s ≡ (ok a, s')
    → m (rx_of s) ≡ (ok a, rx_of s')
on_rx_inv {A} m s s' a e = ap (λ (r : Result A × Console). (r.0, rx_of r.1)) e

length-take_both :
    (n : ℕ) (bytes : List ℕ) → (length (take n bytes) ≤ length bytes) × (length (take n bytes) ≤ n)
length-take_both zero bytes = (omega arith, omega arith)
length-take_both (suc n) [] = (omega arith, omega arith)
length-take_both (suc n) (b ∷ bytes) =
    let h = length-take_both n bytes in (omega (arith, h), omega (arith, h))

take-length_take : (n : ℕ) (bytes : List ℕ) → take (length (take n bytes)) bytes ≡ take n bytes
take-length_take n bytes =
    ap (take (length (take n bytes))) (sym (take-append-drop n bytes))
    ∙ take-length_append (take n bytes) (drop n bytes)

module _ (l : Layout) where
  -- A throw where nothing is gone yet.
  thrown-Advances :
      (before : List ℕ) (counted : ℕ) (q : Queue) (x : Fault) (s : Console)
      → s.pending ≡ before
      → Advances (some l) before counted q (fault x, s)
  thrown-Advances before counted q x s e = record {
    gone = 0;
    gone_le = omega arith;
    left = e;
    count = λ d h. cc h;
    pieces = [];
    bytes_same = refl;
    delivers = threw q (rx_of s);
  }

  -- A loop that ends, or whose fuel ran out, where nothing is gone yet.
  stop-Advances :
      (before : List ℕ) (counted : ℕ) (q : Queue) (o : Option ℕ) (s : Console)
      → s.pending ≡ before
      → ((d : ℕ) → o ≡ some d → d ≡ counted)
      → Deliveries l 1 [] false q (rx_of s)
      → Advances (some l) before counted q (ok o, s)
  stop-Advances before counted q o s e n d = record {
    gone = 0;
    gone_le = omega arith;
    left = e;
    count = λ d h. n d (ground (arith, h)) ∙ omega arith;
    pieces = [];
    bytes_same = refl;
    delivers = d;
  }

  -- A step that leaves the bytes that wait alone, before others.
  and_then-Advances :
      {A : Type 0} (before : List ℕ) (counted : ℕ) (q : Queue) (f : A → M Console (Option ℕ))
      (r : Result A × Console)
      → r.1.pending ≡ before
      → ((a : A) (s : Console)
          → r ≡ (ok a, s)
          → s.pending ≡ before
          → Advances (some l) before counted q (f a s))
      → Advances (some l) before counted q (and_then r f)
  and_then-Advances before counted q f (ok a, s) e h = h a s refl e
  and_then-Advances before counted q f (fault x, s) e h = thrown-Advances before counted q x s e

  -- The first bytes are delivered, and then those of the rest.
  later-Advances :
      (before : List ℕ) (n counted : ℕ) (q t : Queue) (r : Result (Option ℕ) × Console)
      → n ≤ length before
      → Delivered l (take n before) q t
      → Advances (some l) (drop n before) (counted + n) t r
      → Advances (some l) before counted q r
  later-Advances before n counted q t r h d a = record {
    gone = n + a.gone;
    gone_le = omega (arith, h, a.gone_le, length-drop n before);
    left = a.left ∙ drop-drop a.gone n before;
    count = λ d e. omega (arith, a.count d e);
    pieces = take n before ∷ a.pieces;
    bytes_same = ap (λ xs. take n before ++ xs) a.bytes_same ∙ sym (take_add n a.gone before);
    delivers = delivered (take n before) q t (rx_of r.1) a.pieces (is_fault r.0) d a.delivers;
  }

  -- A chain without room is given back, and then the rest.
  back-Advances :
      (before : List ℕ) (counted : ℕ) (q t : Queue) (r : Result (Option ℕ) × Console)
      → GivenBack l 1 q t
      → Advances (some l) before counted t r
      → Advances (some l) before counted q r
  back-Advances before counted q t r g a = record {
    gone = a.gone;
    gone_le = a.gone_le;
    left = a.left;
    count = a.count;
    pieces = a.pieces;
    bytes_same = a.bytes_same;
    delivers = too_small q t (rx_of r.1) a.pieces (is_fault r.0) g a.delivers;
  }

  -- What `deliver` does before the rest: the bytes that it delivered no longer wait.
  deliver-Advances :
      (c : Chain) (counted : ℕ) (q : Queue) (f : ℕ → M Console (Option ℕ)) (s : Console)
      → next_chain l q ≡ (ok (some c), rx_of s)
      → ((w : ℕ) (s' : Console)
          → w ≤ length s.pending
          → s'.pending ≡ drop w s.pending
          → Delivered l (take w s.pending) q (rx_of s')
          → Advances (some l) s.pending counted q (f w s'))
      → Advances (some l) s.pending counted q ((deliver l c >>= f) s)
  unfolding deliver
  deliver-Advances c counted q f s pops h = wrote (write_in c bytes (rx_of s)) refl
    where
      bytes : List ℕ
      bytes = take (in_capacity c) s.pending

      rest : ℕ → M Console ℕ
      rest w = do on_rx (push_used l c.head w); set_pending (drop w s.pending); pure w

      back : (t : Queue) → Console
      back t = record s { memory = t.memory; rx_avail = t.last_avail }

      gave :
          (t : Queue) (r : Result (Unit {0}) × Queue)
          → write_in c bytes (rx_of s) ≡ (ok (length bytes), t)
          → push_used l c.head (length bytes) t ≡ r
          → Advances (some l) s.pending counted q (
              and_then
                (and_then
                  (r.0, back r.1)
                  (λ u. set_pending (drop (length bytes) s.pending) >> pure (length bytes)))
                f)
      gave t (ok u, t') fills gives =
          h (length bytes) (record (back t') { pending = drop (length bytes) s.pending })
            (length-take_both (in_capacity c) s.pending).0 refl
            (subst (λ (bs : List ℕ). Delivered l bs q t')
              (sym (take-length_take (in_capacity c) s.pending))
              (record {
                chain = c;
                popped = rx_of s;
                filled = t;
                pops = pops;
                room = (length-take_both (in_capacity c) s.pending).1;
                fills = fills;
                gives = gives;
              }))
      gave t (fault x, t') fills gives = thrown-Advances s.pending counted q x (back t') refl

      wrote :
          (r : Result ℕ × Queue)
          → write_in c bytes (rx_of s) ≡ r
          → Advances (some l) s.pending counted q (and_then (and_then (r.0, back r.1) rest) f)
      wrote (ok w, t) e =
          let all : w ≡ length bytes =
            write_in_all c bytes (rx_of s) w (length-take_both (in_capacity c) s.pending).1
              (ap (λ r. r.0) e) in
          subst
            (λ (n : ℕ).
              Advances (some l) s.pending counted q (and_then (and_then (ok n, back t) rest) f))
            (sym all)
            (gave t (push_used l c.head (length bytes) t) (e ∙ ap (λ (n : ℕ). (ok n, t)) all) refl)
      wrote (fault x, t) e = thrown-Advances s.pending counted q x (back t) refl

  rx_round-Advances :
      (counted : ℕ) (rest : ℕ → M Console (Option ℕ)) (q : Queue)
      → ((d : ℕ) (s : Console) → Advances (some l) s.pending d (rx_of s) (rest d s))
      → (chain : Option Chain) (s : Console) → next_chain l q ≡ (ok chain, rx_of s)
      → Advances (some l) s.pending counted q (rx_round l counted rest chain s)
  unfolding rx_round
  rx_round-Advances counted rest q h none s pops =
      stop-Advances s.pending counted q (some counted) s refl (λ d e. ground (arith, e))
        (starved q (rx_of s) pops)
  rx_round-Advances counted rest q h (some c) s pops = elim (Bool-cases (in_capacity c == 0)) [
    | inl full ↦ rw full (
        and_then-Advances s.pending counted q (λ u. rest counted) (on_rx (push_used l c.head 0) s)
          refl
          (λ u s' e e'.
            back-Advances s.pending counted q (rx_of s') (rest counted s')
              (record {
                chain = c;
                popped = rx_of s;
                pops = pops;
                small = ground (arith, full);
                gives = on_rx_inv (push_used l c.head 0) s s' u e;
              })
              (subst (λ t. Advances (some l) t counted (rx_of s') (rest counted s')) e'
                (h counted s'))))
    | inr room ↦ rw room (
        deliver-Advances c counted q (λ w. rest (counted + w)) s pops
          (λ w s' le e' d.
            later-Advances s.pending w counted q (rx_of s') (rest (counted + w) s') le d (
              subst (λ t. Advances (some l) t (counted + w) (rx_of s') (rest (counted + w) s')) e'
                (h (counted + w) s'))))
  ]

  rx_loop-Advances :
      (fuel : ℕ) (counted : ℕ) (s : Console)
      → Advances (some l) s.pending counted (rx_of s) (rx_loop fuel l counted s)
  unfolding rx_loop
  rx_loop-Advances zero counted s =
      stop-Advances s.pending counted (rx_of s) none s refl (λ d e. cc e) (ended (rx_of s))
  rx_loop-Advances (suc fuel) counted s = elim (Bool-cases (length s.pending == 0)) [
    | inl nothing ↦ rw nothing (
        stop-Advances s.pending counted (rx_of s) (some counted) s refl (λ d e. ground (arith, e))
          (ended (rx_of s)))
    | inr some_left ↦ rw some_left (
        and_then-Advances s.pending counted (rx_of s) (rx_round l counted (rx_loop fuel l))
          (on_rx (next_chain l) s) refl
          (λ chain s' e e'.
            subst
              (λ t.
                Advances (some l) t counted (rx_of s)
                  (rx_round l counted (rx_loop fuel l) chain s'))
              e'
              (rx_round-Advances counted (rx_loop fuel l) (rx_of s) (rx_loop-Advances fuel) chain s'
                (on_rx_inv (next_chain l) s s' chain e))))
  ]

  raise_if-Advances :
      (irq : ℕ) (before : List ℕ) (q : Queue) (r : Result (Option ℕ) × Console)
      → Advances (some l) before 0 q r
      → Advances (some l) before 0 q (and_then r (raise_if irq))
  raise_if-Advances irq before q (ok none, s) a = a
  raise_if-Advances irq before q (ok (some zero), s) a = a
  raise_if-Advances irq before q (ok (some (suc n)), s) a = record {
    gone = a.gone;
    gone_le = a.gone_le;
    left = a.left;
    count = a.count;
    pieces = a.pieces;
    bytes_same = a.bytes_same;
    delivers = a.delivers;
  }
  raise_if-Advances irq before q (fault x, s) a = a

-- Input is a stream: with those that waited in front, the first of the bytes that are pushed are delivered
-- to the guest in order, in pieces that are each written whole into a chain that goes into the used ring
-- with their number, and the others wait, in order. Chains without room are given back. This holds also
-- when the loop stops early or throws. A number that comes back is how many bytes are gone.
pub push_rx-Advances :
    (fuel : ℕ) (p : Ports) (vr : Option Layout) (bytes : List ℕ) (s : Console)
    → Advances vr (s.pending ++ bytes) 0 (rx_of s) (push_rx fuel p vr bytes s)
unfolding push_rx flush_rx
push_rx-Advances fuel p none bytes s = record {
  gone = 0;
  gone_le = omega arith;
  left = refl;
  count = λ d h. ground (arith, h);
  pieces = [];
  bytes_same = refl;
  delivers = (refl, refl);
}
push_rx-Advances fuel p (some l) bytes s =
    raise_if-Advances l p.irq (s.pending ++ bytes) (rx_of s)
      (rx_loop fuel l 0 (record s { pending = s.pending ++ bytes }))
      (rx_loop-Advances l fuel 0 (record s { pending = s.pending ++ bytes }))
