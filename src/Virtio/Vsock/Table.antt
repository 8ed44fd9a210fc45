-- ===== src/Virtio/Vsock/Table.antt =====
-- The map of the connections of runtime/virtio/vsock-device.ts: what `set` and `delete` do to `get`.
use nix_wasm.Prelude.{
  ℕ, List, [], ◌∷◌, ◌≡◌, refl, sym, ap, ap₂, ◌∙◌, ◌≢◌, ◌⊎◌, inl, inr, true, false, Bool-cases,
  eq_or_ne, none, some, ◌==◌, ==_refl, if◌then◌else◌, arith,
}
use nix_wasm.Virtio.Vsock.{Entry}
use nix_wasm.Virtio.Vsock.Send.{is_key, lookup, insert, delete}

-- Each pair of ports is entered once.
abbrev pub Unique : List Entry → Type 0
Unique [] = Unit {0}
Unique (e ∷ es) = (lookup es e.host e.guest ≡ none) × Unique es

-- Two pairs of ports that are not the same.
abbrev pub Differ : ℕ → ℕ → ℕ → ℕ → Type 0
Differ host guest host' guest' = (host ≢ host') ⊎ (guest ≢ guest')

pub same_or_Differ :
    (host guest host' guest' : ℕ)
    → ((host ≡ host') × (guest ≡ guest')) ⊎ Differ host guest host' guest'
same_or_Differ host guest host' guest' = elim (eq_or_ne host host') [
  | inl e ↦ elim (eq_or_ne guest guest') [ inl e' ↦ inl (e, e') | inr d ↦ inr (inr d) ]
  | inr d ↦ inr (inl d)
]

is_key-true :
    (host guest : ℕ) (e : Entry) → is_key host guest e ≡ true → (e.host ≡ host) × (e.guest ≡ guest)
is_key-true host guest e h = ground arith

is_key-Differ :
    (host guest host' guest' : ℕ) (e : Entry)
    → Differ host guest host' guest'
    → is_key host guest e ≡ true
    → is_key host' guest' e ≡ false
is_key-Differ host guest host' guest' e d h = ground arith

module _ (host guest : ℕ) where
  pub lookup-insert :
      (es : List Entry) (id : ℕ) → lookup (insert es host guest id) host guest ≡ some id
  lookup-insert [] id = rw (==_refl host, ==_refl guest) refl
  lookup-insert (e ∷ es) id = elim (Bool-cases (is_key host guest e)) [
    | inl h ↦ rw (h, h) refl
    | inr h ↦ rw (h, h) (lookup-insert es id)
  ]

  pub lookup-insert_other :
      (es : List Entry) (id host' guest' : ℕ)
      → Differ host guest host' guest'
      → lookup (insert es host guest id) host' guest' ≡ lookup es host' guest'
  lookup-insert_other [] id host' guest' d =
      let own : Entry = record { host = host; guest = guest; object = id } in
      let key : is_key host guest own ≡ true = rw (==_refl host, ==_refl guest) refl in
      rw (is_key-Differ host guest host' guest' own d key) refl
  lookup-insert_other (e ∷ es) id host' guest' d = elim (Bool-cases (is_key host guest e)) [
    | inl h ↦ rw (h, is_key-Differ host guest host' guest' e d h) refl
    | inr h ↦ rw h (
        ap (λ found. if is_key host' guest' e then some e.object else found)
          (lookup-insert_other es id host' guest' d))
  ]

  -- A key that is not there is found nowhere behind its entry.
  lookup-same :
      (e : Entry) (es : List Entry)
      → is_key host guest e ≡ true
      → lookup es e.host e.guest ≡ none
      → lookup es host guest ≡ none
  lookup-same e es h n =
      let k = is_key-true host guest e h in ap₂ (lookup es) (sym k.0) (sym k.1) ∙ n

  pub lookup-delete :
      (es : List Entry) → Unique es → lookup (delete es host guest) host guest ≡ none
  lookup-delete [] u = refl
  lookup-delete (e ∷ es) u = elim (Bool-cases (is_key host guest e)) [
    | inl h ↦ rw h (lookup-same e es h u.0)
    | inr h ↦ rw (h, h) (lookup-delete es u.1)
  ]

  pub lookup-delete_other :
      (es : List Entry) (host' guest' : ℕ)
      → Differ host guest host' guest'
      → lookup (delete es host guest) host' guest' ≡ lookup es host' guest'
  lookup-delete_other [] host' guest' d = refl
  lookup-delete_other (e ∷ es) host' guest' d = elim (Bool-cases (is_key host guest e)) [
    | inl h ↦ rw (h, is_key-Differ host guest host' guest' e d h) refl
    | inr h ↦ rw h (
        ap (λ found. if is_key host' guest' e then some e.object else found)
          (lookup-delete_other es host' guest' d))
  ]

  -- The key of an entry that is not the one of the ports differs from them.
  other-Differ : (e : Entry) → is_key host guest e ≡ false → Differ host guest e.host e.guest
  other-Differ e h = elim (Bool-cases (e.host == host)) [
    | inl same ↦ inr (λ g. ground arith)
    | inr apart ↦ inl (λ g. ground arith)
  ]

  pub insert-Unique : (es : List Entry) (id : ℕ) → Unique es → Unique (insert es host guest id)
  insert-Unique [] id u = (refl, tt)
  insert-Unique (e ∷ es) id u = elim (Bool-cases (is_key host guest e)) [
    | inl h ↦ rw h (u.0, u.1)
    | inr h ↦
        rw h (
          lookup-insert_other es id e.host e.guest (other-Differ e h) ∙ u.0,
          insert-Unique es id u.1,
        )
  ]

  pub delete-Unique : (es : List Entry) → Unique es → Unique (delete es host guest)
  delete-Unique [] u = tt
  delete-Unique (e ∷ es) u = elim (Bool-cases (is_key host guest e)) [
    | inl h ↦ rw h u.1
    | inr h ↦
        rw h (lookup-delete_other es e.host e.guest (other-Differ e h) ∙ u.0, delete-Unique es u.1)
  ]
