-- ===== src/Reservation/Totals.antt =====
-- What Reserve and Transition do to the total that is held of a dimension.
use flowops.Prelude.{
  ℕ, ◌+◌, ◌≤◌, ◌≡◌, ◌≢◌, true, ◌||◌, none, some, [], ◌∷◌, Text, text_eq, lookup, insert, values, ok,
  Bool-cases, inl, inr, arith,
}
use flowops.Reservation.{
  State, reserved, authorization_live, reorged_back, state_eq, Reservation, Store, includes,
  is_held, amount_of, share, total, allowed, transition,
}

-- A new entry adds its share.
pub total-insert_new :
    (id k : Text) (r : Reservation) (s : Store)
    → lookup k s ≡ none
    → total id (values (insert k r s)) ≡ total id (values s) + share id r
unfolding total lookup insert
total-insert_new id k r [] h = ground arith
total-insert_new id k r ((j, q) ∷ s) h = elim (Bool-cases (text_eq j k)) [
  | inl a ↦ absurd (ground arith)
  | inr a ↦ let e = total-insert_new id k r s (ground arith) in ground arith
]

-- A changed entry trades its share.
pub total-insert_old :
    (id k : Text) (q r : Reservation) (s : Store)
    → lookup k s ≡ some q
    → total id (values (insert k r s)) + share id q ≡ total id (values s) + share id r
unfolding total lookup insert
total-insert_old id k q r [] h = absurd (ground arith)
total-insert_old id k q r ((j, p) ∷ s) h = elim (Bool-cases (text_eq j k)) [
  | inl a ↦ ground arith
  | inr a ↦ let e = total-insert_old id k q r s (ground arith) in ground arith
]

held_after :
    (a b : State) (now expiry : ℕ)
    → allowed a b now expiry ≡ true
    → a ≢ reorged_back
    → is_held b ≡ true
    → is_held a ≡ true
unfolding allowed
held_after a b now expiry h n k = ground arith

-- A transition from a state other than REORGED_BACK adds to no dimension's total. A transition from
-- REORGED_BACK to RESERVED or AUTHORIZATION_LIVE succeeds whatever the limits, and adds the whole
-- amount to the total of each dimension of its request.
pub transition-total :
    (id operation : Text) (target : State) (now : ℕ) (s : Store) (r : Reservation)
    → lookup operation s ≡ some r
    → (r.state ≢ reorged_back
        → total id (values (transition operation target now s).1) ≤ total id (values s))
      × (r.state ≡ reorged_back
          → state_eq target reserved || state_eq target authorization_live ≡ true
          → includes r.request.dimensions id ≡ true
          → ((transition operation target now s).0 ≡ (ok (record r { state = target }), none))
            × (total id (values (transition operation target now s).1)
                ≡ total id (values s) + amount_of r))
unfolding transition allowed
transition-total id operation target now s r l =
    let e = total-insert_old id operation r (record r { state = target }) s l in
    (
      (λ n. elim (Bool-cases (allowed r.state target now r.request.expires_at)) [
        | inl a ↦ let k = held_after r.state target now r.request.expires_at a n in ground arith
        | inr a ↦ ground arith
      ]),
      λ p t i. (ground arith, ground arith),
    )
