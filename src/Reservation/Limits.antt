-- ===== src/Reservation/Limits.antt =====
-- Runs of the store on one limit for each dimension.
use flowops.Prelude.{
  ℕ, ◌+◌, ◌≤◌, leb, ◌==◌, ◌≡◌, ◌≢◌, Bool, true, false, not, ◌||◌, none, some, List, [], ◌∷◌, Text,
  text_eq, is_empty, all, subst, sym, text_eq→eq, ◌⊎◌, lookup, lookup-insert, insert, values,
  Option-cases, Bool-cases, inl, inr, arith,
}
use flowops.Reservation.{
  State, reserved, reorged_back, state_eq, Dimension, Request, Reservation, Store, number, includes,
  total, fits, reserve, transition,
}
use flowops.Reservation.Totals.{total-insert_new, transition-total}

-- A call of the store.
pub data Call : Type 0 where
  reserves : Request → ℕ → Call
  moves : Text → State → ℕ → Call

abbrev pub apply : Call → Store → Store
apply (reserves request now) s = (reserve request now s).1
apply (moves operation target now) s = (transition operation target now s).1

abbrev pub run : List Call → Store → Store
run [] s = s
run (c ∷ cs) s = run cs (apply c s)

-- Every request of a run names the same limit for a dimension.
abbrev pub agrees : (Text → ℕ) → Call → Bool
agrees limit (reserves request now) =
    all (λ d. elim (number d.limit) [ none ↦ true | some n ↦ n == limit d.id ]) request.dimensions
agrees limit (moves operation target now) = true

abbrev pub reports_reorg : Call → Bool
reports_reorg (reserves request now) = false
reports_reorg (moves operation target now) = state_eq target reorged_back

record Inv (limit : Text → ℕ) (s : Store) : Type 0 where
  within : (id : Text) → total id (values s) ≤ limit id
  settled : (k : Text) (r : Reservation) → lookup k s ≡ some r → r.state ≢ reorged_back

fits-within :
    (limit : Text → ℕ) (amount : ℕ) (s : Store) (ds : List Dimension) (id : Text)
    → all (λ d. elim (number d.limit) [ none ↦ true | some n ↦ n == limit d.id ]) ds ≡ true
    → fits amount s ds ≡ true
    → includes ds id ≡ true
    → total id (values s) + amount ≤ limit id
fits-within limit amount s [] id a f h = absurd (ground arith)
fits-within limit amount s (d ∷ ds) id a f h = elim (Bool-cases (text_eq d.id id)) [
  | inl e ↦ elim (Option-cases (number d.limit)) [
    | inl n ↦ absurd (ground arith)
    | inr (l, n) ↦
        subst (λ i. total i (values s) + amount ≤ limit i) (text_eq→eq d.id id e) (ground arith)
  ]
  | inr e ↦ fits-within limit amount s ds id (ground arith) (ground arith) (ground arith)
]

-- A successful Reserve.
record Reserves (request : Request) (now : ℕ) (s t : Store) : Type 0 where
  amount : ℕ
  parsed : number request.amount ≡ some amount
  is_new : lookup request.operation_id s ≡ none
  fitting : fits amount s request.dimensions ≡ true
  after :
      t
      ≡ insert request.operation_id
          (record { request = request; state = reserved; created_at = now })
          s

reserve-cases :
    (request : Request) (now : ℕ) (s : Store)
    → ((reserve request now s).1 ≡ s) ⊎ Reserves request now s (reserve request now s).1
unfolding reserve
reserve-cases request now s = elim (Option-cases (number request.amount)) [
  | inl a ↦ inl (ground arith)
  | inr (amount, a) ↦
      elim (Bool-cases (
        is_empty request.operation_id
        || is_empty request.reservation_id
        || is_empty request.dimensions
        || leb request.expires_at now)) [
          | inl b ↦ inl (ground arith)
          | inr b ↦ elim (Option-cases (lookup request.operation_id s)) [
            | inr (r, c) ↦ inl (ground arith)
            | inl c ↦ elim (Bool-cases (fits amount s request.dimensions)) [
              | inr d ↦ inl (ground arith)
              | inl d ↦ inr (record {
                amount = amount;
                parsed = a;
                is_new = c;
                fitting = d;
                after = ground arith;
              })
            ]
          ]
        ]
]

inserted-Inv :
    (limit : Text → ℕ) (request : Request) (now : ℕ) (s t : Store)
    → agrees limit (reserves request now) ≡ true
    → Inv limit s
    → Reserves request now s t
    → Inv limit t
inserted-Inv limit request now s t a inv h =
    let r : Reservation = record { request = request; state = reserved; created_at = now } in
    record {
      within = λ id.
          let w = inv.within id in
          let e = total-insert_new id request.operation_id r s h.is_new in
          elim (Bool-cases (includes request.dimensions id)) [
            | inl i ↦
                let f = fits-within limit h.amount s request.dimensions id a h.fitting i in
                ground (arith, h.after, h.parsed)
            | inr i ↦ ground (arith, h.after)
          ];
      settled = λ k q l n.
          let f = inv.settled k q in
          ground (arith, h.after, lookup-insert request.operation_id k r s);
    }

reserve-Inv :
    (limit : Text → ℕ) (request : Request) (now : ℕ) (s : Store)
    → agrees limit (reserves request now) ≡ true
    → Inv limit s
    → Inv limit (reserve request now s).1
reserve-Inv limit request now s a inv = elim (reserve-cases request now s) [
  | inl e ↦ subst (Inv limit) (sym e) inv
  | inr h ↦ inserted-Inv limit request now s (reserve request now s).1 a inv h
]

transition-Inv :
    (limit : Text → ℕ) (operation : Text) (target : State) (now : ℕ) (s : Store)
    → state_eq target reorged_back ≡ false
    → Inv limit s
    → Inv limit (transition operation target now s).1
unfolding transition
transition-Inv limit operation target now s a inv = elim (Option-cases (lookup operation s)) [
  | inl l ↦
      let e : (transition operation target now s).1 ≡ s = ground arith in
      subst (Inv limit) (sym e) inv
  | inr (r, l) ↦ record {
    within = λ id.
        let t = (transition-total id operation target now s r l).0 (inv.settled operation r l) in
        let w = inv.within id in omega arith;
    settled = λ k q m n.
        let f = inv.settled k q in
        ground (arith, lookup-insert operation k (record r { state = target }) s);
  }
]

run-Inv :
    (limit : Text → ℕ) (calls : List Call) (s : Store)
    → all (agrees limit) calls ≡ true
    → all (λ c. not (reports_reorg c)) calls ≡ true
    → Inv limit s
    → Inv limit (run calls s)
run-Inv limit [] s a n inv = inv
run-Inv limit (reserves request now ∷ cs) s a n inv =
    run-Inv limit cs (reserve request now s).1 (ground arith) (ground arith)
      (reserve-Inv limit request now s (ground arith) inv)
run-Inv limit (moves operation target now ∷ cs) s a n inv =
    run-Inv limit cs (transition operation target now s).1 (ground arith) (ground arith)
      (transition-Inv limit operation target now s (ground arith) inv)

-- Over an empty store: after any calls of Reserve and Transition in which every request names the
-- same limit for a dimension and no transition reports a reorganization, the amounts that are held
-- of a dimension come to at most its limit.
pub run-within_limit :
    (limit : Text → ℕ) (calls : List Call) (id : Text)
    → all (agrees limit) calls ≡ true
    → all (λ c. not (reports_reorg c)) calls ≡ true
    → total id (values (run calls [])) ≤ limit id
unfolding total lookup
run-within_limit limit calls id a n =
    (run-Inv limit calls [] a n
        (record { within = λ i. ground arith; settled = λ k r l. absurd (ground arith) })).within
      id
