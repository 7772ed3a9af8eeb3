-- ===== src/ControlPlane/Lifecycle/Exposure.antt =====
-- What Submit promises of the pilot's outstanding total.
use flowops.Prelude.{
  ℕ, ap, sym, ◌+◌, ◌≤◌, ◌<◌, ◌≡◌, ◌≢◌, ◌∙◌, none, some, [], ◌∷◌, Text, text_eq, map, sum, Table,
  values, lookup, insert, ok, Result-cases, Option-cases, Bool-cases, inl, inr, arith,
}
use flowops.Amount.{two_256, set_string, big_string, parse_positive, parse_non_negative}
use flowops.Amount.Parse.{parse_non_negative_sound}
use flowops.Amount.RoundTrip.{value-big_string}
use flowops.PilotLimits.{Limits, check}
use flowops.PilotLimits.Laws.{check_iff, parse_non_negative-eq}
use flowops.Envelope.Grammar.{valid_identifier}
use flowops.Policy.Types.{Decision, Outcome, deny}
use flowops.ControlPlane.Intent.{
  PaymentIntent, State, denied, Record, Outside, read_record, intent_digest, decision_state,
}
use flowops.ControlPlane.Memory.{Memory, scoped_intent_key}
use flowops.ControlPlane.Budget.{outstanding_amount, pilot_outstanding}
use flowops.ControlPlane.Lifecycle.{
  Plane, Config, Answers, is_deny, limit_decision, pilot_decision, new_record, submit_record,
  submit_decision, submit,
}
use flowops.ControlPlane.Lifecycle.Accepted.{
  submit_record-ok, submit_record-state, decided_record, submit-no_digest, submit-no_policy,
  submit-decided,
}

sum-insert :
    (f : Record → ℕ) (k : Text) (r : Record) (m : Table Record)
    → lookup k m ≡ none
    → sum (map f (values (insert k r m))) ≡ sum (map f (values m)) + f r
unfolding insert lookup
sum-insert f k r [] h = ground arith
sum-insert f k r ((j, s) ∷ m) h = elim (Bool-cases (text_eq j k)) [
  | inl p ↦ absurd (ground arith)
  | inr p ↦ ground (arith, sum-insert f k r m)
]

parse_positive-set_string : (s : Text) (a : ℕ) → parse_positive s ≡ ok a → set_string s ≡ some a
unfolding parse_positive parse_non_negative
parse_positive-set_string s a h = ground arith

-- A printed total that is parsed fits 256 bits.
printed-fits : (n m : ℕ) → parse_non_negative (big_string n) ≡ ok m → n < two_256
printed-fits n m h =
    let (c, e, f) = parse_non_negative_sound (big_string n) m h in
    let same = value-big_string n in ground (arith, same, e, f)

check-printed-fits :
    (l : Limits) (amount : Text) (n : ℕ)
    → check (some l) amount (big_string n) ≡ ok tt
    → n < two_256
unfolding check
check-printed-fits l amount n h = elim (Result-cases (parse_non_negative (big_string n))) [
  | inl (m, p) ↦ printed-fits n m p
  | inr (e, p) ↦ absurd (ground (arith, parse_non_negative-eq (big_string n)))
]

-- Past the limits the total with the amount is within them.
check-total :
    (l : Limits) (amount : Text) (n : ℕ)
    → check (some l) amount (big_string n) ≡ ok tt
    → (a : ℕ) × (set_string amount ≡ some a) × (a ≤ l.max_per_action) × (n + a ≤ l.max_outstanding)
check-total l amount n h =
    let (a, p, q, f, t) = (check_iff l amount n (check-printed-fits l amount n h)).0 h in
    (a, parse_positive-set_string amount a p, q, t)

module _ (o : Outside) (cfg : Config) (ans : Answers) (l : Limits)
    (limited : cfg.pilot_limits ≡ some l) where
  abbrev total : PaymentIntent → Memory → ℕ
  total i m = pilot_outstanding o ans.outcomes ans.now i m

  pilot_decision-checked :
      (i : PaymentIntent) (d d' : Decision) (m : Memory)
      → pilot_decision o cfg ans i d m ≡ ok d'
      → d'.outcome ≢ deny
      → check (some l) i.amount_atomic (big_string (total i m)) ≡ ok tt
  unfolding pilot_decision limit_decision
  pilot_decision-checked i d d' m h n = elim (Bool-cases (is_deny d.outcome)) [
    | inl p ↦ absurd (ground arith)
    | inr p ↦ elim (Result-cases (check (some l) i.amount_atomic (big_string (total i m)))) [
      | inl (u, q) ↦ ground arith
      | inr (e, q) ↦ absurd (ground arith)
    ]
  ]

  new_record-total :
      (i : PaymentIntent) (digest id : Text) (d : Decision) (state : State) (a : ℕ)
      → set_string i.amount_atomic ≡ some a
      → outstanding_amount o ans.outcomes ans.now i
          (read_record o (new_record o cfg ans i digest d state id))
        ≤ a
  unfolding outstanding_amount
  new_record-total i digest id d state a p = ground arith

  total-insert :
      (i : PaymentIntent) (m m' : Memory) (id : Text) (r : Record)
      → lookup id m.records ≡ none
      → m'.records ≡ insert id r m.records
      → total i m' ≡ total i m + outstanding_amount o ans.outcomes ans.now i r
  unfolding pilot_outstanding
  total-insert i m m' id r f h =
      rw h (sum-insert (outstanding_amount o ans.outcomes ans.now i) id r m.records f)

  submit_record-total :
      (i : PaymentIntent) (digest : Text) (d : Decision) (state : State) (w : Plane) (r : Record)
      → check (some l) i.amount_atomic (big_string (total i w.memory)) ≡ ok tt
      → (submit_record o cfg ans i digest d state w).0 ≡ ok r
      → total i (submit_record o cfg ans i digest d state w).1.memory ≤ l.max_outstanding
  submit_record-total i digest d state w r c h =
      let (a, p, q, t) = check-total l i.amount_atomic (total i w.memory) c in
      let (id, f, e, s) = submit_record-ok o cfg ans i digest d state w r h in
      let grown =
        total-insert i w.memory (submit_record o cfg ans i digest d state w).1.memory id
          (read_record o (new_record o cfg ans i digest d state id)) f s in
      let share = new_record-total i digest id d state a p in omega arith

  denied_state : (x : Outcome) (s : State) → x ≡ deny → decision_state x ≡ some s → s ≡ denied
  unfolding decision_state
  denied_state x s p q = ground arith

  submit_decision-total :
      (i : PaymentIntent) (digest : Text) (d : Decision) (w : Plane) (r : Record)
      → (submit_decision o cfg ans i digest d w).0 ≡ ok r
      → r.state ≢ denied
      → total i (submit_decision o cfg ans i digest d w).1.memory ≤ l.max_outstanding
  unfolding submit_decision
  submit_decision-total i digest d w r h n = elim (Bool-cases (valid_identifier d.policy_version)) [
    | inr v ↦ absurd (ground arith)
    | inl v ↦ elim (Result-cases (pilot_decision o cfg ans i d w.memory)) [
      | inr (e, p) ↦ absurd (ground arith)
      | inl (d', p) ↦ elim (Option-cases (decision_state d'.outcome)) [
        | inl s ↦ absurd (ground arith)
        | inr (state, s) ↦
            let done = decided_record o cfg ans i digest d d' state w v p s in
            let h' = ap (λ x. x.0) (sym done) ∙ h in
            let same = submit_record-state o cfg ans i digest d' state w r h' in
            rw done (
              submit_record-total i digest d' state w r
                (pilot_decision-checked i d d' w.memory p
                  (λ q. n (same ∙ denied_state d'.outcome state q s)))
                h')
      ]
    ]
  ]

  -- Under pilot limits: when Submit accepts a new intent and the record is not denied, all that the
  -- customer has outstanding in the memory behind it, the new amount included, is at most the
  -- outstanding limit.
  pub submit-within_pilot :
      (i : PaymentIntent) (w w' : Plane) (r : Record)
      → lookup (scoped_intent_key i.organization_id i.intent_id) w.memory.request_by_intent ≡ none
      → submit o cfg ans i w ≡ (ok r, w')
      → r.state ≢ denied
      → pilot_outstanding o ans.outcomes ans.now i w'.memory ≤ l.max_outstanding
  submit-within_pilot i w w' r k h n = elim (Result-cases (intent_digest o i)) [
    | inr (e, g) ↦ absurd (submit-no_digest o cfg ans i w w' r e g h)
    | inl (digest, g) ↦ elim (Option-cases ans.evaluate) [
      | inl p ↦ absurd (submit-no_policy o cfg ans i w w' r digest g k p h)
      | inr (d, p) ↦
          let done = submit-decided o cfg ans i w w' r digest d g k p h in
          rw⁻¹ (ap (λ x. x.1) done) (submit_decision-total i digest d w r (ap (λ x. x.0) done) n)
    ]
  ]
