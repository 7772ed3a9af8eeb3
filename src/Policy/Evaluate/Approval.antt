-- ===== src/Policy/Evaluate/Approval.antt =====
-- No outcome other than a denial without admission and within the budgets, and the reverse.
use flowops.Prelude.{
  ℕ, ◌+◌, ◌≤◌, ◌<◌, ◌≡◌, ◌≢◌, true, false, some, [], ◌∷◌, Text, List, text_in, ok, arith, inl, inr,
  Result-cases, Option-cases, ◌↔◌, sym, ap, ◌∙◌,
}
use flowops.Amount.{two_256, parse_non_negative, parse_positive}
use flowops.Envelope.Grammar.{address_pattern, canonical_address}
use flowops.Envelope.Grammar.Canonical.{canonical_address_iff}
use flowops.Policy.Types.{deny, auto_approve, Intent, SpendSnapshot, Engine}
use flowops.Policy.Evaluate.{
  projected_total, address_in, evaluate_amount, evaluate_result, evaluate,
}
use flowops.Policy.Evaluate.Spec.{Amounts, Reads, WithinBudgets, Admitted}

-- The allow-list test of an address is membership and the address pattern.
address_in_iff :
    (unicode_lower : Text → Text) (v : Text) (members : List Text)
    → (address_in unicode_lower v members ≡ true)
      ↔ ((text_in v members ≡ true) × (address_pattern v ≡ true))
address_in_iff unicode_lower v members = elim (Option-cases (canonical_address unicode_lower v)) [
  | inl p ↦ ground (arith, (canonical_address_iff unicode_lower v v).1)
  | inr (a, p) ↦ ground (arith, (canonical_address_iff unicode_lower v a).0 p)
]

projected_total_sound :
    (a : ℕ) (v w : Text) (t : ℕ)
    → projected_total a (v ∷ w ∷ []) ≡ some t
    → (x : ℕ) × (y : ℕ) × (parse_non_negative v ≡ ok x)
      × (parse_non_negative w ≡ ok y)
      × (t ≡ a + x + y)
      × (t < two_256)
unfolding projected_total
projected_total_sound a v w t h = elim (Result-cases (parse_non_negative v)) [
  | inr (e, p) ↦ absurd (ground arith)
  | inl (x, p) ↦ elim (Result-cases (parse_non_negative w)) [
    | inr (e, q) ↦ absurd (ground arith)
    | inl (y, q) ↦ (x, y, p, q, ground arith, ground arith)
  ]
]

projected_total_complete :
    (a : ℕ) (v w : Text) (x y : ℕ)
    → parse_non_negative v ≡ ok x
    → parse_non_negative w ≡ ok y
    → a + x + y < two_256
    → projected_total a (v ∷ w ∷ []) ≡ some (a + x + y)
unfolding projected_total
projected_total_complete a v w x y p q h = ground arith

module _ (e : Engine) (intent : Intent) (spend : SpendSnapshot) (a : ℕ) where
  -- Past the checks of the amount the budgets hold.
  evaluate_amount_sound :
      parse_positive intent.amount_atomic ≡ ok a
      → (evaluate_amount e intent spend a).0 ≢ deny
      → (n : Amounts) × Reads intent spend n × WithinBudgets e n
  unfolding evaluate_amount
  evaluate_amount_sound p h =
      elim (Option-cases
        (projected_total a (spend.task_spent_atomic ∷ spend.task_reserved_atomic ∷ []))) [
          | inl q ↦ absurd (ground arith)
          | inr (t, q) ↦
              elim (Option-cases
                (projected_total a (spend.daily_spent_atomic ∷ spend.daily_reserved_atomic ∷ []))) [
                  | inl r ↦ absurd (ground arith)
                  | inr (d, r) ↦
                      let (x, y, px, py, te, tf) =
                        projected_total_sound a spend.task_spent_atomic spend.task_reserved_atomic t
                          q in
                      let (z, w, pz, pw, de, df) =
                        projected_total_sound a spend.daily_spent_atomic spend.daily_reserved_atomic
                          d r in
                      (
                        record {
                          amount = a;
                          task_spent = x;
                          task_reserved = y;
                          daily_spent = z;
                          daily_reserved = w;
                        },
                        record {
                          amount = p;
                          task_spent = px;
                          task_reserved = py;
                          daily_spent = pz;
                          daily_reserved = pw;
                        },
                        record {
                          action = ground arith;
                          task = ground arith;
                          task_fits = ground arith;
                          daily = ground arith;
                          daily_fits = ground arith;
                        },
                      )
                ]
        ]

module _ (unicode_lower : Text → Text) (e : Engine) (intent : Intent) (spend : SpendSnapshot) where
  -- The ladder of checks before the amount.
  evaluate_result_sound :
      (evaluate_result unicode_lower e intent spend).0 ≢ deny
      → Admitted unicode_lower e intent
        × ((a : ℕ) × (parse_positive intent.amount_atomic ≡ ok a)
            × (evaluate_result unicode_lower e intent spend ≡ evaluate_amount e intent spend a))
  unfolding evaluate_result
  evaluate_result_sound h = elim (Result-cases (parse_positive intent.amount_atomic)) [
    | inr (x, q) ↦ absurd (ground arith)
    | inl (a, q) ↦ (
      ground (
        arith,
        address_in_iff unicode_lower intent.asset e.assets,
        address_in_iff unicode_lower intent.recipient e.recipients,
      ),
      (a, q, ground arith),
    )
  ]

  evaluate_result-Admitted :
      (a : ℕ)
      → Admitted unicode_lower e intent
      → parse_positive intent.amount_atomic ≡ ok a
      → evaluate_result unicode_lower e intent spend ≡ evaluate_amount e intent spend a
  unfolding evaluate_result
  evaluate_result-Admitted a h q = ground (
    arith,
    address_in_iff unicode_lower intent.asset e.assets,
    address_in_iff unicode_lower intent.recipient e.recipients,
  )

  evaluate_amount_auto :
      (n : Amounts)
      → Reads intent spend n
      → WithinBudgets e n
      → text_in intent.rail e.approval_required_rails ≡ false
      → n.amount ≤ e.auto_approve_threshold
      → (evaluate_amount e intent spend n.amount).0 ≡ auto_approve
  unfolding evaluate_amount
  evaluate_amount_auto n r b h k = ground (
    arith,
    projected_total_complete n.amount spend.task_spent_atomic spend.task_reserved_atomic
        n.task_spent n.task_reserved r.task_spent r.task_reserved b.task_fits,
    projected_total_complete n.amount spend.daily_spent_atomic spend.daily_reserved_atomic
        n.daily_spent n.daily_reserved r.daily_spent r.daily_reserved b.daily_fits,
  )

  evaluate_amount_auto_sound :
      (a : ℕ)
      → (evaluate_amount e intent spend a).0 ≡ auto_approve
      → (text_in intent.rail e.approval_required_rails ≡ false) × (a ≤ e.auto_approve_threshold)
  unfolding evaluate_amount
  evaluate_amount_auto_sound a h = ground arith

  -- If the decision is not a denial, whatever its outcome, then the engine is enabled, its allow
  -- lists hold the chain, the rail, the asset and the recipient, the last two canonical addresses,
  -- the category is not blocked, all amounts are canonical, and the action limit, the task budget
  -- and the daily budget hold with the new amount added to what is spent and reserved.
  pub evaluate-within :
      (evaluate unicode_lower e intent spend).outcome ≢ deny
      → Admitted unicode_lower e intent × ((n : Amounts) × Reads intent spend n × WithinBudgets e n)
  unfolding evaluate
  evaluate-within h =
      let (admitted, found) = evaluate_result_sound h in
      let (a, q, same) = found in
      (admitted, evaluate_amount_sound e intent spend a q (λ d. h (ap (λ p. p.0) same ∙ d)))

  -- An action is approved without a human exactly when the intent is admitted, its budgets hold,
  -- its rail is not one that requires approval, and its amount is at most the threshold.
  pub evaluate-auto_approve_iff :
      ((evaluate unicode_lower e intent spend).outcome ≡ auto_approve) ↔ (
        Admitted unicode_lower e intent
        × ((n : Amounts) × Reads intent spend n
            × WithinBudgets e n
            × (n.amount ≤ e.auto_approve_threshold))
        × (text_in intent.rail e.approval_required_rails ≡ false))
  unfolding evaluate
  evaluate-auto_approve_iff = (
    λ h.
        let (admitted, found) = evaluate_result_sound (λ d. cc) in
        let (a, q, same) = found in
        let auto = ap (λ p. p.0) (sym same) ∙ h in
        let (n, r, b) = evaluate_amount_sound e intent spend a q (λ d. cc) in
        let (rail, threshold) = evaluate_amount_auto_sound a auto in
        (admitted, (n, r, b, ground arith), rail),
    λ (admitted, (n, r, b, k), rail).
        ap (λ p. p.0) (evaluate_result-Admitted n.amount admitted r.amount)
        ∙ evaluate_amount_auto n r b rail k,
  )
