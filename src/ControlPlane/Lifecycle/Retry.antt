-- ===== src/ControlPlane/Lifecycle/Retry.antt =====
-- Submit again.
use flowops.Prelude.{
  ap, sym, subst, lookup-insert, ◌≡◌, ◌∙◌, refl, true, some, Text, text_eq, text_eq_refl, lookup,
  ok, Result-cases, Option-cases, Bool-cases, inl, inr, arith,
}
use flowops.Envelope.Grammar.{valid_identifier}
use flowops.Policy.Types.{Decision}
use flowops.ControlPlane.Intent.{
  PaymentIntent, State, Record, Outside, read_record, intent_digest, decision_state,
}
use flowops.ControlPlane.Memory.{
  Memory, scoped_intent_key, apply_submitted, apply_payload, apply_event,
}
use flowops.ControlPlane.Lifecycle.{
  Plane, Config, Answers, pilot_decision, new_record, write_event, append_event, submit_record,
  submit_decision, submit,
}
use flowops.ControlPlane.Lifecycle.Accepted.{
  decided_record, submit-no_digest, submit-no_policy, submit-decided,
}

-- A record that Submit finds by the intent, with its digest.
abbrev Finds : PaymentIntent → Text → Record → Memory → Type 0
Finds i digest r m =
    (id : Text) × (lookup (scoped_intent_key i.organization_id i.intent_id) m.request_by_intent
      ≡ some id)
    × (lookup id m.records ≡ some r)
    × (text_eq r.intent_digest digest ≡ true)

module _ (o : Outside) (cfg : Config) (ans : Answers) where
  submit_record-Finds :
      (i : PaymentIntent) (digest : Text) (d : Decision) (state : State) (w : Plane) (r : Record)
      → (submit_record o cfg ans i digest d state w).0 ≡ ok r
      → Finds i digest r (submit_record o cfg ans i digest d state w).1.memory
  unfolding submit_record append_event write_event apply_event apply_payload apply_submitted
  submit_record-Finds i digest d state w r h = elim (Option-cases ans.new_request_id) [
    | inl p ↦ absurd (ground arith)
    | inr (id, p) ↦
        let key = scoped_intent_key i.organization_id i.intent_id in
        let new = read_record o (new_record o cfg ans i digest d state id) in
        (
          id,
          ground (arith, lookup-insert key key id w.memory.request_by_intent, text_eq_refl key),
          ground (arith, lookup-insert id id new w.memory.records, text_eq_refl id),
          ground (arith, text_eq_refl digest),
        )
  ]

  submit_decision-Finds :
      (i : PaymentIntent) (digest : Text) (d : Decision) (w : Plane) (r : Record)
      → (submit_decision o cfg ans i digest d w).0 ≡ ok r
      → Finds i digest r (submit_decision o cfg ans i digest d w).1.memory
  unfolding submit_decision
  submit_decision-Finds i digest d w r h = elim (Bool-cases (valid_identifier d.policy_version)) [
    | inr v ↦ absurd (ground arith)
    | inl v ↦ elim (Result-cases (pilot_decision o cfg ans i d w.memory)) [
      | inr (e, p) ↦ absurd (ground arith)
      | inl (d', p) ↦ elim (Option-cases (decision_state d'.outcome)) [
        | inl s ↦ absurd (ground arith)
        | inr (state, s) ↦
            let done = decided_record o cfg ans i digest d d' state w v p s in
            rw done (submit_record-Finds i digest d' state w r (ap (λ x. x.0) (sym done) ∙ h))
      ]
    ]
  ]

  submit-Finds :
      (i : PaymentIntent) (digest : Text) (w w' : Plane) (r : Record)
      → intent_digest o i ≡ ok digest
      → submit o cfg ans i w ≡ (ok r, w')
      → Finds i digest r w'.memory
  unfolding submit
  submit-Finds i digest w w' r g h =
      elim (Option-cases
        (lookup (scoped_intent_key i.organization_id i.intent_id) w.memory.request_by_intent)) [
          | inr (id, k) ↦ (id, ground arith, ground arith, ground arith)
          | inl k ↦ elim (Option-cases ans.evaluate) [
            | inl p ↦ absurd (submit-no_policy o cfg ans i w w' r digest g k p h)
            | inr (d, p) ↦
                let done = submit-decided o cfg ans i w w' r digest d g k p h in
                subst (λ x. Finds i digest r x.1.memory) done
                  (submit_decision-Finds i digest d w r (ap (λ x. x.0) done))
          ]
        ]

  -- Once Submit has returned a record for an intent, Submit of the same intent on the state behind it
  -- returns the same record and changes nothing: whatever the clock, the gates, the policy provider
  -- and the journal answer by then.
  pub submit-idempotent :
      (later : Answers) (i : PaymentIntent) (w w' : Plane) (r : Record)
      → submit o cfg ans i w ≡ (ok r, w')
      → submit o cfg later i w' ≡ (ok r, w')
  unfolding submit
  submit-idempotent later i w w' r h = elim (Result-cases (intent_digest o i)) [
    | inr (e, g) ↦ absurd (submit-no_digest o cfg ans i w w' r e g h)
    | inl (digest, g) ↦
        let (id, k, l, q) = submit-Finds i digest w w' r g h in
        rw (g, submit) (rw k (rw l (rw q refl)))
  ]
