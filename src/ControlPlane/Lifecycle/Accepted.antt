-- ===== src/ControlPlane/Lifecycle/Accepted.antt =====
-- What a call of Submit that returns a record has done.
use flowops.Prelude.{
  ◌≡◌, ◌≢◌, true, none, some, Text, lookup, insert, ok, err, Option-cases, inl, inr, arith,
}
use flowops.Envelope.Grammar.{valid_identifier}
use flowops.Policy.Types.{Decision}
use flowops.ControlPlane.Intent.{
  PaymentIntent, State, Record, IntentError, Outside, read_record, intent_digest, decision_state,
}
use flowops.ControlPlane.Memory.{scoped_intent_key, apply_submitted, apply_payload, apply_event}
use flowops.ControlPlane.Lifecycle.{
  Plane, Config, Answers, pilot_decision, new_record, write_event, append_event, submit_record,
  submit_decision, submit,
}

module _ (o : Outside) (cfg : Config) (ans : Answers) where
  -- What a successful end of Submit has written.
  pub submit_record-ok :
      (i : PaymentIntent) (digest : Text) (d : Decision) (state : State) (w : Plane) (r : Record)
      → (submit_record o cfg ans i digest d state w).0 ≡ ok r
      → (id : Text) × (lookup id w.memory.records ≡ none)
        × (r ≡ read_record o (new_record o cfg ans i digest d state id))
        × ((submit_record o cfg ans i digest d state w).1.memory.records
            ≡ insert id (read_record o (new_record o cfg ans i digest d state id)) w.memory.records)
  unfolding submit_record append_event write_event apply_event apply_payload apply_submitted
  submit_record-ok i digest d state w r h = elim (Option-cases ans.new_request_id) [
    | inl p ↦ absurd (ground arith)
    | inr (id, p) ↦ (id, ground arith, ground arith, ground arith)
  ]

  pub submit_record-state :
      (i : PaymentIntent) (digest : Text) (d : Decision) (state : State) (w : Plane) (r : Record)
      → (submit_record o cfg ans i digest d state w).0 ≡ ok r
      → r.state ≡ state
  submit_record-state i digest d state w r h =
      let (id, f, e, s) = submit_record-ok i digest d state w r h in ground arith

  pub decided_record :
      (i : PaymentIntent) (digest : Text) (d d' : Decision) (state : State) (w : Plane)
      → valid_identifier d.policy_version ≡ true
      → pilot_decision o cfg ans i d w.memory ≡ ok d'
      → decision_state d'.outcome ≡ some state
      → submit_decision o cfg ans i digest d w ≡ submit_record o cfg ans i digest d' state w
  unfolding submit_decision
  decided_record i digest d d' state w v p s = ground arith

  pub submit-no_digest :
      (i : PaymentIntent) (w w' : Plane) (r : Record) (e : IntentError)
      → intent_digest o i ≡ err e
      → submit o cfg ans i w ≢ (ok r, w')
  unfolding submit
  submit-no_digest i w w' r e g = λ h. ground arith

  pub submit-no_policy :
      (i : PaymentIntent) (w w' : Plane) (r : Record) (digest : Text)
      → intent_digest o i ≡ ok digest
      → lookup (scoped_intent_key i.organization_id i.intent_id) w.memory.request_by_intent ≡ none
      → ans.evaluate ≡ none
      → submit o cfg ans i w ≢ (ok r, w')
  unfolding submit
  submit-no_policy i w w' r digest g k p = λ h. ground arith

  pub submit-decided :
      (i : PaymentIntent) (w w' : Plane) (r : Record) (digest : Text) (d : Decision)
      → intent_digest o i ≡ ok digest
      → lookup (scoped_intent_key i.organization_id i.intent_id) w.memory.request_by_intent ≡ none
      → ans.evaluate ≡ some d
      → submit o cfg ans i w ≡ (ok r, w')
      → submit_decision o cfg ans i digest d w ≡ (ok r, w')
  unfolding submit
  submit-decided i w w' r digest d g k p h = ground arith
