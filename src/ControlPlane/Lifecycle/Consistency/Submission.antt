-- ===== src/ControlPlane/Lifecycle/Consistency/Submission.antt =====
-- Submit keeps the file replayable to the memory.
use flowops.Prelude.{
  ◌≡◌, ◌≢◌, none, some, Text, text_eq, is_some, lookup, ok, Result-cases, Option-cases, Bool-cases,
  inl, inr,
}
use flowops.Envelope.Grammar.{valid_identifier}
use flowops.Policy.Types.{Decision}
use flowops.ControlPlane.Intent.{
  PaymentIntent, State, Outside, read_intent, intent_digest, decision_state,
}
use flowops.ControlPlane.Memory.{scoped_intent_key}
use flowops.ControlPlane.Lifecycle.{
  Plane, Config, torn, Answers, pilot_decision, new_record, submitted_event, submit_record,
  submit_decision, submit,
}
use flowops.ControlPlane.Lifecycle.Consistency.{IsRecoverable}
use flowops.ControlPlane.Lifecycle.Consistency.Applies.{submitted_event-Takes, taken_event}

module _ (o : Outside) (cfg : Config) (ans : Answers) (whole : ans.append ≢ torn) where
  submit_record-IsRecoverable :
      (i : PaymentIntent) (digest : Text) (d : Decision) (state : State) (w : Plane)
      → read_intent o i ≡ i
      → intent_digest o i ≡ ok digest
      → lookup (scoped_intent_key i.organization_id i.intent_id) w.memory.request_by_intent ≡ none
      → decision_state d.outcome ≡ some state
      → IsRecoverable o w
      → IsRecoverable o (submit_record o cfg ans i digest d state w).1
  unfolding submit_record
  submit_record-IsRecoverable i digest d state w same h k s good =
      elim (Option-cases ans.new_request_id) [
        | inl p ↦ rw (p, submit_record) good
        | inr (id, p) ↦ elim (Bool-cases (valid_identifier id)) [
          | inr v ↦ rw (p, submit_record) (rw v good)
          | inl v ↦ elim (Bool-cases (is_some (lookup id w.memory.records))) [
            | inl f ↦ rw (p, submit_record) (rw v (rw f good))
            | inr f ↦
                rw (p, submit_record)
                  (rw v (
                    rw f (
                      taken_event o ans.append
                        (submitted_event o cfg ans (new_record o cfg ans i digest d state id)) w
                        whole
                        (submitted_event-Takes o cfg ans i digest id d state w.memory same h k f s)
                        good)))
          ]
        ]
      ]

  submit_decision-IsRecoverable :
      (i : PaymentIntent) (digest : Text) (d : Decision) (w : Plane)
      → read_intent o i ≡ i
      → intent_digest o i ≡ ok digest
      → lookup (scoped_intent_key i.organization_id i.intent_id) w.memory.request_by_intent ≡ none
      → IsRecoverable o w
      → IsRecoverable o (submit_decision o cfg ans i digest d w).1
  unfolding submit_decision
  submit_decision-IsRecoverable i digest d w same h k good =
      elim (Bool-cases (valid_identifier d.policy_version)) [
        | inr v ↦ rw (v, submit_decision) good
        | inl v ↦ elim (Result-cases (pilot_decision o cfg ans i d w.memory)) [
          | inr (e, p) ↦ rw (v, submit_decision) (rw p good)
          | inl (d', p) ↦ elim (Option-cases (decision_state d'.outcome)) [
            | inl s ↦ rw (v, submit_decision) (rw p (rw s good))
            | inr (state, s) ↦
                rw (v, submit_decision)
                  (rw p (rw s (submit_record-IsRecoverable i digest d' state w same h k s good)))
          ]
        ]
      ]

  pub submit-IsRecoverable :
      (i : PaymentIntent) (w : Plane)
      → read_intent o i ≡ i
      → IsRecoverable o w
      → IsRecoverable o (submit o cfg ans i w).1
  unfolding submit
  submit-IsRecoverable i w same good = elim (Result-cases (intent_digest o i)) [
    | inr (e, h) ↦ rw (h, submit) good
    | inl (digest, h) ↦
        elim (Option-cases
          (lookup (scoped_intent_key i.organization_id i.intent_id) w.memory.request_by_intent)) [
            | inr (id, k) ↦ elim (Option-cases (lookup id w.memory.records)) [
              | inl l ↦ rw (h, submit) (rw k (rw l good))
              | inr (r, l) ↦ elim (Bool-cases (text_eq r.intent_digest digest)) [
                | inl q ↦ rw (h, submit) (rw k (rw l (rw q good)))
                | inr q ↦ rw (h, submit) (rw k (rw l (rw q good)))
              ]
            ]
            | inl k ↦ elim (Bool-cases ans.freeze_passes) [
              | inr q ↦ rw (h, submit) (rw k (rw q good))
              | inl q ↦ elim (Option-cases ans.evaluate) [
                | inl p ↦ rw (h, submit) (rw k (rw q (rw p good)))
                | inr (d, p) ↦
                    rw (h, submit)
                      (rw k
                        (rw q (rw p (submit_decision-IsRecoverable i digest d w same h k good))))
              ]
            ]
          ]
  ]
