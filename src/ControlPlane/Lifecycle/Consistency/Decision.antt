-- ===== src/ControlPlane/Lifecycle/Consistency/Decision.antt =====
-- Decide keeps the file replayable to the memory.
use flowops.Prelude.{
  ltb, ◌≡◌, ◌≢◌, refl, true, false, not, ◌||◌, some, Text, codes, text_eq, is_empty, length, lookup,
  Option-cases, Bool-cases, inl, inr, arith,
}
use flowops.Strings.{trim_space, trim_front, space_width, back_space_width}
use flowops.Envelope.Grammar.{valid_identifier}
use flowops.ControlPlane.Intent.{Record, Approval, ApprovalAction, Outside}
use flowops.ControlPlane.Memory.{is_pending, is_approved}
use flowops.ControlPlane.Lifecycle.{Plane, torn, Answers, expired_event, expire, has_expired}
use flowops.ControlPlane.Lifecycle.Decide.{is_action, record_approval, approval_event, decide}
use flowops.ControlPlane.Lifecycle.Consistency.{IsRecoverable}
use flowops.ControlPlane.Lifecycle.Consistency.Applies.{
  Takes, approval_event-Takes, expired_event-Takes, taken_event,
}

abbrev decision_reason : Text
decision_reason = codes "approval window elapsed before decision"

decision_reason-filled : is_empty (trim_space decision_reason) ≡ false
unfolding trim_space trim_front space_width back_space_width
decision_reason-filled = refl

module _ (o : Outside) (ans : Answers) (whole : ans.append ≢ torn) where
  pub expire-IsRecoverable :
      (r : Record) (reason : Text) (w : Plane)
      → lookup r.request_id w.memory.records ≡ some r
      → (is_pending r.state || is_approved r.state) ≡ true
      → is_empty (trim_space reason) ≡ false
      → has_expired ans r ≡ true
      → IsRecoverable o w
      → IsRecoverable o (expire o ans r reason w).1
  unfolding expire
  expire-IsRecoverable r reason w l p q x good =
      taken_event o ans.append (expired_event ans r reason) w whole
        (expired_event-Takes o ans reason w.memory r l p q x) good

  record_approval-IsRecoverable :
      (request_id : Text) (a : Approval) (w : Plane)
      → Takes o (approval_event o ans request_id a) w.memory
      → IsRecoverable o w
      → IsRecoverable o (record_approval o ans request_id a w).1
  unfolding record_approval
  record_approval-IsRecoverable request_id a w t good =
      taken_event o ans.append (approval_event o ans request_id a) w whole t good

  decide_window :
      (request_id digest actor note : Text) (action : ApprovalAction) (r : Record) (w : Plane)
      → lookup request_id w.memory.records ≡ some r
      → is_pending r.state ≡ true
      → text_eq digest r.request_digest ≡ true
      → is_action action ≡ true
      → (not (valid_identifier actor) || ltb 2048 (length note)) ≡ false
      → o.json_text note ≡ note
      → IsRecoverable o w
      → IsRecoverable o (decide o ans request_id digest action actor note w).1
  unfolding decide
  decide_window request_id digest actor note action r w l p q t v same good =
      elim (Bool-cases (has_expired ans r)) [
        | inl x ↦
            rw (t, decide)
              (rw v (
                rw l (
                  rw p (
                    rw q (
                      rw x (
                        expire-IsRecoverable r decision_reason w
                          (ground (arith, good.keyed request_id r l)) (ground arith)
                          decision_reason-filled x good))))))
        | inr x ↦
            rw (t, decide)
              (rw v (
                rw l (
                  rw p (
                    rw q (
                      rw x (
                        record_approval-IsRecoverable request_id _ w
                          (approval_event-Takes o ans request_id _ w.memory r l p q refl x t v same)
                          good))))))
      ]

  pub decide-IsRecoverable :
      (request_id digest : Text) (action : ApprovalAction) (actor note : Text) (w : Plane)
      → o.json_text note ≡ note
      → IsRecoverable o w
      → IsRecoverable o (decide o ans request_id digest action actor note w).1
  unfolding decide
  decide-IsRecoverable request_id digest action actor note w same good =
      elim (Bool-cases (is_action action)) [
        | inr t ↦ rw (t, decide) good
        | inl t ↦ elim (Bool-cases (not (valid_identifier actor) || ltb 2048 (length note))) [
          | inl v ↦ rw (t, decide) (rw v good)
          | inr v ↦ elim (Option-cases (lookup request_id w.memory.records)) [
            | inl l ↦ rw (t, decide) (rw v (rw l good))
            | inr (r, l) ↦ elim (Bool-cases (is_pending r.state)) [
              | inr p ↦ rw (t, decide) (rw v (rw l (rw p good)))
              | inl p ↦ elim (Bool-cases (text_eq digest r.request_digest)) [
                | inr q ↦ rw (t, decide) (rw v (rw l (rw p (rw q good))))
                | inl q ↦ decide_window request_id digest actor note action r w l p q t v same good
              ]
            ]
          ]
        ]
      ]
