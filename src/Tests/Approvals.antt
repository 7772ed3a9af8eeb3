-- ===== src/Tests/Approvals.antt =====
-- The control plane: one payment from its submission to its authorization.
use flowops.Prelude.{
  ◌*◌, ◌≤◌, ◌≡◌, refl, true, some, [], ◌∷◌, codes, text_eq, lookup, insert, ok, arith, subst,
}
use flowops.Strings.{trim_space, trim_front, space_width, back_space_width, to_lower}
use flowops.Amount.{value, set_string, big_string, parse_non_negative, parse_positive}
use flowops.Hex.{hex_digit, hex_encode}
use flowops.Envelope.Grammar.{
  valid_identifier, hex_pattern, address_pattern, nonce_pattern, normalize_address,
  canonical_address,
}
use flowops.Envelope.Validate.{validate_atomic_amount, validate_escrow, validate}
use flowops.PilotLimits as Pilot
use flowops.ControlPlane.Intent.{
  issued, approve, Outside, Record, validate_intent_escrow, canonical_positive_integer,
  validate_intent, intent_digest, request_digest, decision_state,
}
use flowops.ControlPlane.Memory.{
  Memory, bad_approval, empty_memory, equal_escrow_terms, same_action, authorization_matches,
  apply_submitted, apply_approval, apply_issued, apply_payload, apply_event, replay,
}
use flowops.ControlPlane.Memory.Authorized.{Granted, replay-authorized}
use flowops.ControlPlane.Budget.{second, pilot_outstanding}
use flowops.ControlPlane.Lifecycle.{
  limit_decision, pilot_decision, write_event, append_event, submit_record, submit_decision, submit,
}
use flowops.ControlPlane.Lifecycle.Decide.{record_approval, decide}
use flowops.ControlPlane.Lifecycle.Consistency.{IsRecoverable}
use flowops.ControlPlane.Lifecycle.Consistency.Submission.{submit-IsRecoverable}
use flowops.ControlPlane.Lifecycle.Consistency.Decision.{decide-IsRecoverable}
use flowops.ControlPlane.Lifecycle.Exposure.{submit-within_pilot}
use flowops.ControlPlane.Lifecycle.Retry.{submit-idempotent}
use flowops.Tests.Data.{hash_of, copies, payment}
use flowops.Envelope.Types.{Authorization}
use flowops.Envelope.Sign.{sign, digest, canonical_bytes}
use flowops.Tests.Data.{signed_as, private_key, crypto}
use flowops.Prelude.{err, ◌≢◌, Result, ◌++◌}
use flowops.ControlPlane.Lifecycle.{not_applied, Plane, LifecycleError}
use flowops.ControlPlane.Memory.{authorization_mismatch}
use flowops.ControlPlane.Lifecycle.Issue.{new_authorization, issue_authorization}
use flowops.ControlPlane.Lifecycle.Consistency.ClockBehind.{issue_authorization-clock_behind}
use flowops.Tests.Payments.{
  outside, pilot, config, purchase, answers_at, sha_text, pending, granted, released, submission,
  decision, release, memory_with, new_plane, submitted_plane, decided_plane,
}

submitted_ok :
    submit outside config (answers_at 90) purchase new_plane ≡ (ok pending, submitted_plane)
unfolding submit submit_decision submit_record append_event write_event apply_event apply_payload
    apply_submitted pilot_decision limit_decision pilot_outstanding Pilot.check Pilot.parse_positive
    Pilot.parse_non_negative set_string value big_string intent_digest validate_intent
    validate_intent_escrow canonical_positive_integer request_digest decision_state lookup insert
    text_eq hex_encode hex_digit valid_identifier normalize_address address_pattern hex_pattern
    trim_space trim_front space_width back_space_width to_lower
submitted_ok = refl

nothing_recorded : IsRecoverable outside new_plane
unfolding replay lookup
nothing_recorded = record {
  keyed = λ k r l. absurd (ground arith);
  readable = (empty_memory, refl);
  current = λ _. refl;
}

submission-IsRecoverable : IsRecoverable outside submitted_plane
submission-IsRecoverable =
    subst (λ x. IsRecoverable outside x.1) submitted_ok
      (submit-IsRecoverable outside config (answers_at 90) (λ e. ground arith) purchase new_plane
        refl nothing_recorded)

submit-within_pilot_example :
    pilot_outstanding outside
      (answers_at 90).outcomes
      (answers_at 90).now
      purchase
      submitted_plane.memory
    ≤ 5000
unfolding lookup
submit-within_pilot_example =
    submit-within_pilot outside config (answers_at 90) pilot refl purchase new_plane submitted_plane
      pending refl submitted_ok (λ e. ground arith)

submit-idempotent_example :
    submit outside config (answers_at 99) purchase submitted_plane ≡ (ok pending, submitted_plane)
submit-idempotent_example =
    submit-idempotent outside config (answers_at 90) (answers_at 99) purchase new_plane
      submitted_plane pending submitted_ok

decided_ok :
    decide outside
      (answers_at 95)
      (codes "request-1")
      sha_text
      approve
      (codes "owner-1")
      (codes "fine")
      submitted_plane
    ≡ (ok granted, decided_plane)
unfolding decide record_approval append_event write_event apply_event apply_payload apply_approval
    lookup insert text_eq valid_identifier
decided_ok = refl

decision-IsRecoverable : IsRecoverable outside decided_plane
decision-IsRecoverable =
    subst (λ x. IsRecoverable outside x.1) decided_ok
      (decide-IsRecoverable outside (answers_at 95) (λ e. ground arith) (codes "request-1") sha_text
        approve (codes "owner-1") (codes "fine") submitted_plane refl submission-IsRecoverable)

-- JSON that reads back three bytes for one, as for a byte that is no UTF-8: a note within the limit
-- is written and then refused, by this call and by every restart.
abbrev lossy : Outside
lossy = record outside { json_text = λ s. s ++ (s ++ s) }

abbrev noted : Result LifecycleError Record × Plane
noted =
    decide lossy (answers_at 95) (codes "request-1") sha_text approve (codes "owner-1")
      (copies 255 700) submitted_plane

noted_refused :
    (noted.0 ≡ err (not_applied bad_approval))
    × (replay lossy empty_memory noted.1.events ≡ err bad_approval)
unfolding decide record_approval append_event write_event apply_event apply_payload apply_approval
    lookup insert text_eq valid_identifier replay intent_digest validate_intent
    validate_intent_escrow normalize_address address_pattern to_lower trim_space
    canonical_positive_integer hex_encode request_digest decision_state
noted_refused = (refl, refl)

granted_found : lookup (codes "request-1") decided_plane.memory.records ≡ some granted
unfolding lookup text_eq
granted_found = refl

-- The clock goes back from 90 to 80 before the issuance.
abbrev early : Authorization
early = new_authorization (answers_at 80) granted (codes "auth-1") (hash_of b'4') (140 * second)

early_signed : sign crypto early (codes "key-1") private_key ≡ ok (signed_as early)
unfolding sign digest canonical_bytes validate validate_escrow validate_atomic_amount text_eq
    valid_identifier address_pattern nonce_pattern hex_pattern canonical_address normalize_address
    hex_encode hex_digit value set_string parse_non_negative parse_positive trim_space
early_signed = refl

issue_authorization-clock_behind_example :
    ((issue_authorization outside config (answers_at 80) granted early decided_plane).0
      ≡ err (not_applied authorization_mismatch))
    × ((m : Memory)
        → replay outside empty_memory
            (issue_authorization outside config
              (answers_at 80)
              granted
              early
              decided_plane).1.events
          ≢ ok m)
unfolding lookup
issue_authorization-clock_behind_example =
    issue_authorization-clock_behind outside config (answers_at 80) granted (codes "auth-1")
      (hash_of b'4') (140 * second) (signed_as early) decided_plane decision-IsRecoverable refl refl
      granted_found refl refl (omega arith) early_signed refl refl

abbrev released_memory : Memory
released_memory = record (memory_with released) {
  request_by_authorization = (codes "auth-1", codes "request-1") ∷ [];
  request_by_nonce = (hash_of b'4', codes "request-1") ∷ [];
}

released_replay :
    replay outside empty_memory (submission ∷ decision ∷ release ∷ []) ≡ ok released_memory
unfolding replay apply_event apply_payload apply_submitted apply_approval apply_issued text_eq
    lookup insert intent_digest validate_intent valid_identifier validate_intent_escrow
    normalize_address canonical_address address_pattern nonce_pattern hex_pattern to_lower
    trim_space trim_front space_width back_space_width canonical_positive_integer hex_encode
    hex_digit request_digest decision_state authorization_matches same_action equal_escrow_terms
    validate validate_escrow validate_atomic_amount set_string value parse_positive
    parse_non_negative
released_replay = refl

released_found : lookup (codes "request-1") released_memory.records ≡ some released
unfolding lookup text_eq
released_found = refl

replay-authorized_example :
    (released.state ≡ issued)
    × (authorization_matches outside released payment ≡ true)
    × Granted released
replay-authorized_example =
    replay-authorized outside released_memory (submission ∷ decision ∷ release ∷ [])
      (codes "request-1") released payment released_replay released_found refl
