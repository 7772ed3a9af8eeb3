-- ===== src/ControlPlane/Lifecycle/Consistency/ClockBehind.antt =====
-- An issuance while the wall clock stands before the second of the submission.
use flowops.Prelude.{
  ℕ, ◌/◌, ◌<◌, ◌≡◌, ◌≢◌, true, false, some, [], ◌∷◌, ◌++◌, Text, is_some, lookup, ok, err,
  Result-cases, Bool-cases, inl, inr, arith,
}
use flowops.Envelope.Types.{Authorization, SignedAuthorization}
use flowops.Envelope.Validate.{validate}
use flowops.Envelope.Sign.{sign}
use flowops.ControlPlane.Intent.{Record, Outside}
use flowops.ControlPlane.Memory.{
  Memory, authorization_mismatch, is_approved, same_action, authorization_matches, apply_issued,
  apply_payload, apply_event, replay, empty_memory,
}
use flowops.ControlPlane.Budget.{second}
use flowops.ControlPlane.Lifecycle.{
  Plane, Config, kept, Answers, not_applied, write_event, append_event, has_expired,
}
use flowops.ControlPlane.Lifecycle.Issue.{new_authorization, issued_event, issue_authorization}
use flowops.ControlPlane.Lifecycle.Consistency.{IsRecoverable, replay-append}
use flowops.ControlPlane.Lifecycle.Consistency.Applies.{seconds_before}

module _ (o : Outside) (cfg : Config) (ans : Answers) (r : Record) (authorization_id nonce : Text)
    (t : ℕ) where
  abbrev a : Authorization
  a = new_authorization ans r authorization_id nonce t

  unmatched : ans.now / second < r.submitted_at → authorization_matches o r a ≡ false
  unfolding authorization_matches
  unmatched h = elim (Result-cases (validate o.crypto.keccak a)) [
    | inr (e, v) ↦ ground arith
    | inl (u, v) ↦ elim (Bool-cases (same_action a r.intent)) [
      | inl q ↦ ground arith
      | inr q ↦ ground arith
    ]
  ]

  refused_event :
      (m : Memory)
      → lookup r.request_id m.records ≡ some r
      → is_approved r.state ≡ true
      → has_expired ans r ≡ false
      → ans.now / second < r.submitted_at
      → apply_event o (issued_event ans r a) m ≡ err authorization_mismatch
  unfolding apply_event apply_payload apply_issued
  refused_event m l p x h =
      ground (arith, unmatched h, seconds_before ans.now r.approval_expires_at)

  replay-refused :
      (w : Plane) (m : Memory)
      → IsRecoverable o w
      → w.faulted ≡ false
      → apply_event o (issued_event ans r a) w.memory ≡ err authorization_mismatch
      → replay o empty_memory (w.events ++ issued_event ans r a ∷ []) ≢ ok m
  unfolding replay
  replay-refused w m good f h = λ k. ground (
    arith,
    replay-append o empty_memory w.memory w.events (issued_event ans r a) (good.current f),
  )

  -- If an approved record's authorization is issued while the clock stands before the second of the
  -- submission, the checks before the append pass and the append succeeds, then the call fails
  -- behind it, and the journal's file, which could be replayed before, cannot be replayed any more.
  pub issue_authorization-clock_behind :
      (s : SignedAuthorization) (w : Plane)
      → IsRecoverable o w
      → w.faulted ≡ false
      → ans.append ≡ kept
      → lookup r.request_id w.memory.records ≡ some r
      → is_approved r.state ≡ true
      → has_expired ans r ≡ false
      → ans.now / second < r.submitted_at
      → sign o.crypto a cfg.envelope_key_id cfg.envelope_private_key ≡ ok s
      → is_some (lookup authorization_id w.memory.request_by_authorization) ≡ false
      → is_some (lookup nonce w.memory.request_by_nonce) ≡ false
      → ((issue_authorization o cfg ans r a w).0 ≡ err (not_applied authorization_mismatch))
        × ((m : Memory)
            → replay o empty_memory (issue_authorization o cfg ans r a w).1.events ≢ ok m)
  unfolding issue_authorization append_event write_event
  issue_authorization-clock_behind s w good f ap l p x h g i j =
      let e = refused_event w.memory l p x h in
      (ground arith, λ m k. replay-refused w m good f e (ground arith))
