-- ===== src/ControlPlane/Lifecycle/Issue.antt =====
-- internal/controlplane/lifecycle.go: Issue and issueLocked.
use flowops.Prelude.{
  ℕ, ◌+◌, ◌*◌, ◌/◌, ltb, leb, not, Option, none, some, Text, codes, text_eq, is_some, lookup,
  Result, ok, err, if◌then◌else◌,
}
use flowops.Envelope.Types.{EscrowTerms, EscrowPointer, Authorization, SignedAuthorization}
use flowops.Envelope.Validate.{authorization_version}
use flowops.Envelope.Sign.{sign}
use flowops.ControlPlane.Intent.{Record, Outside}
use flowops.ControlPlane.Memory.{Event, issued_payload, is_approved}
use flowops.ControlPlane.Budget.{second, is_issued}
use flowops.ControlPlane.Lifecycle.{
  Plane, Config, Answers, LifecycleError, unknown_request, not_approved, policy_unavailable,
  policy_changed, frozen, chain_unavailable, no_authorization_id, no_nonce, acknowledgement_elapsed,
  not_signed, authorization_exists, nonce_exists, append_event, expire, has_expired, expired_result,
}

-- time.After, and the earlier of two times
abbrev pub earlier : ℕ → ℕ → ℕ
earlier t limit = if ltb limit t then limit else t

-- The escrow terms' share of the expiry; `none` once the acknowledgement deadline has elapsed.
abbrev pub escrow_expiry : ℕ → ℕ → Option EscrowTerms → Option ℕ
escrow_expiry now t none = some t
escrow_expiry now t (some terms) =
    let acknowledge_by = terms.acknowledge_by * second in
    if leb acknowledge_by now then none else some (earlier t acknowledge_by)

abbrev pub copy_terms : ℕ → Option EscrowTerms → Option EscrowPointer
copy_terms address none = none
copy_terms address (some terms) = some (record { address = address; terms = terms })

-- The authorization of a record, which expires at the time `expires_at`.
abbrev pub new_authorization : Answers → Record → Text → Text → ℕ → Authorization
new_authorization ans r authorization_id nonce expires_at = record {
  version = authorization_version;
  authorization_id = authorization_id;
  organization_id = r.intent.organization_id;
  customer_id = r.intent.customer_id;
  agent_id = r.intent.agent_id;
  task_id = r.intent.task_id;
  action_id = r.intent.action_id;
  rail = r.intent.rail;
  chain_id = r.intent.chain_id;
  recipient = r.intent.recipient;
  asset = r.intent.asset;
  amount_atomic = r.intent.amount_atomic;
  resource = r.intent.resource;
  policy_version = r.decision.policy_version;
  nonce = nonce;
  issued_at = ans.now / second;
  expires_at = expires_at / second;
  escrow = copy_terms ans.new_pointer r.intent.escrow;
}

abbrev pub issued_event : Answers → Record → Authorization → Event
issued_event ans r a = record {
  at = ans.now / second;
  request_id = r.request_id;
  payload = issued_payload a;
}

-- The authorization that Issue signs again.
abbrev pub issued_authorization : Record → Option Authorization
issued_authorization r = if is_issued r.state then r.authorization else none

module _ (o : Outside) (cfg : Config) where
  abbrev sign_with_key : Authorization → Result LifecycleError SignedAuthorization
  sign_with_key a = elim (sign o.crypto a cfg.envelope_key_id cfg.envelope_private_key) [
    | err e ↦ err (not_signed e)
    | ok signed ↦ ok signed
  ]

  -- The end of issueLocked, from the signing on.
  unfoldable pub issue_authorization :
      Answers → Record → Authorization → Plane → Result LifecycleError SignedAuthorization × Plane
  issue_authorization ans r a w = elim (sign_with_key a) [
    | err e ↦ (err e, w)
    | ok signed ↦
        if is_some (lookup a.authorization_id w.memory.request_by_authorization)
        then (err authorization_exists, w)
        else if is_some (lookup a.nonce w.memory.request_by_nonce)
        then (err nonce_exists, w)
        else (let (result, w') = append_event o ans.append (issued_event ans r a) w in
            (elim result [ err e ↦ err e | ok _ ↦ ok signed ], w'))
  ]

  -- issueLocked from the expiry on.
  unfoldable pub issue_with :
      Answers → Record → Text → Text → Plane → Result LifecycleError SignedAuthorization × Plane
  issue_with ans r authorization_id nonce w =
      let t = earlier (ans.now + cfg.authorization_ttl) (r.approval_expires_at * second) in
      elim (escrow_expiry ans.now t r.intent.escrow) [
        | none ↦ (err acknowledgement_elapsed, w)
        | some expires_at ↦
            issue_authorization ans r (new_authorization ans r authorization_id nonce expires_at) w
      ]

  unfoldable pub issue_locked :
      Answers → Record → Plane → Result LifecycleError SignedAuthorization × Plane
  issue_locked ans r w = elim ans.active_version [
    | none ↦ (err policy_unavailable, w)
    | some active ↦
        if not (text_eq active r.decision.policy_version)
        then (err policy_changed, w)
        else if not ans.chain_passes
        then (err chain_unavailable, w)
        else elim ans.new_authorization_id [
          | none ↦ (err no_authorization_id, w)
          | some authorization_id ↦ elim ans.new_nonce [
            | none ↦ (err no_nonce, w)
            | some nonce ↦ issue_with ans r authorization_id nonce w
          ]
        ]
  ]

  -- Issue for a record that has no authorization yet. A freeze gate runs the rest or refuses.
  unfoldable pub issue_approved :
      Answers → Record → Plane → Result LifecycleError SignedAuthorization × Plane
  issue_approved ans r w =
      if not (is_approved r.state)
      then (err not_approved, w)
      else if has_expired ans r
      then (let (result, w') = expire o ans r (codes "approval window elapsed before issuance") w in
          (err (expired_result result), w'))
      else if not ans.freeze_passes
      then (err frozen, w)
      else issue_locked ans r w

  -- The method Issue.
  unfoldable pub issue : Answers → Text → Plane → Result LifecycleError SignedAuthorization × Plane
  issue ans request_id w = elim (lookup request_id w.memory.records) [
    | none ↦ (err unknown_request, w)
    | some r ↦ elim (issued_authorization r) [
      | none ↦ issue_approved ans r w
      | some a ↦ if not ans.chain_passes then (err chain_unavailable, w) else (sign_with_key a, w)
    ]
  ]
