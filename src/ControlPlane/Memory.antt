-- ===== src/ControlPlane/Memory.antt =====
-- internal/controlplane/lifecycle.go: applyEvent, which builds the records and indexes from the
-- events of the journal.
pub mod Authorized
use flowops.Prelude.{
  ℕ, ltb, leb, ◌==◌, Bool, true, false, not, ◌||◌, ◌&&◌, Option, none, some, List, [], ◌∷◌, ◌++◌,
  Text, text_eq, is_some, is_empty, length, Table, lookup, insert, Result, ok, err, ◌>>=◌, ◌>>◌,
  map_err, fail_if, if◌then◌else◌,
}
use flowops.Strings.{trim_space}
use flowops.Envelope.Grammar.{valid_identifier}
use flowops.Envelope.Types.{EscrowTerms, EscrowPointer, Authorization}
use flowops.Envelope.Validate.{validate}
use flowops.ControlPlane.Intent.{
  PaymentIntent, State, denied, pending_approval, approved, rejected, issued, expired,
  ApprovalAction, approve, reject, unknown_action, Approval, Record, Outside, intent_digest,
  request_digest, decision_state, state_eq,
}

pub data Payload : Type 0 where
  submitted_payload : Record → Payload
  approval_payload : Approval → Payload
  issued_payload : Authorization → Payload
  expired_payload : Text → Payload
  unreadable : Payload

-- What the lifecycle reads of an event of the journal.
pub record Event : Type 0 where
  pub at : ℕ
  pub request_id : Text
  pub payload : Payload

pub record Memory : Type 0 where
  pub records : Table Record
  pub request_by_intent : Table Text
  pub request_by_authorization : Table Text
  pub request_by_nonce : Table Text

abbrev pub empty_memory : Memory
empty_memory = record {
  records = [];
  request_by_intent = [];
  request_by_authorization = [];
  request_by_nonce = [];
}

pub data EventError : Type 0 where
  identity_mismatch duplicate_request duplicate_intent bad_intent_digest bad_request_digest :
      EventError
  state_mismatch bad_approval bad_issuance authorization_mismatch duplicate_authorization :
      EventError
  duplicate_nonce bad_expiry unknown_event : EventError

-- organizationID + "\x00" + intentID
abbrev pub scoped_intent_key : Text → Text → Text
scoped_intent_key organization_id intent_id = organization_id ++ 0 ∷ intent_id

unfoldable pub terms_eq : EscrowTerms → EscrowTerms → Bool
terms_eq s t =
    text_eq s.contract t.contract
    && text_eq s.buyer t.buyer
    && text_eq s.provider t.provider
    && text_eq s.call_id t.call_id
    && text_eq s.task_digest t.task_digest
    && text_eq s.request_digest t.request_digest
    && s.acknowledge_by == t.acknowledge_by
    && s.deliver_by == t.deliver_by
    && s.release_window == t.release_window

unfoldable pub equal_escrow_terms : Option EscrowPointer → Option EscrowTerms → Bool
unfolding terms_eq
equal_escrow_terms none none = true
equal_escrow_terms none (some _) = false
equal_escrow_terms (some _) none = false
equal_escrow_terms (some p) (some t) = terms_eq p.terms t

-- What an authorization repeats of the intent, field by field.
unfoldable pub same_action : Authorization → PaymentIntent → Bool
same_action a i =
    text_eq a.organization_id i.organization_id
    && text_eq a.customer_id i.customer_id
    && text_eq a.agent_id i.agent_id
    && text_eq a.task_id i.task_id
    && text_eq a.action_id i.action_id
    && text_eq a.rail i.rail
    && a.chain_id == i.chain_id
    && text_eq a.recipient i.recipient
    && text_eq a.asset i.asset
    && text_eq a.amount_atomic i.amount_atomic
    && text_eq a.resource i.resource
    && equal_escrow_terms a.escrow i.escrow

abbrev pub is_pending : State → Bool
is_pending pending_approval = true
is_pending _ = false

abbrev pub is_approved : State → Bool
is_approved approved = true
is_approved _ = false

module _ (o : Outside) where
  unfoldable pub authorization_matches : Record → Authorization → Bool
  authorization_matches r a = elim (validate o.crypto.keccak a) [
    | err _ ↦ false
    | ok _ ↦
        same_action a r.intent
        && text_eq a.policy_version r.decision.policy_version
        && leb r.submitted_at a.issued_at
        && leb a.expires_at r.approval_expires_at
  ]

  -- The state of a submitted record is the one of its decision, and nothing was decided yet.
  abbrev pub fresh_state : Record → Bool
  fresh_state r = elim (decision_state r.decision.outcome) [
    | none ↦ false
    | some s ↦ state_eq s r.state && not (is_some r.approval) && not (is_some r.authorization)
  ]

  unfoldable pub apply_submitted : Event → Record → Memory → Result EventError Memory
  apply_submitted e r m =
      let key = scoped_intent_key r.intent.organization_id r.intent.intent_id in
      do
        fail_if (not (text_eq e.request_id r.request_id) || not (e.at == r.submitted_at))
            identity_mismatch
        fail_if (is_some (lookup r.request_id m.records)) duplicate_request
        fail_if (is_some (lookup key m.request_by_intent)) duplicate_intent
        elim (intent_digest o r.intent) [
          | err _ ↦ err bad_intent_digest
          | ok d ↦ fail_if (not (text_eq d r.intent_digest)) bad_intent_digest
        ]
        fail_if
            (not (
              text_eq
                (request_digest o r.request_id r.intent_digest r.decision r.approval_expires_at)
                r.request_digest))
            bad_request_digest
        fail_if (not (fresh_state r)) state_mismatch
        ok (record m {
          records = insert r.request_id r m.records;
          request_by_intent = insert key r.request_id m.request_by_intent;
        })

  -- The state that a decision leads to.
  abbrev pub decided_state : ApprovalAction → Option State
  decided_state approve = some approved
  decided_state reject = some rejected
  decided_state unknown_action = none

  unfoldable pub apply_approval : Event → Approval → Memory → Result EventError Memory
  apply_approval e approval m = elim (lookup e.request_id m.records) [
    | none ↦ err bad_approval
    | some r ↦ do
      fail_if
          (not (is_pending r.state)
            || not (text_eq approval.request_digest r.request_digest)
            || not (approval.decided_at == e.at)
            || not (ltb e.at r.approval_expires_at)
            || not (valid_identifier approval.actor)
            || ltb 2048 (length approval.note))
          bad_approval
      elim (decided_state approval.action) [
        | none ↦ err bad_approval
        | some s ↦ ok (record m {
          records =
              insert e.request_id (record r { state = s; approval = some approval }) m.records;
        })
      ]
  ]

  unfoldable pub apply_issued : Event → Authorization → Memory → Result EventError Memory
  apply_issued e a m = elim (lookup e.request_id m.records) [
    | none ↦ err bad_issuance
    | some r ↦ do
      fail_if
          (not (is_approved r.state)
            || not (a.issued_at == e.at)
            || not (ltb e.at r.approval_expires_at))
          bad_issuance
      fail_if (not (authorization_matches r a)) authorization_mismatch
      fail_if (is_some (lookup a.authorization_id m.request_by_authorization))
          duplicate_authorization
      fail_if (is_some (lookup a.nonce m.request_by_nonce)) duplicate_nonce
      ok (record m {
        records =
            insert e.request_id (record r { state = issued; authorization = some a }) m.records;
        request_by_authorization =
            insert a.authorization_id e.request_id m.request_by_authorization;
        request_by_nonce = insert a.nonce e.request_id m.request_by_nonce;
      })
  ]

  unfoldable pub apply_expired : Event → Text → Memory → Result EventError Memory
  apply_expired e reason m = elim (lookup e.request_id m.records) [
    | none ↦ err bad_expiry
    | some r ↦ do
      fail_if
          (is_empty (trim_space reason)
            || not (is_pending r.state) && not (is_approved r.state)
            || ltb e.at r.approval_expires_at)
          bad_expiry
      ok (record m { records = insert e.request_id (record r { state = expired }) m.records })
  ]

  unfoldable pub apply_payload : Payload → Event → Memory → Result EventError Memory
  unfolding apply_submitted apply_approval apply_issued apply_expired
  apply_payload (submitted_payload r) e m = apply_submitted e r m
  apply_payload (approval_payload a) e m = apply_approval e a m
  apply_payload (issued_payload a) e m = apply_issued e a m
  apply_payload (expired_payload reason) e m = apply_expired e reason m
  apply_payload unreadable e m = err unknown_event

  -- The method applyEvent.
  unfoldable pub apply_event : Event → Memory → Result EventError Memory
  unfolding apply_payload
  apply_event e m = apply_payload e.payload e m

  -- The loop of New over the events of the journal.
  unfoldable pub replay : Memory → List Event → Result EventError Memory
  replay m [] = ok m
  replay m (e ∷ events) = elim (apply_event e m) [ err x ↦ err x | ok m' ↦ replay m' events ]
