-- ===== src/Relay/Kernel.antt =====
-- internal/ascpgovernancerelay/kernel.go: the checks of evidence, and what they decide.
use flowops.Prelude.{
  ℕ, ◌+◌, ltb, leb, ◌==◌, Bool, true, false, not, ◌||◌, ◌&&◌, Option, none, some, List, [], ◌∷◌,
  ◌++◌, Text, codes, text_eq, all, length, Result, ok, err, if◌then◌else◌,
}
use flowops.Amount.{big_string}
use flowops.Strings.Sorted.{text_ltb, sort_texts}
use flowops.Workflow.Grammar.{identifier}
use flowops.Workflow.Types.{TerminalReason, safe_nonce_conflict, precondition_changed, mined_revert}
use flowops.AssetHealth.Evaluate.{minute, canonical_hash, canonical_address}
use flowops.Relay.Types.{
  Command, Snapshot, Prepared, Outcome, pending, dropped, reorged, finalized, no_outcome,
  OutcomeEvidence, Decision, wait, retry_exact, finished, reapprove, RelayError, invalid_snapshot,
  invalid_outcome, insufficient_quorum,
}
use flowops.Relay.Types as Types

-- The sorted texts are identifiers, and no two neighbours are the same.
abbrev pub are_observers : List Text → Bool
are_observers [] = true
are_observers (v ∷ []) = identifier v
are_observers (v ∷ w ∷ vs) = identifier v && not (text_eq v w) && are_observers (w ∷ vs)

-- observerQuorum; the sorted texts themselves serve only for their number.
unfoldable pub observer_quorum : List Text → ℕ → Bool
observer_quorum values minimum =
    not (ltb minimum 2)
    && not (ltb 5 minimum)
    && not (ltb (length values) minimum)
    && not (ltb 5 (length values))
    && are_observers (sort_texts values)

abbrev pub ascending : List Text → Bool
ascending [] = true
ascending (v ∷ []) = true
ascending (v ∷ w ∷ vs) = text_ltb v w && ascending (w ∷ vs)

module _ (unicode_lower : Text → Text) where
  unfoldable pub canonical_owner_snapshot : List Text → ℕ → Bool
  canonical_owner_snapshot owners threshold =
      threshold == 2
      && length owners == 3
      && all (canonical_address unicode_lower) owners
      && ascending owners

  -- The evidence was observed within a minute of `now`.
  abbrev pub is_recent : ℕ → ℕ → Bool
  is_recent observed_at now =
      not (observed_at == 0)
      && not (ltb (now + minute) observed_at)
      && not (ltb (observed_at + minute) now)

  unfoldable pub validate_snapshot : Command → Text → Snapshot → ℕ → ℕ → Bool
  validate_snapshot command safe_address s quorum now =
      observer_quorum s.observers quorum
      && s.chain_id == command.chain_id
      && text_eq s.safe_address safe_address
      && canonical_address unicode_lower safe_address
      && canonical_hash unicode_lower s.verified_payload_hash
      && canonical_hash unicode_lower s.block_hash
      && canonical_hash unicode_lower s.evidence_digest
      && not (s.block_number == 0)
      && not (ltb s.confirmed_head s.block_number)
      && not (ltb s.block_timestamp command.execute_after)
      && is_recent s.observed_at now
      && canonical_owner_snapshot s.owners s.threshold

  abbrev pub needs_canonical : Outcome → Bool
  needs_canonical pending = true
  needs_canonical Types.mined_revert = true
  needs_canonical finalized = true
  needs_canonical _ = false

  unfoldable pub validate_outcome : Prepared → Text → OutcomeEvidence → ℕ → ℕ → Bool
  validate_outcome p outer_transaction_hash e quorum now =
      observer_quorum e.observers quorum
      && text_eq e.workflow_id p.workflow_id
      && text_eq e.outer_transaction_hash outer_transaction_hash
      && canonical_hash unicode_lower outer_transaction_hash
      && e.chain_id == p.transaction.chain_id
      && text_eq e.safe_address p.transaction.safe
      && canonical_hash unicode_lower e.safe_tx_hash
      && canonical_hash unicode_lower e.exec_calldata_hash
      && canonical_hash unicode_lower e.verified_payload_hash
      && canonical_hash unicode_lower e.block_hash
      && canonical_hash unicode_lower e.evidence_digest
      && not (e.block_number == 0)
      && not (ltb e.confirmed_head e.block_number)
      && is_recent e.observed_at now
      && (not (needs_canonical e.outcome) || e.previous_canonical)

  -- The Safe and the action have moved on.
  abbrev pub drift : Prepared → OutcomeEvidence → Option TerminalReason
  drift p e =
      if not (e.current_safe_nonce == p.transaction.nonce)
      then some safe_nonce_conflict
      else if not (text_eq e.verified_payload_hash p.payload_hash)
      then some precondition_changed
      else none

  abbrev pub after_absence : Prepared → OutcomeEvidence → Result RelayError Decision
  after_absence p e = elim (drift p e) [
    | some reason ↦ ok (reapprove reason)
    | none ↦ if e.previous_canonical then err invalid_outcome else ok retry_exact
  ]

  -- The switch of DecideRetry.
  abbrev pub classify : Outcome → Prepared → OutcomeEvidence → Result RelayError Decision
  classify pending p e = elim (drift p e) [ some reason ↦ ok (reapprove reason) | none ↦ ok wait ]
  classify dropped p e = after_absence p e
  classify reorged p e = after_absence p e
  classify Types.mined_revert p e =
      if ltb e.current_safe_nonce p.transaction.nonce
      then err invalid_outcome
      else ok (reapprove mined_revert)
  classify finalized p e =
      if leb e.current_safe_nonce p.transaction.nonce
        || not (text_eq e.verified_payload_hash p.payload_hash)
      then err invalid_outcome
      else ok finished
  classify no_outcome p e = err invalid_outcome

  unfoldable pub decide_retry :
      Prepared → Text → OutcomeEvidence → ℕ → ℕ → Result RelayError Decision
  decide_retry p outer_transaction_hash e quorum now =
      if not (validate_outcome p outer_transaction_hash e quorum now)
      then err invalid_outcome
      else if not (text_eq e.safe_tx_hash p.safe_tx_hash)
          || not (text_eq e.exec_calldata_hash p.exec_calldata_hash)
      then err invalid_outcome
      else classify e.outcome p e

abbrev pub each_behind_zero : List Text → Text
each_behind_zero [] = []
each_behind_zero (v ∷ vs) = 0 ∷ (v ++ each_behind_zero vs)

module _ (unicode_lower hash_bytes : Text → Text) where
  unfoldable pub owner_set_hash : List Text → ℕ → Text
  owner_set_hash owners threshold =
      hash_bytes
        (codes "ASCP_SAFE_OWNER_SET_V1" ++ 0 ∷ big_string threshold ++ each_behind_zero owners)

  unfoldable pub validate_relay_snapshot :
      Command → Prepared → Snapshot → ℕ → ℕ → Result RelayError Decision
  validate_relay_snapshot command p s quorum now =
      if not (quorum == p.evidence_quorum)
      then ok (reapprove precondition_changed)
      else if not (validate_snapshot unicode_lower command p.transaction.safe s quorum now)
      then err invalid_snapshot
      else if ltb (length s.observers) quorum || ltb quorum 2 || ltb 5 quorum
      then err insufficient_quorum
      else if not (s.safe_nonce == p.transaction.nonce)
      then ok (reapprove safe_nonce_conflict)
      else if not (text_eq s.verified_payload_hash p.payload_hash)
      then ok (reapprove precondition_changed)
      else if not (text_eq (owner_set_hash s.owners s.threshold) p.owner_set_hash)
      then ok (reapprove precondition_changed)
      else ok retry_exact
