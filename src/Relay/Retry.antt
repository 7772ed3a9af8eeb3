-- ===== src/Relay/Retry.antt =====
-- What the kernel needs to let the same Safe transaction be sent again.
use flowops.Prelude.{
  ℕ, ◌+◌, ◌≤◌, ◌≡◌, refl, true, false, not, ◌||◌, Text, text_eq, length, text_eq_iff, ok,
  Option-cases, Bool-cases, inl, inr, ◌⊎◌, arith,
}
use flowops.AssetHealth.Evaluate.{minute}
use flowops.Workflow.Grammar.{distinct}
use flowops.Relay.Observers.{observers-distinct}
use flowops.Relay.Types.{
  Prepared, Outcome, pending, dropped, reorged, mined_revert, finalized, no_outcome,
  OutcomeEvidence, retry_exact,
}
use flowops.Relay.Kernel.{
  observer_quorum, validate_outcome, drift, after_absence, classify, decide_retry,
}

-- The evidence that the transaction is gone and that the Safe stands as it did.
pub record IsAbsent (p : Prepared) (outer : Text) (e : OutcomeEvidence) (quorum now : ℕ)
    : Type 0 where
  pub outcome : (e.outcome ≡ dropped) ⊎ (e.outcome ≡ reorged)
  pub canonical : e.previous_canonical ≡ false
  pub same_outer : e.outer_transaction_hash ≡ outer
  pub workflow : e.workflow_id ≡ p.workflow_id
  pub chain : e.chain_id ≡ p.transaction.chain_id
  pub safe : e.safe_address ≡ p.transaction.safe
  pub nonce : e.current_safe_nonce ≡ p.transaction.nonce
  pub payload : e.verified_payload_hash ≡ p.payload_hash
  pub safe_tx : e.safe_tx_hash ≡ p.safe_tx_hash
  pub calldata : e.exec_calldata_hash ≡ p.exec_calldata_hash
  pub observers : (2 ≤ quorum) × (quorum ≤ length e.observers)
  pub different : distinct e.observers ≡ true
  pub recent : (now ≤ e.observed_at + minute) × (e.observed_at ≤ now + minute)

classify-retry :
    (u : Text → Text) (o : Outcome) (p : Prepared) (e : OutcomeEvidence)
    → classify u o p e ≡ ok retry_exact
    → ((o ≡ dropped) ⊎ (o ≡ reorged)) × (after_absence u p e ≡ ok retry_exact)
classify-retry u pending p e h = elim (Option-cases (drift u p e)) [
  | inl d ↦ absurd (ground arith)
  | inr (r, d) ↦ absurd (ground arith)
]
classify-retry u dropped p e h = (inl refl, h)
classify-retry u reorged p e h = (inr refl, h)
classify-retry u mined_revert p e h = absurd (ground arith)
classify-retry u finalized p e h = absurd (ground arith)
classify-retry u no_outcome p e h = absurd (ground arith)

after_absence-retry :
    (u : Text → Text) (p : Prepared) (e : OutcomeEvidence)
    → after_absence u p e ≡ ok retry_exact
    → (e.previous_canonical ≡ false)
      × (e.current_safe_nonce ≡ p.transaction.nonce)
      × (e.verified_payload_hash ≡ p.payload_hash)
after_absence-retry u p e h = elim (Option-cases (drift u p e)) [
  | inr (r, d) ↦ absurd (ground arith)
  | inl d ↦ (
    ground arith,
    ground arith,
    ground (arith, text_eq_iff e.verified_payload_hash p.payload_hash),
  )
]

-- DecideRetry lets the same Safe transaction be sent again only on recent evidence of a quorum of
-- pairwise different observers that its last outer transaction was dropped or reorganized away and
-- is not canonical, while the Safe's nonce and the action's payload stand as they were prepared.
pub decide_retry-exact :
    (u : Text → Text) (p : Prepared) (outer : Text) (e : OutcomeEvidence) (quorum now : ℕ)
    → decide_retry u p outer e quorum now ≡ ok retry_exact
    → IsAbsent p outer e quorum now
unfolding decide_retry validate_outcome observer_quorum
decide_retry-exact u p outer e quorum now h =
    elim (Bool-cases (validate_outcome u p outer e quorum now)) [
      | inr a ↦ absurd (ground arith)
      | inl a ↦
          elim (Bool-cases (
            not (text_eq e.safe_tx_hash p.safe_tx_hash)
            || not (text_eq e.exec_calldata_hash p.exec_calldata_hash))) [
              | inl b ↦ absurd (ground arith)
              | inr b ↦
                  let (o, g) = classify-retry u e.outcome p e (ground arith) in
                  let (c, n, q) = after_absence-retry u p e g in
                  record {
                    outcome = o;
                    canonical = c;
                    same_outer = ground (arith, text_eq_iff e.outer_transaction_hash outer);
                    workflow = ground (arith, text_eq_iff e.workflow_id p.workflow_id);
                    chain = ground arith;
                    safe = ground (arith, text_eq_iff e.safe_address p.transaction.safe);
                    nonce = n;
                    payload = q;
                    safe_tx = ground (arith, text_eq_iff e.safe_tx_hash p.safe_tx_hash);
                    calldata =
                        ground (arith, text_eq_iff e.exec_calldata_hash p.exec_calldata_hash);
                    observers = (ground arith, ground arith);
                    different = observers-distinct e.observers (ground arith);
                    recent = (ground arith, ground arith);
                  }
            ]
    ]
