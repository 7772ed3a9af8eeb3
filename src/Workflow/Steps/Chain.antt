-- ===== src/Workflow/Steps/Chain.antt =====
-- The effects of the methods that record what became of a workflow on the chain.
use flowops.Prelude.{
  ℕ, ltb, refl, not, ◌||◌, ◌&&◌, Text, text_eq, ◌==◌, lookup, Option-cases, Bool-cases, inl, inr,
  arith,
}
use flowops.Workflow.Types.{
  State, reason_code, approved_pending_chain, submitted, confirmed, finalized, state_eq,
  TerminalReason, CompletionReceipt, SafeRetryProof,
}
use flowops.Workflow.Store.{MemoryStore, get}
use flowops.Workflow.Chain.{
  can_retry, in_order, owner_conflict, receipt_key, authorized_receipt_attempt, sent, submit,
  retry_submission, confirmed_at_time, confirm, completion_candidate_state, complete,
  valid_failure_transition, fail_chain,
}
use flowops.Workflow.Binding.{Outside, completion_digest}
use flowops.Workflow.Steps.{
  submits, retries, confirms, fails, Effect, keeps, changes, finalizes, get-lookup,
}

pub submit-Effect :
    (o : Outside) (org id hash : Text) (now : ℕ) (s : MemoryStore)
    → Effect o s (submit org id hash now s).1
unfolding submit
submit-Effect o org id hash now s = elim (Option-cases (get org id s)) [
  | inl g ↦ keeps (ground arith) (ground arith)
  | inr (w, g) ↦
      elim (Bool-cases (state_eq w.state submitted && text_eq w.submission_tx_hash hash)) [
        | inl a ↦ keeps (ground arith) (ground arith)
        | inr a ↦
            elim (Bool-cases
              (not (state_eq w.state approved_pending_chain) || ltb now w.approved_at)) [
                | inl b ↦ keeps (ground arith) (ground arith)
                | inr b ↦
                    changes id w (sent hash now w) (get-lookup org id s w g).0
                      (submits hash now (ground arith) refl) (ground arith) (ground arith)
              ]
      ]
]

pub retry_submission-Effect :
    (o : Outside) (lower : Text → Text) (org id hash : Text) (proof : SafeRetryProof) (now : ℕ)
    (s : MemoryStore)
    → Effect o s (retry_submission lower org id hash proof now s).1
unfolding retry_submission
retry_submission-Effect o lower org id hash proof now s = elim (Option-cases (get org id s)) [
  | inl g ↦ keeps (ground arith) (ground arith)
  | inr (w, g) ↦
      elim (Bool-cases (state_eq w.state submitted && text_eq w.submission_tx_hash hash)) [
        | inl a ↦ keeps (ground arith) (ground arith)
        | inr a ↦ elim (Bool-cases (can_retry lower id hash proof now w)) [
          | inr b ↦ keeps (ground arith) (ground arith)
          | inl b ↦
              changes id w (sent hash now w) (get-lookup org id s w g).0
                (retries hash now (ground arith) refl) (ground arith) (ground arith)
        ]
      ]
]

pub confirm-Effect :
    (o : Outside) (org id hash : Text) (now : ℕ) (s : MemoryStore)
    → Effect o s (confirm org id hash now s).1
unfolding confirm
confirm-Effect o org id hash now s = elim (Option-cases (get org id s)) [
  | inl g ↦ keeps (ground arith) (ground arith)
  | inr (w, g) ↦
      elim (Bool-cases (state_eq w.state confirmed && text_eq w.submission_tx_hash hash)) [
        | inl a ↦ keeps (ground arith) (ground arith)
        | inr a ↦
            elim (Bool-cases (
              not (state_eq w.state submitted)
              || not (text_eq w.submission_tx_hash hash)
              || ltb now w.submitted_at)) [
                | inl b ↦ keeps (ground arith) (ground arith)
                | inr b ↦
                    changes id w (confirmed_at_time now w) (get-lookup org id s w g).0
                      (confirms now (ground arith) refl) (ground arith) (ground arith)
              ]
      ]
]

pub fail_chain-Effect :
    (o : Outside) (org id : Text) (state : State) (reason : TerminalReason) (now : ℕ)
    (s : MemoryStore)
    → Effect o s (fail_chain org id state reason now s).1
unfolding fail_chain
fail_chain-Effect o org id state reason now s = elim (Option-cases (get org id s)) [
  | inl g ↦ keeps (ground arith) (ground arith)
  | inr (w, g) ↦
      elim (Bool-cases
        (state_eq w.state state && reason_code w.terminal_reason == reason_code reason)) [
          | inl a ↦ keeps (ground arith) (ground arith)
          | inr a ↦ elim (Bool-cases (valid_failure_transition w.state state && in_order now w)) [
            | inr b ↦ keeps (ground arith) (ground arith)
            | inl b ↦
                changes id w
                  (record w { state = state; terminal_reason = reason; terminal_at = now })
                  (get-lookup org id s w g).0 (fails state reason now (ground arith) refl)
                  (ground arith) (ground arith)
          ]
        ]
]

pub complete-Effect :
    (o : Outside) (org id : Text) (r : CompletionReceipt) (now : ℕ) (s : MemoryStore)
    → Effect o s (complete org id r (completion_digest o r) (o.marshal_receipt r) now s).1
unfolding complete
complete-Effect o org id r now s = elim (Option-cases (get org id s)) [
  | inl g ↦ keeps (ground arith) (ground arith)
  | inr (w, g) ↦
      elim (Bool-cases
        (state_eq w.state finalized && text_eq w.completion_digest (completion_digest o r))) [
          | inl a ↦ keeps (ground arith) (ground arith)
          | inr a ↦
              elim (Bool-cases (
                not (completion_candidate_state w.state)
                || not (text_eq w.payload_hash r.payload_hash)
                || not (authorized_receipt_attempt w r.transaction_hash s)
                || not (in_order now w))) [
                  | inl b ↦ keeps (ground arith) (ground arith)
                  | inr b ↦
                      elim (Option-cases (
                        owner_conflict id (completion_digest o r)
                          (lookup (receipt_key r) s.receipts))) [
                            | inr (e, c) ↦ keeps (ground arith) (ground arith)
                            | inl c ↦
                                finalizes id w r now (get-lookup org id s w g).0
                                  (record { candidate = ground arith; payload = ground arith })
                                  (ground arith) c (ground arith)
                          ]
                ]
        ]
]
