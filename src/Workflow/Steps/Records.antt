-- ===== src/Workflow/Steps/Records.antt =====
-- The effects of the methods of the service for the relayer and the observer.
use flowops.Prelude.{
  ◌/◌, not, ◌||◌, ◌&&◌, Text, is_empty, Option-cases, Bool-cases, inl, inr, arith,
}
use flowops.Workflow.Types.{
  State, finalized, state_eq, TerminalReason, Workflow, CompletionReceipt, SafeRetryProof,
}
use flowops.Workflow.Rules.{second, valid_chain_failure}
use flowops.Workflow.Store.{MemoryStore, get}
use flowops.Workflow.Chain.{completion_candidate_state}
use flowops.Workflow.Binding.{Outside, Answers}
use flowops.Workflow.Boundary.{
  record_submission, record_proven_retry, record_confirmation, complete_observed,
  observe_and_complete, record_chain_failure,
}
use flowops.Workflow.Steps.{Effect, keeps, same-Effect}
use flowops.Workflow.Boundary.{well_named, receipt_fits}
use flowops.Workflow.Rules.{valid_safe_retry_proof}
use flowops.Workflow.Grammar.{hash}
use flowops.Workflow.Steps.Chain.{
  submit-Effect, retry_submission-Effect, confirm-Effect, fail_chain-Effect, complete-Effect,
}

module _ (o : Outside) where
  pub record_submission-Effect :
      (ans : Answers) (org id hash_text : Text) (s : MemoryStore)
      → Effect o s (record_submission o ans org id hash_text s).1
  unfolding record_submission
  record_submission-Effect ans org id h s =
      elim (Bool-cases (not (well_named o org id) || not (hash o.unicode_lower h))) [
        | inl a ↦ keeps (ground arith) (ground arith)
        | inr a ↦ same-Effect (submit-Effect o org id h (ans.now / second) s) (ground arith)
      ]

  pub record_proven_retry-Effect :
      (ans : Answers) (org id hash_text : Text) (proof : SafeRetryProof) (s : MemoryStore)
      → Effect o s (record_proven_retry o ans org id hash_text proof s).1
  unfolding record_proven_retry
  record_proven_retry-Effect ans org id h proof s =
      elim (Bool-cases (
        not (well_named o org id)
        || not (hash o.unicode_lower h)
        || not (valid_safe_retry_proof o.unicode_lower id h proof (ans.now / second)))) [
          | inl a ↦ keeps (ground arith) (ground arith)
          | inr a ↦
              same-Effect
                (retry_submission-Effect o o.unicode_lower org id h proof (ans.now / second) s)
                (ground arith)
        ]

  pub record_confirmation-Effect :
      (ans : Answers) (org id hash_text : Text) (s : MemoryStore)
      → Effect o s (record_confirmation o ans org id hash_text s).1
  unfolding record_confirmation
  record_confirmation-Effect ans org id h s =
      elim (Bool-cases (not (well_named o org id) || not (hash o.unicode_lower h))) [
        | inl a ↦ keeps (ground arith) (ground arith)
        | inr a ↦ same-Effect (confirm-Effect o org id h (ans.now / second) s) (ground arith)
      ]

  pub record_chain_failure-Effect :
      (ans : Answers) (org id : Text) (state : State) (reason : TerminalReason) (s : MemoryStore)
      → Effect o s (record_chain_failure o ans org id state reason s).1
  unfolding record_chain_failure
  record_chain_failure-Effect ans org id state reason s =
      elim (Bool-cases (not (well_named o org id) || not (valid_chain_failure state reason))) [
        | inl a ↦ keeps (ground arith) (ground arith)
        | inr a ↦
            same-Effect (fail_chain-Effect o org id state reason (ans.now / second) s)
              (ground arith)
      ]

  complete_observed-Effect :
      (ans : Answers) (org id : Text) (w : Workflow) (r : CompletionReceipt) (s : MemoryStore)
      → Effect o s (complete_observed o ans org id w r s).1
  unfolding complete_observed
  complete_observed-Effect ans org id w r s = elim (Bool-cases (not (receipt_fits o w r))) [
    | inl a ↦ keeps (ground arith) (ground arith)
    | inr a ↦ elim (Bool-cases (not ans.authority_passes)) [
      | inl b ↦ keeps (ground arith) (ground arith)
      | inr b ↦ same-Effect (complete-Effect o org id r (ans.now / second) s) (ground arith)
    ]
  ]

  pub observe_and_complete-Effect :
      (ans : Answers) (org id : Text) (s : MemoryStore)
      → Effect o s (observe_and_complete o ans org id s).1
  unfolding observe_and_complete
  observe_and_complete-Effect ans org id s =
      elim (Bool-cases (not ans.has_observer || not (well_named o org id))) [
        | inl a ↦ keeps (ground arith) (ground arith)
        | inr a ↦ elim (Option-cases (get org id s)) [
          | inl g ↦ keeps (ground arith) (ground arith)
          | inr (w, g) ↦
              elim (Bool-cases (
                state_eq w.state finalized && not (is_empty w.completion_digest)
                || not (completion_candidate_state w.state))) [
                  | inl b ↦ keeps (ground arith) (ground arith)
                  | inr b ↦ elim (Option-cases ans.observed) [
                    | inl c ↦ keeps (ground arith) (ground arith)
                    | inr (r, c) ↦
                        same-Effect (complete_observed-Effect ans org id w r s) (ground arith)
                  ]
                ]
        ]
      ]
