-- ===== src/Workflow/Pending.antt =====
-- internal/ascpworkflow/memory.go: Pending, the page of workflows that wait for their receipt.
use flowops.Prelude.{
  ℕ, zero, suc, ltb, ◌==◌, Bool, true, not, ◌||◌, ◌&&◌, Option, none, some, List, [], ◌∷◌, Text,
  is_empty, lookup, values, Result, ok, err, if◌then◌else◌,
}
use flowops.Strings.Sorted.{text_ltb}
use flowops.Workflow.Grammar.{hash}
use flowops.Workflow.Types.{Workflow, WorkflowError, invalid_workflow}
use flowops.Workflow.Store.{MemoryStore}
use flowops.Workflow.Chain.{active_chain_state, chain_side_state}

unfoldable pub completion_candidate : Workflow → Bool
completion_candidate w =
    active_chain_state w.state || chain_side_state w.state && not (is_empty w.submission_tx_hash)

-- By the time of the approval, and then by the identifier.
unfoldable pub is_before : ℕ → Text → Workflow → Bool
is_before approved_at workflow_id w =
    ltb approved_at w.approved_at
    || approved_at == w.approved_at && text_ltb workflow_id w.workflow_id

unfoldable pub insert_pending : Workflow → List Workflow → List Workflow
insert_pending w [] = w ∷ []
insert_pending w (v ∷ vs) =
    let rest = insert_pending w vs in
    if is_before v.approved_at v.workflow_id w then v ∷ rest else w ∷ v ∷ vs

abbrev pub is_behind : Option (ℕ × Text) → Workflow → Bool
is_behind none w = true
is_behind (some (approved_at, workflow_id)) w = is_before approved_at workflow_id w

-- The candidates among the workflows, in order, behind the cursor if there is one.
unfoldable pub collect : Option (ℕ × Text) → List Workflow → List Workflow
collect cursor [] = []
collect cursor (w ∷ ws) =
    let rest = collect cursor ws in
    if completion_candidate w && is_behind cursor w then insert_pending w rest else rest

unfoldable pub take_first : ℕ → List Workflow → List Workflow
take_first zero ws = []
take_first (suc n) [] = []
take_first (suc n) (w ∷ ws) = w ∷ take_first n ws

-- The method Pending; an empty `after_workflow_id` starts at the first page.
unfoldable pub list_pending :
    (Text → Text) → ℕ → Text → MemoryStore → Result WorkflowError (List Workflow)
list_pending unicode_lower limit after_workflow_id s =
    if ltb limit 1
      || ltb 1000 limit
      || (not (is_empty after_workflow_id) && not (hash unicode_lower after_workflow_id))
    then err invalid_workflow
    else if is_empty after_workflow_id
    then ok (take_first limit (collect none (values s.workflows)))
    else elim (lookup after_workflow_id s.workflows) [
      | none ↦ err invalid_workflow
      | some cursor ↦
          if cursor.approved_at == 0
          then err invalid_workflow
          else ok (
              take_first limit
                (collect (some (cursor.approved_at, after_workflow_id)) (values s.workflows)))
    ]
