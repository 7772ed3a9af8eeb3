-- ===== src/Policy/Types.antt =====
-- internal/policy/policy.go: the records of the decision, and its outcomes and reasons.
use flowops.Prelude.{ℕ, Bool, List, Text}
use flowops.Envelope.Grammar.{Rail}

-- `unsupported` is any text that names none of the outcomes; another policy provider may return it.
pub data Outcome : Type 0 where
  deny require_approval auto_approve unsupported : Outcome

pub data Reason : Type 0 where
  allowed policy_disabled unsupported_chain unsupported_rail asset_not_allowed : Reason
  recipient_not_allowed blocked_category invalid_amount per_action_limit task_budget : Reason
  daily_budget human_approval_threshold rail_requires_approval pilot_per_action_limit : Reason
  pilot_outstanding_limit adaptation_rejected : Reason

pub record Config : Type 0 where
  pub version : Text
  pub enabled : Bool
  pub allowed_chain_ids : List ℕ
  pub allowed_rails : List Rail
  pub allowed_assets : List Text
  pub allowed_recipients : List Text
  pub blocked_categories : List Text
  pub approval_required_rails : List Rail
  pub per_action_limit_atomic : Text
  pub auto_approve_threshold_atomic : Text
  pub task_budget_atomic : Text
  pub daily_budget_atomic : Text
  pub category_daily_budget_atomic : Text
  pub lifetime_budget_atomic : Text
  pub organization_daily_budget_atomic : Text

pub record Intent : Type 0 where
  pub organization_id : Text
  pub customer_id : Text
  pub agent_id : Text
  pub task_id : Text
  pub action_id : Text
  pub rail : Rail
  pub chain_id : ℕ
  pub recipient : Text
  pub asset : Text
  pub amount_atomic : Text
  pub resource : Text
  pub category : Text

pub record SpendSnapshot : Type 0 where
  pub task_spent_atomic : Text
  pub task_reserved_atomic : Text
  pub daily_spent_atomic : Text
  pub daily_reserved_atomic : Text

pub record Decision : Type 0 where
  pub outcome : Outcome
  pub reason : Reason
  pub policy_version : Text

-- A Go set is the list of its members; the program only asks for membership and emptiness.
pub record Engine : Type 0 where
  pub version : Text
  pub enabled : Bool
  pub chains : List ℕ
  pub rails : List Rail
  pub assets : List Text
  pub recipients : List Text
  pub blocked_categories : List Text
  pub approval_required_rails : List Rail
  pub per_action_limit : ℕ
  pub auto_approve_threshold : ℕ
  pub task_budget : ℕ
  pub daily_budget : ℕ
