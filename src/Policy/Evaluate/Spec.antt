-- ===== src/Policy/Evaluate/Spec.antt =====
-- What an automatic approval means, stated without the order of the checks.
use flowops.Prelude.{ℕ, ◌+◌, ◌≤◌, ◌<◌, ◌≡◌, true, false, Text, text_in, nat_in, ok}
use flowops.Amount.{two_256, parse_non_negative, parse_positive}
use flowops.Envelope.Grammar.{address_pattern}
use flowops.Policy.Types.{Intent, SpendSnapshot, Engine}
use flowops.Policy.Evaluate.{category_key}

-- The amounts of an intent and of a spend snapshot, read as numbers.
pub record Amounts : Type 0 where
  pub amount : ℕ
  pub task_spent : ℕ
  pub task_reserved : ℕ
  pub daily_spent : ℕ
  pub daily_reserved : ℕ

pub record Reads (intent : Intent) (spend : SpendSnapshot) (n : Amounts) : Type 0 where
  pub amount : parse_positive intent.amount_atomic ≡ ok n.amount
  pub task_spent : parse_non_negative spend.task_spent_atomic ≡ ok n.task_spent
  pub task_reserved : parse_non_negative spend.task_reserved_atomic ≡ ok n.task_reserved
  pub daily_spent : parse_non_negative spend.daily_spent_atomic ≡ ok n.daily_spent
  pub daily_reserved : parse_non_negative spend.daily_reserved_atomic ≡ ok n.daily_reserved

-- The budgets hold with the new amount counted in, and the sums fit 256 bits.
pub record WithinBudgets (e : Engine) (n : Amounts) : Type 0 where
  pub action : n.amount ≤ e.per_action_limit
  pub task : n.amount + n.task_spent + n.task_reserved ≤ e.task_budget
  pub task_fits : n.amount + n.task_spent + n.task_reserved < two_256
  pub daily : n.amount + n.daily_spent + n.daily_reserved ≤ e.daily_budget
  pub daily_fits : n.amount + n.daily_spent + n.daily_reserved < two_256

-- The allow lists and the block list admit the intent.
pub record Admitted (unicode_lower : Text → Text) (e : Engine) (intent : Intent) : Type 0 where
  pub enabled : e.enabled ≡ true
  pub chain : nat_in intent.chain_id e.chains ≡ true
  pub rail : text_in intent.rail e.rails ≡ true
  pub asset : text_in intent.asset e.assets ≡ true
  pub asset_form : address_pattern intent.asset ≡ true
  pub recipient : text_in intent.recipient e.recipients ≡ true
  pub recipient_form : address_pattern intent.recipient ≡ true
  pub category : text_in (category_key unicode_lower intent.category) e.blocked_categories ≡ false
