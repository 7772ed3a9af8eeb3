-- ===== src/Tests/Budgets.antt =====
-- The policy engine and the pilot's limits.
use flowops.Prelude.{
  ℕ, ◌+◌, ◌≤◌, ◌<◌, ◌≡◌, ◌≢◌, ◌↔◌, refl, true, false, some, [], ◌∷◌, codes, text_eq, text_in, ok,
  arith,
}
use flowops.Strings.{trim_space, trim_front, space_width, back_space_width, to_lower}
use flowops.Amount.{two_256, value, set_string, big_string, parse_non_negative, parse_positive}
use flowops.Amount.RoundTrip.{profile_totals}
use flowops.Envelope.Grammar.{
  rail_direct, rail_x402, hex_pattern, address_pattern, canonical_address, normalize_address,
}
use flowops.Policy.Types.{Config, Intent, SpendSnapshot, Engine, deny, auto_approve}
use flowops.Policy.Evaluate.{
  projected_total, category_key, evaluate_amount, evaluate_result, evaluate,
}
use flowops.Policy.Evaluate.Spec.{Amounts, Reads, WithinBudgets, Admitted}
use flowops.Policy.Evaluate.Approval.{evaluate-within, evaluate-auto_approve_iff}
use flowops.Policy.Compile.{
  check_optional, add_chains, add_rails, add_approval_rails, add_addresses, add_categories, compile,
}
use flowops.Policy.Compile.WellFormed.{compile-IsWellFormed, IsWellFormed}
use flowops.PilotLimits as Pilot
use flowops.PilotLimits.Laws as Laws
use flowops.Tests.Data.{no_lower, payee, token}

abbrev engine : Engine
engine = record {
  version = codes "policy-1";
  enabled = true;
  chains = 8453 ∷ [];
  rails = rail_direct ∷ rail_x402 ∷ [];
  assets = token ∷ [];
  recipients = payee ∷ [];
  blocked_categories = codes "gambling" ∷ [];
  approval_required_rails = rail_x402 ∷ [];
  per_action_limit = 500;
  auto_approve_threshold = 300;
  task_budget = 1000;
  daily_budget = 2000;
}

abbrev engine_config : Config
engine_config = record {
  version = codes "policy-1";
  enabled = true;
  allowed_chain_ids = 8453 ∷ [];
  allowed_rails = rail_direct ∷ rail_x402 ∷ [];
  allowed_assets = token ∷ [];
  allowed_recipients = payee ∷ [];
  blocked_categories = codes "gambling" ∷ [];
  approval_required_rails = rail_x402 ∷ [];
  per_action_limit_atomic = codes "500";
  auto_approve_threshold_atomic = codes "300";
  task_budget_atomic = codes "1000";
  daily_budget_atomic = codes "2000";
  category_daily_budget_atomic = [];
  lifetime_budget_atomic = [];
  organization_daily_budget_atomic = [];
}

abbrev lunch : Intent
lunch = record {
  organization_id = codes "org-1";
  customer_id = codes "customer-1";
  agent_id = codes "agent-1";
  task_id = codes "task-1";
  action_id = codes "action-1";
  rail = rail_direct;
  chain_id = 8453;
  recipient = payee;
  asset = token;
  amount_atomic = codes "250";
  resource = codes "https://example.com";
  category = codes "food";
}

abbrev spent : SpendSnapshot
spent = record {
  task_spent_atomic = codes "100";
  task_reserved_atomic = codes "0";
  daily_spent_atomic = codes "400";
  daily_reserved_atomic = codes "50";
}

lunch_outcome : (evaluate no_lower engine lunch spent).outcome ≡ auto_approve
unfolding evaluate evaluate_result evaluate_amount projected_total category_key text_eq
    address_pattern hex_pattern canonical_address normalize_address trim_space trim_front
    space_width back_space_width to_lower value set_string parse_non_negative parse_positive
lunch_outcome = refl

lunch_not_denied : (evaluate no_lower engine lunch spent).outcome ≢ deny
lunch_not_denied = λ h. ground (arith, lunch_outcome)

evaluate-within_example :
    Admitted no_lower engine lunch × ((n : Amounts) × Reads lunch spent n × WithinBudgets engine n)
evaluate-within_example = evaluate-within no_lower engine lunch spent lunch_not_denied

evaluate-auto_approve_iff_example :
    ((evaluate no_lower engine lunch spent).outcome ≡ auto_approve) ↔ (
      Admitted no_lower engine lunch
      × ((n : Amounts) × Reads lunch spent n
          × WithinBudgets engine n
          × (n.amount ≤ engine.auto_approve_threshold))
      × (text_in lunch.rail engine.approval_required_rails ≡ false))
evaluate-auto_approve_iff_example = evaluate-auto_approve_iff no_lower engine lunch spent

engine_compiled : compile no_lower engine_config ≡ ok engine
unfolding compile check_optional add_chains add_rails add_approval_rails add_addresses
    add_categories category_key text_eq address_pattern hex_pattern canonical_address
    normalize_address trim_space trim_front space_width back_space_width to_lower value set_string
    parse_non_negative parse_positive
engine_compiled = refl

compile-IsWellFormed_example : IsWellFormed engine
compile-IsWellFormed_example = compile-IsWellFormed no_lower engine_config engine engine_compiled

abbrev limits : Pilot.Limits
limits = record { max_per_action = 1000000; max_outstanding = 10000000 }

limits_compiled :
    Pilot.compile (record {
      max_per_action_atomic = codes "1000000";
      max_outstanding_atomic = codes "10000000";
    })
    ≡ ok limits
unfolding Pilot.compile Pilot.parse_positive Pilot.parse_non_negative set_string value
limits_compiled = refl

compile_bounds_example :
    (0 < limits.max_per_action)
    × (limits.max_per_action ≤ limits.max_outstanding)
    × (limits.max_outstanding < two_256)
compile_bounds_example =
    Laws.compile_bounds
      (record {
        max_per_action_atomic = codes "1000000";
        max_outstanding_atomic = codes "10000000";
      })
      limits limits_compiled

check_iff_example : (Pilot.check (some limits) (codes "250") (big_string 9999000) ≡ ok tt) ↔ (
    (a : ℕ) × (parse_positive (codes "250") ≡ ok a)
    × (a ≤ limits.max_per_action)
    × (9999000 + a < two_256)
    × (9999000 + a ≤ limits.max_outstanding))
check_iff_example = Laws.check_iff limits (codes "250") 9999000 (omega arith)

profile_passes : Pilot.require_initial_base_mainnet_profile (some limits) ≡ ok tt
unfolding Pilot.require_initial_base_mainnet_profile Pilot.max_per_action_atomic
    Pilot.max_outstanding_atomic text_eq
profile_passes = rw (profile_totals.0) (rw (profile_totals.1) refl)
