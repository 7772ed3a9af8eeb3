-- ===== src/Policy/Evaluate.antt =====
-- internal/policy/policy.go: Evaluate and the projected totals.
pub mod Spec
pub mod Approval
use flowops.Prelude.{
  ℕ, ◌+◌, ltb, leb, ◌==◌, Bool, true, false, not, Option, none, some, List, [], ◌∷◌, Text, text_in,
  nat_in, Result, ok, err, if◌then◌else◌,
}
use flowops.Strings.{trim_space, to_lower}
use flowops.Amount.{two_256, parse_non_negative, parse_positive}
use flowops.Envelope.Grammar.{canonical_address}
use flowops.Policy.Types.{
  Outcome, deny, require_approval, auto_approve, Reason, allowed, policy_disabled,
  unsupported_chain, unsupported_rail, asset_not_allowed, recipient_not_allowed, blocked_category,
  invalid_amount, per_action_limit, task_budget, daily_budget, human_approval_threshold,
  rail_requires_approval, Intent, SpendSnapshot, Decision, Engine,
}

-- The loop of projectedTotal over the remaining amounts; `none` where its result is not ok.
unfoldable pub projected_total : ℕ → List Text → Option ℕ
projected_total total [] = some total
projected_total total (v ∷ vs) = elim (parse_non_negative v) [
  | err _ ↦ none
  | ok n ↦ elim (leb two_256 (total + n)) [ true ↦ none | false ↦ projected_total (total + n) vs ]
]

-- strings.TrimSpace(strings.ToLower(category))
unfoldable pub category_key : (Text → Text) → Text → Text
category_key unicode_lower category = trim_space (to_lower unicode_lower category)

-- An allow-listed address: canonical, and a member.
abbrev pub address_in : (Text → Text) → Text → List Text → Bool
address_in unicode_lower v members = elim (canonical_address unicode_lower v) [
  | none ↦ false
  | some canonical ↦ text_in canonical members
]

-- The checks from the amount on, `a` being the parsed amount.
unfoldable pub evaluate_amount : Engine → Intent → SpendSnapshot → ℕ → Outcome × Reason
evaluate_amount e intent spend a =
    if ltb e.per_action_limit a
    then (deny, per_action_limit)
    else elim (projected_total a (spend.task_spent_atomic ∷ spend.task_reserved_atomic ∷ [])) [
      | none ↦ (deny, invalid_amount)
      | some task_total ↦
          if ltb e.task_budget task_total
          then (deny, task_budget)
          else elim (projected_total a
              (spend.daily_spent_atomic ∷ spend.daily_reserved_atomic ∷ [])) [
                | none ↦ (deny, invalid_amount)
                | some daily_total ↦
                    if ltb e.daily_budget daily_total
                    then (deny, daily_budget)
                    else if text_in intent.rail e.approval_required_rails
                    then (require_approval, rail_requires_approval)
                    else if ltb e.auto_approve_threshold a
                    then (require_approval, human_approval_threshold)
                    else (auto_approve, allowed)
              ]
    ]

unfoldable pub evaluate_result : (Text → Text) → Engine → Intent → SpendSnapshot → Outcome × Reason
evaluate_result unicode_lower e intent spend =
    if not e.enabled
    then (deny, policy_disabled)
    else if not (nat_in intent.chain_id e.chains)
    then (deny, unsupported_chain)
    else if not (text_in intent.rail e.rails)
    then (deny, unsupported_rail)
    else if not (address_in unicode_lower intent.asset e.assets)
    then (deny, asset_not_allowed)
    else if not (address_in unicode_lower intent.recipient e.recipients)
    then (deny, recipient_not_allowed)
    else if text_in (category_key unicode_lower intent.category) e.blocked_categories
    then (deny, blocked_category)
    else elim (parse_positive intent.amount_atomic) [
      | err _ ↦ (deny, invalid_amount)
      | ok a ↦ evaluate_amount e intent spend a
    ]

unfoldable pub evaluate : (Text → Text) → Engine → Intent → SpendSnapshot → Decision
unfolding evaluate_result evaluate_amount
evaluate unicode_lower e intent spend =
    let (o, r) = evaluate_result unicode_lower e intent spend in
    record { outcome = o; reason = r; policy_version = e.version }
