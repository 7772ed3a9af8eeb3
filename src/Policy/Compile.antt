-- ===== src/Policy/Compile.antt =====
-- internal/policy/policy.go: Compile. The three optional budgets are a Go map, so which of two bad
-- ones is reported is left open there; here they are read in the order of the text.
pub mod WellFormed
use flowops.Prelude.{
  ℕ, ltb, ◌==◌, Bool, true, false, not, ◌||◌, Option, none, some, List, [], ◌∷◌, Text, text_in,
  Result, ok, err, ◌>>=◌, ◌>>◌, map_err, fail_if, is_empty, if◌then◌else◌,
}
use flowops.Strings.{trim_space, to_lower}
use flowops.Amount.{AmountError, parse_non_negative, parse_positive}
use flowops.Envelope.Grammar.{Rail, known_rail, canonical_address}
use flowops.Policy.Types.{Config, Engine}

pub data CompileError : Type 0 where
  version_required threshold_over_action action_over_task task_over_daily : CompileError
  action_over_budget zero_chain unsupported_rail approval_rail_not_allowed : CompileError
  bad_asset bad_recipient empty_category nothing_allowed : CompileError
  bad_amount : AmountError → CompileError

unfoldable pub check_optional : ℕ → List Text → Result CompileError (Unit {0})
check_optional per_action [] = ok tt
check_optional per_action (v ∷ vs) =
    if is_empty v then check_optional per_action vs else elim (parse_positive v) [
      | err e ↦ err (bad_amount e)
      | ok limit ↦ elim (ltb limit per_action) [
        | true ↦ err action_over_budget
        | false ↦ check_optional per_action vs
      ]
    ]

unfoldable pub add_chains : List ℕ → Result CompileError (List ℕ)
add_chains [] = ok []
add_chains (c ∷ cs) = elim (c == 0) [
  | true ↦ err zero_chain
  | false ↦ add_chains cs >>= λ rest. ok (c ∷ rest)
]

unfoldable pub add_rails : List Rail → Result CompileError (List Rail)
add_rails [] = ok []
add_rails (r ∷ rs) = elim (known_rail r) [
  | false ↦ err unsupported_rail
  | true ↦ add_rails rs >>= λ rest. ok (r ∷ rest)
]

unfoldable pub add_approval_rails : List Rail → List Rail → Result CompileError (List Rail)
add_approval_rails rails [] = ok []
add_approval_rails rails (r ∷ rs) = elim (text_in r rails) [
  | false ↦ err approval_rail_not_allowed
  | true ↦ add_approval_rails rails rs >>= λ rest. ok (r ∷ rest)
]

unfoldable pub add_addresses :
    (Text → Text) → CompileError → List Text → Result CompileError (List Text)
add_addresses unicode_lower e [] = ok []
add_addresses unicode_lower e (v ∷ vs) = elim (canonical_address unicode_lower v) [
  | none ↦ err e
  | some a ↦ add_addresses unicode_lower e vs >>= λ rest. ok (a ∷ rest)
]

unfoldable pub add_categories : (Text → Text) → List Text → Result CompileError (List Text)
add_categories unicode_lower [] = ok []
add_categories unicode_lower (c ∷ cs) =
    let category = trim_space (to_lower unicode_lower c) in
    elim (is_empty category) [
      | true ↦ err empty_category
      | false ↦ add_categories unicode_lower cs >>= λ rest. ok (category ∷ rest)
    ]

unfoldable pub compile : (Text → Text) → Config → Result CompileError Engine
compile unicode_lower cfg = do
  fail_if (is_empty (trim_space cfg.version)) version_required
  per_action ← map_err bad_amount (parse_positive cfg.per_action_limit_atomic)
  auto_approve ← map_err bad_amount (parse_non_negative cfg.auto_approve_threshold_atomic)
  task_budget ← map_err bad_amount (parse_positive cfg.task_budget_atomic)
  daily_budget ← map_err bad_amount (parse_positive cfg.daily_budget_atomic)
  fail_if (ltb per_action auto_approve) threshold_over_action
  fail_if (ltb task_budget per_action) action_over_task
  fail_if (ltb daily_budget task_budget) task_over_daily
  check_optional per_action (
      cfg.category_daily_budget_atomic ∷ cfg.lifetime_budget_atomic
      ∷ cfg.organization_daily_budget_atomic ∷ [])
  chains ← add_chains cfg.allowed_chain_ids
  rails ← add_rails cfg.allowed_rails
  approval_rails ← add_approval_rails rails cfg.approval_required_rails
  assets ← add_addresses unicode_lower bad_asset cfg.allowed_assets
  recipients ← add_addresses unicode_lower bad_recipient cfg.allowed_recipients
  categories ← add_categories unicode_lower cfg.blocked_categories
  fail_if (is_empty chains || is_empty rails || is_empty assets || is_empty recipients)
      nothing_allowed
  ok (record {
    version = cfg.version;
    enabled = cfg.enabled;
    chains = chains;
    rails = rails;
    assets = assets;
    recipients = recipients;
    blocked_categories = categories;
    approval_required_rails = approval_rails;
    per_action_limit = per_action;
    auto_approve_threshold = auto_approve;
    task_budget = task_budget;
    daily_budget = daily_budget;
  })
