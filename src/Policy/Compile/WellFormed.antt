-- ===== src/Policy/Compile/WellFormed.antt =====
-- What a compiled engine satisfies.
use flowops.Prelude.{
  ℕ, ◌≤◌, ◌<◌, ◌≡◌, true, false, List, [], ◌∷◌, Text, text_in, ok, is_empty, all, arith, ◌==◌,
  Option-cases, inl, inr, Result-cases, not,
}
use flowops.Amount.{parse_positive, two_256}
use flowops.Amount.Parse.{parse_positive_sound}
use flowops.Envelope.Grammar.{Rail, known_rail, canonical_address, address_pattern}
use flowops.Envelope.Grammar.Canonical.{canonical_address_iff}
use flowops.Policy.Types.{Config, Engine}
use flowops.Policy.Compile.{
  CompileError, bad_asset, bad_recipient, add_chains, add_rails, add_approval_rails, add_addresses,
  compile,
}

pub record IsWellFormed (e : Engine) : Type 0 where
  pub threshold : e.auto_approve_threshold ≤ e.per_action_limit
  pub action : (0 < e.per_action_limit) × (e.per_action_limit ≤ e.task_budget)
  pub task : e.task_budget ≤ e.daily_budget
  pub daily : e.daily_budget < two_256
  pub chains : (is_empty e.chains ≡ false) × (all (λ c. not (c == 0)) e.chains ≡ true)
  pub rails : (is_empty e.rails ≡ false) × (all known_rail e.rails ≡ true)
  pub approval_rails : all (λ r. text_in r e.rails) e.approval_required_rails ≡ true
  pub assets : (is_empty e.assets ≡ false) × (all address_pattern e.assets ≡ true)
  pub recipients : (is_empty e.recipients ≡ false) × (all address_pattern e.recipients ≡ true)

add_chains-all :
    (cs : List ℕ) (out : List ℕ) → add_chains cs ≡ ok out → all (λ c. not (c == 0)) out ≡ true
unfolding add_chains
add_chains-all [] out h = ground arith
add_chains-all (c ∷ cs) out h = elim (Result-cases (add_chains cs)) [
  | inl (rest, p) ↦ ground (arith, add_chains-all cs rest p)
  | inr (x, p) ↦ ground arith
]

add_rails-all :
    (rs : List Rail) (out : List Rail) → add_rails rs ≡ ok out → all known_rail out ≡ true
unfolding add_rails
add_rails-all [] out h = ground arith
add_rails-all (r ∷ rs) out h = elim (Result-cases (add_rails rs)) [
  | inl (rest, p) ↦ ground (arith, add_rails-all rs rest p)
  | inr (x, p) ↦ ground arith
]

add_approval_rails-all :
    (rails rs out : List Rail)
    → add_approval_rails rails rs ≡ ok out
    → all (λ r. text_in r rails) out ≡ true
unfolding add_approval_rails
add_approval_rails-all rails [] out h = ground arith
add_approval_rails-all rails (r ∷ rs) out h = elim (Result-cases (add_approval_rails rails rs)) [
  | inl (rest, p) ↦ ground (arith, add_approval_rails-all rails rs rest p)
  | inr (x, p) ↦ ground arith
]

add_addresses-all :
    (unicode_lower : Text → Text) (e : CompileError) (vs out : List Text)
    → add_addresses unicode_lower e vs ≡ ok out
    → all address_pattern out ≡ true
unfolding add_addresses
add_addresses-all unicode_lower e [] out h = ground arith
add_addresses-all unicode_lower e (v ∷ vs) out h =
    elim (Option-cases (canonical_address unicode_lower v)) [
      | inl q ↦ ground arith
      | inr (a, q) ↦ elim (Result-cases (add_addresses unicode_lower e vs)) [
        | inl (rest, p) ↦ ground (
          arith,
          add_addresses-all unicode_lower e vs rest p,
          (canonical_address_iff unicode_lower v a).0 q,
        )
        | inr (x, p) ↦ ground arith
      ]
    ]

-- The calls whose results the engine holds, and the tests that it passed.
record IsCompiled (unicode_lower : Text → Text) (cfg : Config) (e : Engine) : Type 0 where
  per_action : parse_positive cfg.per_action_limit_atomic ≡ ok e.per_action_limit
  daily_budget : parse_positive cfg.daily_budget_atomic ≡ ok e.daily_budget
  chains : add_chains cfg.allowed_chain_ids ≡ ok e.chains
  rails : add_rails cfg.allowed_rails ≡ ok e.rails
  approval_rails :
      add_approval_rails e.rails cfg.approval_required_rails ≡ ok e.approval_required_rails
  assets : add_addresses unicode_lower bad_asset cfg.allowed_assets ≡ ok e.assets
  recipients : add_addresses unicode_lower bad_recipient cfg.allowed_recipients ≡ ok e.recipients
  ordered :
      (e.auto_approve_threshold ≤ e.per_action_limit)
      × (e.per_action_limit ≤ e.task_budget)
      × (e.task_budget ≤ e.daily_budget)
  allows :
      (is_empty e.chains ≡ false)
      × (is_empty e.rails ≡ false)
      × (is_empty e.assets ≡ false)
      × (is_empty e.recipients ≡ false)

compile-IsCompiled :
    (unicode_lower : Text → Text) (cfg : Config) (e : Engine)
    → compile unicode_lower cfg ≡ ok e
    → IsCompiled unicode_lower cfg e
unfolding compile
compile-IsCompiled unicode_lower cfg e h = ground arith

-- An engine that Compile returns has 0 < action limit, threshold ≤ action limit ≤ task budget ≤
-- daily budget < 2^256, non-empty allow lists of positive chains, known rails and canonical
-- addresses, and requires approval only on rails that it allows.
pub compile-IsWellFormed :
    (unicode_lower : Text → Text) (cfg : Config) (e : Engine)
    → compile unicode_lower cfg ≡ ok e
    → IsWellFormed e
compile-IsWellFormed unicode_lower cfg e h =
    let c = compile-IsCompiled unicode_lower cfg e h in
    ground (
      arith,
      parse_positive_sound cfg.per_action_limit_atomic e.per_action_limit c.per_action,
      parse_positive_sound cfg.daily_budget_atomic e.daily_budget c.daily_budget,
      add_chains-all cfg.allowed_chain_ids e.chains c.chains,
      add_rails-all cfg.allowed_rails e.rails c.rails,
      add_approval_rails-all e.rails cfg.approval_required_rails e.approval_required_rails
          c.approval_rails,
      add_addresses-all unicode_lower bad_asset cfg.allowed_assets e.assets c.assets,
      add_addresses-all unicode_lower bad_recipient cfg.allowed_recipients e.recipients
          c.recipients,
    )
