-- ===== src/PilotLimits.antt =====
-- pkg/pilotlimits/limits.go: the deployment-wide limits of the pilot. A nil *Limits is `none`; a
-- *Limits that Compile returned has both of its numbers.
pub mod Laws
use flowops.Prelude.{
  ℕ, ◌+◌, ltb, leb, ◌==◌, Bool, not, ◌||◌, ◌&&◌, Option, none, some, [], ◌∷◌, Text, codes, text_eq,
  all, Result, ok, err, ◌>>=◌, ◌>>◌, map_err, fail_if, if◌then◌else◌,
}
use flowops.Amount.{
  two_256, is_digit, set_string, big_string, AmountError, required, leading_zero, not_digits,
  outside_uint256, not_positive,
}

pub data LimitError : Type 0 where
  per_action_exceeded outstanding_exceeded unavailable action_over_outstanding wrong_profile :
      LimitError
  bad_amount : AmountError → LimitError

pub record Config : Type 0 where
  pub max_per_action_atomic : Text
  pub max_outstanding_atomic : Text

pub record Limits : Type 0 where
  pub max_per_action : ℕ
  pub max_outstanding : ℕ

-- The package's own parseNonNegative and parsePositive.
unfoldable pub parse_non_negative : Text → Result AmountError ℕ
unfolding set_string
parse_non_negative [] = err required
parse_non_negative (c ∷ s) =
    if c == b'0' && ltb 0 (flowops.Prelude.length s)
    then err leading_zero
    else if not (all is_digit (c ∷ s))
    then err not_digits
    else elim (set_string (c ∷ s)) [
      | none ↦ err outside_uint256
      | some n ↦ if leb two_256 n then err outside_uint256 else ok n
    ]

unfoldable pub parse_positive : Text → Result AmountError ℕ
unfolding parse_non_negative
parse_positive s = do n ← parse_non_negative s; if n == 0 then err not_positive else ok n

unfoldable pub compile : Config → Result LimitError Limits
compile cfg = do
  per_action ← map_err bad_amount (parse_positive cfg.max_per_action_atomic)
  outstanding ← map_err bad_amount (parse_positive cfg.max_outstanding_atomic)
  fail_if (ltb outstanding per_action) action_over_outstanding
  ok (record { max_per_action = per_action; max_outstanding = outstanding })

unfoldable pub check : Option Limits → Text → Text → Result LimitError (Unit {0})
check none amount_atomic outstanding_atomic = err unavailable
check (some l) amount_atomic outstanding_atomic = do
  amount ← map_err bad_amount (parse_positive amount_atomic)
  outstanding ← map_err bad_amount (parse_non_negative outstanding_atomic)
  fail_if (ltb l.max_per_action amount) per_action_exceeded
  fail_if (leb two_256 (outstanding + amount) || ltb l.max_outstanding (outstanding + amount))
      outstanding_exceeded

abbrev pub base_mainnet_max_per_action_atomic : Text
base_mainnet_max_per_action_atomic = codes "1000000"

abbrev pub base_mainnet_max_outstanding_atomic : Text
base_mainnet_max_outstanding_atomic = codes "10000000"

unfoldable pub max_per_action_atomic : Option Limits → Text
max_per_action_atomic none = []
max_per_action_atomic (some l) = big_string l.max_per_action

unfoldable pub max_outstanding_atomic : Option Limits → Text
max_outstanding_atomic none = []
max_outstanding_atomic (some l) = big_string l.max_outstanding

unfoldable pub require_initial_base_mainnet_profile : Option Limits → Result LimitError (Unit {0})
require_initial_base_mainnet_profile none = err wrong_profile
require_initial_base_mainnet_profile (some l) =
    fail_if
      (not (text_eq (max_per_action_atomic (some l)) base_mainnet_max_per_action_atomic)
        || not (text_eq (max_outstanding_atomic (some l)) base_mainnet_max_outstanding_atomic))
      wrong_profile
