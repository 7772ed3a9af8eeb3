-- ===== src/PilotLimits/Laws.antt =====
-- The limits keep their order, and Check passes exactly within them.
use flowops.Prelude.{
  ℕ, ◌+◌, ◌≤◌, ◌<◌, ◌≡◌, ◌↔◌, refl, ◌∙◌, true, some, [], ◌∷◌, Text, ok, arith, text_eq_iff,
  Result-cases, inl, inr, text_eq, codes,
}
use flowops.Amount.{two_256, is_digit, value, set_string, to_uint256, big_string}
use flowops.Amount as Amount
use flowops.Amount.Parse.{parse_positive_sound}
use flowops.Amount.RoundTrip.{value-big_string, parse_non_negative-big_string}
use flowops.PilotLimits.{
  Config, Limits, parse_non_negative, parse_positive, compile, check, max_per_action_atomic,
  max_outstanding_atomic, require_initial_base_mainnet_profile,
}

-- The parser of this package and the one of the policy package are the same function.
pub parse_non_negative-eq : (s : Text) → parse_non_negative s ≡ Amount.parse_non_negative s
unfolding parse_non_negative Amount.parse_non_negative
parse_non_negative-eq [] = refl
parse_non_negative-eq (c ∷ []) = ground arith
parse_non_negative-eq (c ∷ d ∷ s) = ground arith

-- On every text parsePositive of this package and parsePositive of the policy package return the
-- same amount or the same error.
parse_positive-eq : (s : Text) → parse_positive s ≡ Amount.parse_positive s
unfolding parse_positive Amount.parse_positive
parse_positive-eq s = ground (arith, parse_non_negative-eq s)

-- Compiled limits are positive, fit 256 bits, and the action limit is within the outstanding one.
pub compile_bounds :
    (cfg : Config) (l : Limits)
    → compile cfg ≡ ok l
    → (0 < l.max_per_action)
      × (l.max_per_action ≤ l.max_outstanding)
      × (l.max_outstanding < two_256)
unfolding compile
compile_bounds cfg l h = ground (
  arith,
  parse_positive-eq cfg.max_per_action_atomic,
  parse_positive-eq cfg.max_outstanding_atomic,
  parse_positive_sound cfg.max_per_action_atomic l.max_per_action,
  parse_positive_sound cfg.max_outstanding_atomic l.max_outstanding,
)

-- For a printed exposure `o`, Check passes exactly when the amount is a canonical positive amount
-- `a` at most the action limit, and `o + a` fits 256 bits and is at most the outstanding limit.
pub check_iff :
    (l : Limits) (amount_atomic : Text) (o : ℕ)
    → o < two_256
    → (check (some l) amount_atomic (big_string o) ≡ ok tt) ↔ (
        (a : ℕ) × (Amount.parse_positive amount_atomic ≡ ok a)
        × (a ≤ l.max_per_action)
        × (o + a < two_256)
        × (o + a ≤ l.max_outstanding))
unfolding check
check_iff l amount_atomic o h =
    let same = parse_non_negative-eq (big_string o) ∙ parse_non_negative-big_string o h in
    (
      λ p. elim (Result-cases (Amount.parse_positive amount_atomic)) [
        | inl (a, q) ↦ (
          a,
          q,
          ground (arith, parse_positive-eq amount_atomic),
          ground (arith, parse_positive-eq amount_atomic),
          ground (arith, parse_positive-eq amount_atomic),
        )
        | inr (x, q) ↦ absurd (ground (arith, parse_positive-eq amount_atomic))
      ],
      λ (a, q, action, fits, total). ground (arith, parse_positive-eq amount_atomic),
    )

spelled : (n m : ℕ) (s : Text) → text_eq (big_string n) s ≡ true → value 0 s ≡ m → n ≡ m
spelled n m s h v = ground (arith, text_eq_iff (big_string n) s, value-big_string n)

-- Only limits of exactly 1 USDC for an action and 10 USDC outstanding pass as the initial profile.
profile_exact :
    (l : Limits)
    → require_initial_base_mainnet_profile (some l) ≡ ok tt
    → (l.max_per_action ≡ 1000000) × (l.max_outstanding ≡ 10000000)
unfolding require_initial_base_mainnet_profile max_per_action_atomic max_outstanding_atomic value
profile_exact l h = (
  spelled l.max_per_action 1000000 (codes "1000000") (ground arith) refl,
  spelled l.max_outstanding 10000000 (codes "10000000") (ground arith) refl,
)
