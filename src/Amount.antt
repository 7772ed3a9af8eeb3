-- ===== src/Amount.antt =====
-- Amounts in atomic units: decimal texts and the values of math/big that they stand for.
-- internal/policy/policy.go parses them; `set_string` and `big_string` are big.Int's SetString and
-- String in base ten, on texts without a sign.
pub mod Parse
pub mod RoundTrip
use mathlib.Core.Logic.{dite}
use mathlib.Core.WellFounded.{Acc, WellFounded}
use native.Mathlib.Decide.{dec_lt}
use flowops.Prelude.{
  ℕ, zero, suc, ◌+◌, ◌-◌, ◌*◌, ◌/◌, ◌%◌, ◌^◌, ◌<◌, ◌==◌, ltb, leb, Bool, ◌&&◌, not, Option, none,
  some, List, [], ◌∷◌, Text, all, Result, ok, err, ◌>>=◌, if◌then◌else◌, arith,
}

-- n.BitLen() > 256
abbrev pub two_256 : ℕ
two_256 = 2 ^ 256

abbrev pub is_digit : ℕ → Bool
is_digit c = leb b'0' c && leb c b'9'

-- The value of digits read behind `n`.
unfoldable pub value : ℕ → Text → ℕ
value n [] = n
value n (c ∷ s) = value (n * 10 + (c - b'0')) s

unfoldable pub set_string : Text → Option ℕ
unfolding value
set_string [] = none
set_string (c ∷ s) = if all is_digit (c ∷ s) then some (value 0 (c ∷ s)) else none

Acc-below : (k n : ℕ) → n < k → Acc ◌<◌ n
Acc-below zero n h = absurd (omega arith)
Acc-below (suc k) n h = Acc.intro n (λ m hm. Acc-below k m (omega arith))

lt_wf : WellFounded ◌<◌
unfolding Acc-below
lt_wf = record { apply = λ n. Acc-below (suc n) n (omega arith) }

pub tenth-lt : {n : ℕ} → 0 < n → n / 10 < n
tenth-lt h = omega arith

prepend_digits : (n : ℕ) → Acc ◌<◌ n → Text → Text
prepend_digits n (Acc.intro _ smaller) out =
    dite (dec_lt 0 n)
      (λ h. prepend_digits (n / 10) (smaller (n / 10) (tenth-lt h)) ((b'0' + n % 10) ∷ out))
      (λ _. out)

-- The decimal digits of `n`, none for zero, in front of `out`.
pub shown : ℕ → Text → Text
unfolding prepend_digits lt_wf dec_lt
shown n out = prepend_digits n (lt_wf.apply n) out

unfoldable pub big_string : ℕ → Text
unfolding shown
big_string n = if n == 0 then b'0' ∷ [] else shown n []

pub data AmountError : Type 0 where
  required leading_zero not_digits outside_uint256 not_positive : AmountError

-- The digit loop and the conversion, behind the checks of the first character.
unfoldable pub to_uint256 : Text → Result AmountError ℕ
unfolding set_string
to_uint256 s = if not (all is_digit s) then err not_digits else elim (set_string s) [
  | none ↦ err outside_uint256
  | some n ↦ if leb two_256 n then err outside_uint256 else ok n
]

unfoldable pub parse_non_negative : Text → Result AmountError ℕ
unfolding to_uint256
parse_non_negative [] = err required
parse_non_negative (c ∷ []) = to_uint256 (c ∷ [])
parse_non_negative (c ∷ d ∷ s) = if c == b'0' then err leading_zero else to_uint256 (c ∷ d ∷ s)

unfoldable pub parse_positive : Text → Result AmountError ℕ
unfolding parse_non_negative
parse_positive s = do n ← parse_non_negative s; if n == 0 then err not_positive else ok n
