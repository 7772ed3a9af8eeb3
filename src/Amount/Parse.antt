-- ===== src/Amount/Parse.antt =====
-- What the amount parsers accept, and what they return.
use flowops.Prelude.{ℕ, ◌<◌, ◌≡◌, ◌≢◌, true, [], ◌∷◌, Text, all, ok, arith, some}
use flowops.Amount.{
  two_256, is_digit, value, set_string, to_uint256, parse_non_negative, parse_positive,
}

-- The canonical form of an amount: digits with no leading zero.
abbrev pub IsCanonical : Text → Type 0
IsCanonical [] = ⊥
IsCanonical (c ∷ []) = all is_digit (c ∷ []) ≡ true
IsCanonical (c ∷ d ∷ s) = (c ≢ b'0') × (all is_digit (c ∷ d ∷ s) ≡ true)

pub set_string-digits :
    (c : ℕ) (s : Text) → all is_digit (c ∷ s) ≡ true → set_string (c ∷ s) ≡ some (value 0 (c ∷ s))
unfolding set_string
set_string-digits c s h = ground arith

to_uint256_sound :
    (c : ℕ) (s : Text) (n : ℕ)
    → to_uint256 (c ∷ s) ≡ ok n
    → (all is_digit (c ∷ s) ≡ true) × (n ≡ value 0 (c ∷ s)) × (n < two_256)
unfolding to_uint256 set_string
to_uint256_sound c s n h = ground arith

to_uint256_complete :
    (c : ℕ) (s : Text)
    → all is_digit (c ∷ s) ≡ true
    → value 0 (c ∷ s) < two_256
    → to_uint256 (c ∷ s) ≡ ok (value 0 (c ∷ s))
unfolding to_uint256 set_string
to_uint256_complete c s h k = ground arith

pub parse_non_negative_sound :
    (s : Text) (n : ℕ)
    → parse_non_negative s ≡ ok n
    → IsCanonical s × (n ≡ value 0 s) × (n < two_256)
unfolding parse_non_negative
parse_non_negative_sound [] n h = ground arith
parse_non_negative_sound (c ∷ []) n h = to_uint256_sound c [] n h
parse_non_negative_sound (c ∷ d ∷ s) n h = ground (arith, to_uint256_sound c (d ∷ s) n)

pub parse_non_negative_complete :
    (s : Text) → IsCanonical s → value 0 s < two_256 → parse_non_negative s ≡ ok (value 0 s)
unfolding parse_non_negative
parse_non_negative_complete [] h k = absurd h
parse_non_negative_complete (c ∷ []) h k = to_uint256_complete c [] h k
parse_non_negative_complete (c ∷ d ∷ s) h k = ground (arith, to_uint256_complete c (d ∷ s) h.1 k)

pub parse_positive_sound :
    (s : Text) (n : ℕ)
    → parse_positive s ≡ ok n
    → IsCanonical s × (n ≡ value 0 s) × (0 < n) × (n < two_256)
unfolding parse_positive
parse_positive_sound s n h = ground (arith, parse_non_negative_sound s n)
