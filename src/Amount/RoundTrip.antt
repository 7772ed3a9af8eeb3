-- ===== src/Amount/RoundTrip.antt =====
-- A printed amount is read back.
use mathlib.Core.Logic.{ite, dite}
use mathlib.Core.WellFounded as Wf
use mathlib.Core.WellFounded.{WellFounded, Acc, Acc-prop}
use native.Mathlib.Decide.{dec_lt}
use flowops.Prelude.{
  codes, ℕ, ◌+◌, ◌/◌, ◌%◌, ◌<◌, ◌≡◌, refl, ◌∙◌, ap, true, [], ◌∷◌, Text, all, ok, arith, ◌≢◌,
}
use flowops.Amount.{
  two_256, is_digit, value, lt_wf, tenth-lt, prepend_digits, shown, big_string, parse_non_negative,
}
use flowops.Amount.Parse.{IsCanonical, parse_non_negative_complete}

prepend_digits_step :
    (n : ℕ) (w : Acc ◌<◌ n) (w' : Acc ◌<◌ (n / 10)) (out : Text)
    → prepend_digits n w out
      ≡ ite (dec_lt 0 n) (prepend_digits (n / 10) w' ((b'0' + n % 10) ∷ out)) out
unfolding prepend_digits
prepend_digits_step n (Acc.intro _ smaller) w' out = λ i.
    dite (dec_lt 0 n)
      (λ h.
        prepend_digits (n / 10) (Acc-prop (smaller (n / 10) (tenth-lt h)) w' i)
          ((b'0' + n % 10) ∷ out))
      (λ _. out)

shown_step :
    (n : ℕ) (out : Text)
    → shown n out ≡ ite (dec_lt 0 n) (shown (n / 10) ((b'0' + n % 10) ∷ out)) out
unfolding shown
shown_step n out = prepend_digits_step n (lt_wf.apply n) (lt_wf.apply (n / 10)) out

value_digit : (m : ℕ) (out : Text) → value (m / 10) ((b'0' + m % 10) ∷ out) ≡ value m out
unfolding value
value_digit m out = ap (λ k. value k out) (omega arith)

value_zero : (m : ℕ) (out : Text) → m ≡ 0 → value 0 out ≡ value m out
value_zero m out h = cc

value-shown : (n : ℕ) (out : Text) → value 0 (shown n out) ≡ value n out
value-shown n =
    Wf.induction lt_wf {C = λ m. (out : Text) → value 0 (shown m out) ≡ value m out} n
      λ m ih out. grind (arith, shown_step m out, ih (m / 10), value_digit m out)

shown-digits : (n : ℕ) (out : Text) → all is_digit out ≡ true → all is_digit (shown n out) ≡ true
shown-digits n =
    Wf.induction lt_wf
      {C = λ m. (out : Text) → all is_digit out ≡ true → all is_digit (shown m out) ≡ true} n
      λ m ih out h. grind (arith, shown_step m out, ih (m / 10))

abbrev LeadsNonzero : Text → Type 0
LeadsNonzero [] = ⊥
LeadsNonzero (c ∷ _) = c ≢ b'0'

shown-LeadsNonzero : (n : ℕ) (out : Text) → 0 < n → LeadsNonzero (shown n out)
shown-LeadsNonzero n =
    Wf.induction lt_wf {C = λ m. (out : Text) → 0 < m → LeadsNonzero (shown m out)} n λ m ih out h.
      grind (
        arith,
        shown_step m out,
        shown_step (m / 10) ((b'0' + m % 10) ∷ out),
        λ (p : m / 10 < m). ih (m / 10) p ((b'0' + m % 10) ∷ out),
      )

LeadsNonzero-IsCanonical : (s : Text) → LeadsNonzero s → all is_digit s ≡ true → IsCanonical s
LeadsNonzero-IsCanonical [] h k = h
LeadsNonzero-IsCanonical (c ∷ []) h k = k
LeadsNonzero-IsCanonical (c ∷ d ∷ s) h k = (h, k)

big_string_pos : (n : ℕ) → 0 < n → big_string n ≡ shown n []
unfolding big_string
big_string_pos n h = ground arith

big_string_zero : (n : ℕ) → n ≡ 0 → big_string n ≡ b'0' ∷ []
unfolding big_string
big_string_zero n h = ground arith

value_nil : (n : ℕ) → value n [] ≡ n
unfolding value
value_nil n = refl

value_one_zero : value 0 (b'0' ∷ []) ≡ 0
unfolding value
value_one_zero = refl

-- What String prints is the canonical form of the number.
pub big_string-IsCanonical : (n : ℕ) → IsCanonical (big_string n)
big_string-IsCanonical n = elim (dec_lt 0 n) [
  | yes p ↦
      rw (big_string_pos n p)
        (LeadsNonzero-IsCanonical (shown n []) (shown-LeadsNonzero n [] p) (shown-digits n [] refl))
  | no p ↦ rw (big_string_zero n (omega arith)) refl
]

pub value-big_string : (n : ℕ) → value 0 (big_string n) ≡ n
value-big_string n = elim (dec_lt 0 n) [
  | yes p ↦ rw (big_string_pos n p) (value-shown n [] ∙ value_nil n)
  | no p ↦ rw (big_string_zero n (omega arith)) (value_one_zero ∙ omega arith)
]

-- An amount below 2^256 is read back from its print.
pub parse_non_negative-big_string : (n : ℕ) → n < two_256 → parse_non_negative (big_string n) ≡ ok n
parse_non_negative-big_string n h =
    let same = value-big_string n in
    parse_non_negative_complete (big_string n) (big_string-IsCanonical n) (rw same h) ∙ ap ok same

-- The largest totals of the initial profile, printed.
pub profile_totals :
    (big_string 1000000 ≡ codes "1000000") × (big_string 10000000 ≡ codes "10000000")
unfolding big_string shown prepend_digits
profile_totals = (refl, refl)
