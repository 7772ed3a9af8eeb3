-- ===== src/Signer/Nonces/Lines.antt =====
-- The line of a claim in the file of nonces, and the keys that a file names.
use flowops.Prelude.{
  ℕ, ◌==◌, ◌≡◌, ◌≢◌, refl, ap, ◌∙◌, Bool, true, false, not, ◌||◌, some, List, [], ◌∷◌, ◌++◌, Text,
  text_eq, text_in, text_eq_iff, all, all-append, ok, arith, Option-cases, inl, inr, ◌⊎◌,
}
use flowops.Strings.Lines.{
  newline, raw_lines, drop_cr, cons_first, is_line, is_whole, raw_lines-append, raw_lines-line,
}
use flowops.Amount.{is_digit, big_string}
use flowops.Amount.Parse.{IsCanonical}
use flowops.Amount.RoundTrip.{big_string-IsCanonical}
use flowops.Signer.Nonces.{tab, breaks_line, claim_line, split_tabs, claim_of, replay_lines}

abbrev first : List Text → Text
first [] = []
first (x ∷ _) = x

-- What stands in a line before its first tab.
abbrev pub field_of : Text → Text
field_of line = first (split_tabs (drop_cr line))

abbrev pub on_lines : Text → List Text → Bool
on_lines key [] = false
on_lines key (l ∷ lines) = text_eq key (field_of l) || on_lines key lines

-- A line of the file names the key.
abbrev pub on_file : Text → Text → Bool
on_file key file = on_lines key (raw_lines file)

on_lines-append :
    (key : Text) (xs ys : List Text)
    → on_lines key (xs ++ ys) ≡ (on_lines key xs || on_lines key ys)
on_lines-append key [] ys = refl
on_lines-append key (l ∷ xs) ys = ground (arith, on_lines-append key xs ys)

-- A whole file names what it named before, and what is appended to it names.
pub on_file-append :
    (key f g : Text) → is_whole f ≡ true → on_file key (f ++ g) ≡ (on_file key f || on_file key g)
on_file-append key f g h =
    ap (on_lines key) (raw_lines-append f g h) ∙ on_lines-append key (raw_lines f) (raw_lines g)

claim_of-first : (fs : List Text) (key : Text) → claim_of fs ≡ some key → first fs ≡ key
unfolding claim_of
claim_of-first [] key h = ground arith
claim_of-first (a ∷ []) key h = ground arith
claim_of-first (a ∷ b ∷ []) key h = ground arith
claim_of-first (a ∷ b ∷ c ∷ fs) key h = ground arith

drop_cr-tab : (k s : Text) → drop_cr (k ++ tab ∷ s) ≡ k ++ tab ∷ drop_cr s
unfolding drop_cr
drop_cr-tab [] [] = refl
drop_cr-tab [] (d ∷ s) = refl
drop_cr-tab (c ∷ []) s = ap (λ x. c ∷ x) (drop_cr-tab [] s)
drop_cr-tab (c ∷ d ∷ k) s = ap (λ x. c ∷ x) (drop_cr-tab (d ∷ k) s)

first-cons_first : (c : ℕ) (xs : List Text) → first (cons_first c xs) ≡ c ∷ first xs
first-cons_first c [] = refl
first-cons_first c (x ∷ xs) = refl

split_tabs-first :
    (k s : Text) → all (λ c. not (c == tab)) k ≡ true → first (split_tabs (k ++ tab ∷ s)) ≡ k
unfolding split_tabs
split_tabs-first [] s h = refl
split_tabs-first (c ∷ k) s h =
    ground (arith, split_tabs-first k s, first-cons_first c (split_tabs (k ++ tab ∷ s)))

breaks_line-tab : (key : Text) → breaks_line key ≡ false → all (λ c. not (c == tab)) key ≡ true
breaks_line-tab [] h = refl
breaks_line-tab (c ∷ key) h = ground (arith, breaks_line-tab key)

breaks_line-is_line : (key : Text) → breaks_line key ≡ false → is_line key ≡ true
breaks_line-is_line [] h = refl
breaks_line-is_line (c ∷ key) h = ground (arith, breaks_line-is_line key)

IsCanonical-digits : (s : Text) → IsCanonical s → all is_digit s ≡ true
IsCanonical-digits [] h = refl
IsCanonical-digits (c ∷ []) h = h
IsCanonical-digits (c ∷ d ∷ s) h = h.1

digits-is_line : (s : Text) → all is_digit s ≡ true → is_line s ≡ true
digits-is_line [] h = refl
digits-is_line (c ∷ s) h = ground (arith, digits-is_line s)

-- A claim of a key without a tab or an end of line stands on one line, whose first field it is.
claim_line-is_line :
    (key : Text) (claimed_at : ℕ)
    → breaks_line key ≡ false
    → is_line (claim_line key claimed_at) ≡ true
claim_line-is_line key claimed_at h =
    all-append (λ c. not (c == newline)) key (tab ∷ big_string claimed_at)
      (breaks_line-is_line key h)
      (digits-is_line (big_string claimed_at)
        (IsCanonical-digits (big_string claimed_at) (big_string-IsCanonical claimed_at)))

claim_line-field :
    (key : Text) (claimed_at : ℕ)
    → breaks_line key ≡ false
    → field_of (claim_line key claimed_at) ≡ key
claim_line-field key claimed_at h =
    ap (λ x. first (split_tabs x)) (drop_cr-tab key (big_string claimed_at))
    ∙ split_tabs-first key (drop_cr (big_string claimed_at)) (breaks_line-tab key h)

-- The record of a claim names exactly its key.
pub on_file-claim_line :
    (key other : Text) (claimed_at : ℕ)
    → breaks_line other ≡ false
    → on_file key (claim_line other claimed_at ++ newline ∷ []) ≡ text_eq key other
on_file-claim_line key other claimed_at h =
    ap (on_lines key)
      (raw_lines-line (claim_line other claimed_at) (claim_line-is_line other claimed_at h))
    ∙ ground (arith, claim_line-field other claimed_at h)

-- Where replay accepts a file, every key that is claimed or named before is claimed behind it.
pub replay_lines-keeps :
    (key : Text) (claimed out lines : List Text)
    → replay_lines claimed lines ≡ ok out
    → (text_in key claimed ≡ true) ⊎ (on_lines key lines ≡ true)
    → text_in key out ≡ true
unfolding replay_lines
replay_lines-keeps key claimed out [] h l = ground arith
replay_lines-keeps key claimed out (line ∷ lines) h l =
    elim (Option-cases (claim_of (split_tabs (drop_cr line)))) [
      | inl p ↦ absurd (ground arith)
      | inr (k, p) ↦ ground (
        arith,
        claim_of-first (split_tabs (drop_cr line)) k p,
        replay_lines-keeps key (k ∷ claimed) out lines,
      )
    ]

-- Replay refuses lines behind a claim of the key if one of them names it again.
replay_lines-known :
    (key : Text) (claimed out lines : List Text)
    → text_in key claimed ≡ true
    → on_lines key lines ≡ true
    → replay_lines claimed lines ≢ ok out
unfolding replay_lines
replay_lines-known key claimed out [] c h = λ r. ground arith
replay_lines-known key claimed out (line ∷ lines) c h = λ r.
    elim (Option-cases (claim_of (split_tabs (drop_cr line)))) [
      | inl p ↦ ground arith
      | inr (k, p) ↦ ground (
        arith,
        text_eq_iff key k,
        claim_of-first (split_tabs (drop_cr line)) k p,
        replay_lines-known key (k ∷ claimed) out lines,
      )
    ]

-- Replay refuses lines of which one names the key and a later one names it again.
pub replay_lines-twice :
    (key : Text) (claimed out xs ys : List Text)
    → on_lines key xs ≡ true
    → on_lines key ys ≡ true
    → replay_lines claimed (xs ++ ys) ≢ ok out
unfolding replay_lines
replay_lines-twice key claimed out [] ys h k = λ r. ground arith
replay_lines-twice key claimed out (line ∷ xs) ys h k = λ r.
    elim (Option-cases (claim_of (split_tabs (drop_cr line)))) [
      | inl p ↦ ground arith
      | inr (n, p) ↦ ground (
        arith,
        text_eq_iff key n,
        claim_of-first (split_tabs (drop_cr line)) n p,
        on_lines-append key xs ys,
        replay_lines-known key (n ∷ claimed) out (xs ++ ys),
        replay_lines-twice key (n ∷ claimed) out xs ys,
      )
    ]
