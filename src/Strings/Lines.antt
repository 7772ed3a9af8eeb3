-- ===== src/Strings/Lines.antt =====
-- The lines of a file as bufio.Scanner with bufio.ScanLines reads them, and appends to a file.
use flowops.Prelude.{
  ℕ, zero, suc, ◌==◌, ◌≡◌, ◌≢◌, refl, ap, sym, ◌∙◌, Bool, true, not, List, [], ◌∷◌, ◌++◌, Text, all,
  if◌then◌else◌, arith,
}

abbrev pub newline : ℕ
newline = 10

-- A byte in front of the first line.
abbrev pub cons_first : ℕ → List Text → List Text
cons_first c [] = (c ∷ []) ∷ []
cons_first c (l ∷ ls) = (c ∷ l) ∷ ls

-- The lines without their newlines; what stands behind the last newline is a line if it is not empty.
unfoldable pub raw_lines : Text → List Text
raw_lines [] = []
raw_lines (c ∷ s) = let rest = raw_lines s in if c == newline then [] ∷ rest else cons_first c rest

-- dropCR of the package bufio.
unfoldable pub drop_cr : Text → Text
drop_cr [] = []
drop_cr (c ∷ []) = if c == 13 then [] else c ∷ []
drop_cr (c ∷ d ∷ s) = c ∷ drop_cr (d ∷ s)

-- A file that is empty or ends with a newline.
abbrev pub is_whole : Text → Bool
is_whole [] = true
is_whole (c ∷ []) = c == newline
is_whole (c ∷ d ∷ s) = is_whole (d ∷ s)

-- A text without a newline.
abbrev pub is_line : Text → Bool
is_line s = all (λ c. not (c == newline)) s

-- The first bytes of a text.
abbrev pub take : ℕ → Text → Text
take zero s = []
take (suc n) [] = []
take (suc n) (c ∷ s) = c ∷ take n s

pub append_assoc : (s t u : Text) → (s ++ t) ++ u ≡ s ++ (t ++ u)
append_assoc [] t u = refl
append_assoc (c ∷ s) t u = ap (λ x. c ∷ x) (append_assoc s t u)

cons_first-append :
    (c : ℕ) (xs ys : List Text) → xs ≢ [] → cons_first c (xs ++ ys) ≡ cons_first c xs ++ ys
cons_first-append c [] ys n = absurd (n refl)
cons_first-append c (x ∷ xs) ys n = refl

raw_lines-filled : (c : ℕ) (s : Text) → raw_lines (c ∷ s) ≢ []
unfolding raw_lines
raw_lines-filled c s h = ground arith

-- What is appended to a whole file is read behind the lines of the file.
pub raw_lines-append :
    (f g : Text) → is_whole f ≡ true → raw_lines (f ++ g) ≡ raw_lines f ++ raw_lines g
unfolding raw_lines
raw_lines-append [] g h = refl
raw_lines-append (c ∷ []) g h = ground arith
raw_lines-append (c ∷ d ∷ s) g h = ground (
  arith,
  raw_lines-append (d ∷ s) g h,
  cons_first-append c (raw_lines (d ∷ s)) (raw_lines g) (raw_lines-filled d s),
)

-- A text without a newline, and then a newline, is one line.
pub raw_lines-line : (l : Text) → is_line l ≡ true → raw_lines (l ++ newline ∷ []) ≡ l ∷ []
unfolding raw_lines
raw_lines-line [] h = refl
raw_lines-line (c ∷ l) h = ground (arith, raw_lines-line l)

ends_whole : (s : Text) → is_whole (s ++ newline ∷ []) ≡ true
ends_whole [] = refl
ends_whole (c ∷ []) = refl
ends_whole (c ∷ d ∷ s) = ends_whole (d ∷ s)

-- A file stays whole when a line with its newline is appended, whatever it held before.
pub is_whole-append : (f l : Text) → is_whole (f ++ (l ++ newline ∷ [])) ≡ true
is_whole-append f l = ap is_whole (sym (append_assoc f l (newline ∷ []))) ∙ ends_whole (f ++ l)
