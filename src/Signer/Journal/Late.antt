-- ===== src/Signer/Journal/Late.antt =====
-- An authorization is late when its attempt is no longer PREPARED: in the table of the journal, or
-- in a line of its file. No transition makes a late authorization prepared again.
use flowops.Prelude.{
  ◌≡◌, refl, Bool, true, false, not, ◌||◌, ◌&&◌, Option, none, some, List, [], ◌∷◌, ◌++◌, Text,
  text_eq, Table, lookup, insert, lookup-insert, text_eq_iff, ok, Result-cases, inl, inr,
  Option-cases, Bool-cases, arith, if◌then◌else◌, ◌⊎◌,
}
use flowops.Signer.Types.{Outside, AttemptState, broadcasting, Attempt}
use flowops.Signer.Journal.{
  AttemptEvent, Journal, Codec, valid_transition, is_prepared, validate_transition, apply,
  replay_line, replay,
}

abbrev pub is_late : AttemptState → Bool
is_late s = not (is_prepared s)

abbrev pub late_entry : Option Attempt → Bool
late_entry none = false
late_entry (some a) = is_late a.state

abbrev pub late_in : Text → Table Attempt → Bool
late_in id attempts = late_entry (lookup id attempts)

abbrev pub late_line : Text → Option AttemptEvent → Bool
late_line id none = false
late_line id (some e) = text_eq e.authorization_id id && is_late e.payload.state

abbrev pub late_on : Text → List (Option AttemptEvent) → Bool
late_on id [] = false
late_on id (l ∷ lines) = late_line id l || late_on id lines

pub late_on-append :
    (id : Text) (xs ys : List (Option AttemptEvent))
    → late_on id (xs ++ ys) ≡ (late_on id xs || late_on id ys)
late_on-append id [] ys = refl
late_on-append id (l ∷ xs) ys = ground (arith, late_on-append id xs ys)

valid_transition-late : (s t : AttemptState) → valid_transition s t ≡ true → is_late t ≡ true
unfolding valid_transition
valid_transition-late s t h = ground arith

valid_transition-broadcasting :
    (s : AttemptState) → valid_transition s broadcasting ≡ true → is_late s ≡ false
unfolding valid_transition
valid_transition-broadcasting s h = ground arith

-- Over a late entry only a late attempt can be written.
pub validate_transition-late :
    (m : Table Attempt) (k : Text) (next : Attempt)
    → validate_transition m k next ≡ ok tt
    → late_in k m ≡ true
    → is_late next.state ≡ true
unfolding validate_transition
validate_transition-late m k next h l = elim (Option-cases (lookup k m)) [
  | inl e ↦ ground arith
  | inr (a, e) ↦ ground (arith, valid_transition-late a.state next.state)
]

-- BROADCASTING is entered from PREPARED.
pub validate_transition-broadcasting :
    (m : Table Attempt) (k : Text) (next : Attempt)
    → validate_transition m k next ≡ ok tt
    → next.state ≡ broadcasting
    → late_in k m ≡ false
unfolding validate_transition
validate_transition-broadcasting m k next h s = elim (Option-cases (lookup k m)) [
  | inl e ↦ ground arith
  | inr (a, e) ↦ ground (arith, valid_transition-broadcasting a.state)
]

pub late_in-insert :
    (id k : Text) (a : Attempt) (m : Table Attempt)
    → late_in id (insert k a m) ≡ (if text_eq k id then is_late a.state else late_in id m)
late_in-insert id k a m = ground (arith, lookup-insert k id a m)

-- Writing an allowed attempt keeps what is late, and makes its own entry as late as it is.
pub insert-late :
    (id k : Text) (a : Attempt) (m : Table Attempt)
    → validate_transition m k a ≡ ok tt
    → (late_in id m ≡ true) ⊎ ((text_eq k id && is_late a.state) ≡ true)
    → late_in id (insert k a m) ≡ true
insert-late id k a m h l = elim (Bool-cases (text_eq k id)) [
  | inr e ↦ ground (arith, late_in-insert id k a m)
  | inl e ↦
      let same = (text_eq_iff k id).0 e in
      ground (arith, late_in-insert id k a m, validate_transition-late m k a h)
]

module _ (o : Outside) (c : Codec) (id : Text) where
  apply-late :
      (m m' : Table Attempt) (k : Text) (a : Attempt)
      → apply o c m k a ≡ ok m'
      → (late_in id m ≡ true) ⊎ ((text_eq k id && is_late a.state) ≡ true)
      → late_in id m' ≡ true
  unfolding apply
  apply-late m m' k a h l = elim (Result-cases (validate_transition m k a)) [
    | inl (u, v) ↦ ground (arith, insert-late id k a m)
    | inr (e, v) ↦ ground arith
  ]

  replay_line-late :
      (j j' : Journal) (e : AttemptEvent)
      → replay_line o c j e ≡ ok j'
      → (late_in id j.attempts ≡ true) ⊎ (late_line id (some e) ≡ true)
      → late_in id j'.attempts ≡ true
  unfolding replay_line
  replay_line-late j j' e h l =
      elim (Result-cases (apply o c j.attempts e.authorization_id e.payload)) [
        | inl (m, v) ↦ ground (arith, apply-late j.attempts m e.authorization_id e.payload v l)
        | inr (x, v) ↦ ground arith
      ]

  -- What is late in the file is late in the table that replay builds from it.
  pub replay-late :
      (lines : List (Option AttemptEvent)) (j j' : Journal)
      → replay o c j lines ≡ ok j'
      → (late_in id j.attempts ≡ true) ⊎ (late_on id lines ≡ true)
      → late_in id j'.attempts ≡ true
  unfolding replay
  replay-late [] j j' h l = ground arith
  replay-late (none ∷ lines) j j' h l = ground arith
  replay-late (some e ∷ lines) j j' h l = elim (Result-cases (replay_line o c j e)) [
    | inr (x, v) ↦ ground arith
    | inl (j₁, v) ↦ elim (Bool-cases (late_on id lines)) [
      | inl t ↦ replay-late lines j₁ j' (ground arith) (inr t)
      | inr f ↦
          replay-late lines j₁ j' (ground arith) (inl (replay_line-late j j₁ e v (ground arith)))
    ]
  ]
