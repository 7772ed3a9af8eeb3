-- ===== src/Signer/Journal/Restart.antt =====
-- Go compares escrow terms by their pointers, and JSON decodes each pointer to a place of its own:
-- what that does to a file that holds an escrow attempt.
use flowops.Prelude.{
  ◌≡◌, ◌≢◌, refl, Bool, true, false, ◌&&◌, Option, none, some, List, [], ◌∷◌, ◌++◌, ok,
  Result-cases, inl, inr, arith,
}
use flowops.Envelope.Types.{Authorization, EscrowPointer, authorization_eq, pointer_eq}
use flowops.Signer.Types.{Outside, Attempt, validate_attempt}
use flowops.Signer.Journal.{AttemptEvent, Journal, Codec, apply, replay_line, replay}

abbrev pub signed_terms : Attempt → Option EscrowPointer
signed_terms a = a.authorization.authorization.escrow

abbrev pub authorized_terms : Attempt → Option EscrowPointer
authorized_terms a = a.authorized.authorization.escrow

-- json.Unmarshal allocates what it stores behind a nil pointer, each time anew.
pub record Allocates (c : Codec) : Type 0 where
  pub apart :
      (a : Attempt) (t u : EscrowPointer)
      → signed_terms a ≡ some t
      → authorized_terms a ≡ some u
      → (p : EscrowPointer) × (q : EscrowPointer) × (signed_terms (c.reload a) ≡ some p)
        × (authorized_terms (c.reload a) ≡ some q)
        × (p.address ≢ q.address)

pointer_eq-apart :
    (s t : Option EscrowPointer) (p q : EscrowPointer)
    → s ≡ some p
    → t ≡ some q
    → p.address ≢ q.address
    → pointer_eq s t ≡ false
unfolding pointer_eq
pointer_eq-apart s t p q h k n = ground arith

and_false : (x y : Bool) → y ≡ false → (x && y) ≡ false
and_false true y h = h
and_false false y h = refl

pub authorization_eq-pointers :
    (a b : Authorization) (p q : EscrowPointer)
    → a.escrow ≡ some p
    → b.escrow ≡ some q
    → p.address ≢ q.address
    → authorization_eq a b ≡ false
unfolding authorization_eq
authorization_eq-pointers a b p q h k n =
    and_false _ (pointer_eq a.escrow b.escrow) (pointer_eq-apart a.escrow b.escrow p q h k n)

module _ (o : Outside) (c : Codec) where
  validate_attempt-pointers :
      (a : Attempt)
      → authorization_eq a.authorization.authorization a.authorized.authorization ≡ false
      → validate_attempt o a ≢ ok tt
  unfolding validate_attempt
  validate_attempt-pointers a h = λ k. ground arith

  replay_line-pointers :
      (j j' : Journal) (e : AttemptEvent)
      → authorization_eq e.payload.authorization.authorization e.payload.authorized.authorization
        ≡ false
      → replay_line o c j e ≢ ok j'
  unfolding replay_line apply
  replay_line-pointers j j' e h = λ k. ground (arith, validate_attempt-pointers e.payload h)

  replay-refused :
      (before after : List (Option AttemptEvent)) (e : AttemptEvent) (j j' : Journal)
      → authorization_eq e.payload.authorization.authorization e.payload.authorized.authorization
        ≡ false
      → replay o c j (before ++ some e ∷ after) ≢ ok j'
  unfolding replay
  replay-refused [] after e j j' h k = elim (Result-cases (replay_line o c j e)) [
    | inl (j₁, v) ↦ replay_line-pointers j j₁ e h v
    | inr (x, v) ↦ ground arith
  ]
  replay-refused (none ∷ before) after e j j' h k = ground arith
  replay-refused (some d ∷ before) after e j j' h k = elim (Result-cases (replay_line o c j d)) [
    | inl (j₁, v) ↦ replay-refused before after e j₁ j' h (ground arith)
    | inr (x, v) ↦ ground arith
  ]

  -- A file with a line whose payload was written from an attempt with escrow terms, in whatever
  -- state, is refused by replay from every journal, whatever stands before and behind the line, if
  -- JSON allocates what it decodes.
  pub escrow_attempt-replay_refused :
      Allocates c
      → (a : Attempt) (t u : EscrowPointer) (e : AttemptEvent) → signed_terms a ≡ some t
      → authorized_terms a ≡ some u
      → e.payload ≡ c.reload a
      → (before after : List (Option AttemptEvent)) (j j' : Journal)
      → replay o c j (before ++ some e ∷ after) ≢ ok j'
  escrow_attempt-replay_refused alloc a t u e h k same before after j j' =
      let (p, q, hp, hq, n) = alloc.apart a t u h k in
      replay-refused before after e j j' (
        rw same (
          authorization_eq-pointers (c.reload a).authorization.authorization
            (c.reload a).authorized.authorization p q hp hq n))
