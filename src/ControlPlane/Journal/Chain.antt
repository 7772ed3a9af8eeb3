-- ===== src/ControlPlane/Journal/Chain.antt =====
-- The last hash of a journal speaks for all of it.
use flowops.Prelude.{
  ℕ, ◌+◌, ◌≡◌, refl, ◌∙◌, ap, sym, subst, true, some, List, [], ◌∷◌, Text, text_eq_iff, is_ok,
  length, ok, Result-cases, Option-cases, inl, inr, ◌⊎◌, arith,
}
use flowops.Strings.Lines.{raw_lines, drop_cr}
use flowops.ControlPlane.Journal.{
  Event, HashInput, Outside, input_of, hash_event, validate_event, replay_from, replay,
}

abbrev pub Occurs : Event → List Event → Type 0
Occurs e [] = ⊥
Occurs e (x ∷ xs) = (e ≡ x) ⊎ Occurs e xs

-- No two different events of the two journals have the same hash.
abbrev pub NoCollision : Outside → List Event → List Event → Type 0
NoCollision o es fs =
    (e f : Event)
    → Occurs e es
    → Occurs f fs
    → hash_event o (input_of e) ≡ hash_event o (input_of f)
    → input_of e ≡ input_of f

module _ (o : Outside) where
  -- The events follow each other from the hash `previous` to the hash `last`.
  abbrev Chain : Text → List Event → Text → Type 0
  Chain previous [] last = previous ≡ last
  Chain previous (e ∷ es) last =
      (hash_event o (input_of e) ≡ some e.hash)
      × (e.previous_hash ≡ previous)
      × Chain e.hash es last

  valid-link :
      (e : Event) (count : ℕ) (previous : Text)
      → is_ok (validate_event o e count previous) ≡ true
      → (hash_event o (input_of e) ≡ some e.hash) × (e.previous_hash ≡ previous)
  unfolding validate_event
  valid-link e count previous h = elim (Option-cases (hash_event o (input_of e))) [
    | inl a ↦ absurd (ground arith)
    | inr (want, a) ↦ (
      ground (arith, text_eq_iff e.hash want),
      ground (arith, text_eq_iff e.previous_hash previous),
    )
  ]

  empty-Chain :
      (previous : Text) (es : List Event) (last : Text)
      → es ≡ []
      → previous ≡ last
      → Chain previous es last
  empty-Chain previous [] last e p = p
  empty-Chain previous (x ∷ xs) last e p = absurd (ground arith)

  replay-Chain :
      (count : ℕ) (previous : Text) (lines : List Text) (es : List Event) (last : Text)
      → replay_from o count previous lines ≡ ok (es, last)
      → Chain previous es last
  unfolding replay_from
  replay-Chain count previous [] es last h =
      empty-Chain previous es last (ground arith) (ground arith)
  replay-Chain count previous (line ∷ lines) es last h =
      elim (Option-cases (o.unmarshal (drop_cr line))) [
        | inl a ↦ absurd (ground arith)
        | inr (e, u) ↦ elim (Result-cases (validate_event o e (count + 1) previous)) [
          | inr (x, a) ↦ absurd (ground arith)
          | inl (t, a) ↦ elim (Result-cases (replay_from o (count + 1) e.hash lines)) [
            | inr (x, b) ↦ absurd (ground arith)
            | inl ((r, l), b) ↦
                let (v, p) = valid-link e (count + 1) previous (ground arith) in
                let c = replay-Chain (count + 1) e.hash lines r l b in
                let q : l ≡ last = ground arith in
                let s : e ∷ r ≡ es = ground arith in
                subst (λ g. Chain previous g last) s (v, p, subst (λ g. Chain e.hash r g) q c)
          ]
        ]
      ]

  with_hash : HashInput → Text → Event
  with_hash i h = record {
    version = i.version;
    sequence = i.sequence;
    at = i.at;
    kind = i.kind;
    request_id = i.request_id;
    previous_hash = i.previous_hash;
    payload = i.payload;
    hash = h;
  }

  same-event : (e f : Event) → input_of e ≡ input_of f → e.hash ≡ f.hash → e ≡ f
  unfolding with_hash
  same-event e f i h = ap (λ j. with_hash j e.hash) i ∙ ap (with_hash (input_of f)) h

  Chain-unique :
      (p q l : Text) (es fs : List Event)
      → NoCollision o es fs
      → length es ≡ length fs
      → Chain p es l
      → Chain q fs l
      → (p ≡ q) × (es ≡ fs)
  Chain-unique p q l [] [] apart n c d = (c ∙ sym d, refl)
  Chain-unique p q l [] (f ∷ fs) apart n c d = absurd (ground arith)
  Chain-unique p q l (e ∷ es) [] apart n c d = absurd (ground arith)
  Chain-unique p q l (e ∷ es) (f ∷ fs) apart n (v, a, c) (w, b, d) =
      let (h, r) =
        Chain-unique e.hash f.hash l es fs (λ x y i j. apart x y (inr i) (inr j)) (ground arith) c
          d in
      let i = apart e f (inl refl) (inl refl) (ground arith) in
      let k = same-event e f i h in (ground arith, ground arith)

-- Two files of the same number of lines, no two of whose events collide under the hash: if replay
-- accepts both and ends with the same hash, the events are the same one by one.
pub replay_unique :
    (o : Outside) (file other : Text) (es fs : List Event) (last : Text)
    → replay o file ≡ ok (es, last)
    → replay o other ≡ ok (fs, last)
    → length es ≡ length fs
    → NoCollision o es fs
    → es ≡ fs
unfolding replay
replay_unique o file other es fs last h k n apart =
    (Chain-unique o [] [] last es fs apart n (replay-Chain o 0 [] (raw_lines file) es last h)
      (replay-Chain o 0 [] (raw_lines other) fs last k)).1
