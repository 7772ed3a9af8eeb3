-- ===== src/ControlPlane/Memory/Authorized.antt =====
-- What the replay of any journal's events guarantees of an authorization.
use flowops.Prelude.{
  subst, ◌≡◌, ◌≢◌, refl, Bool, true, ◌||◌, some, List, [], ◌∷◌, Text, text_eq, is_some, lookup,
  insert, lookup-insert, ok, Result-cases, Option-cases, Bool-cases, inl, inr, arith, Table,
}
use flowops.Envelope.Types.{Authorization}
use flowops.Policy.Types.{auto_approve}
use flowops.ControlPlane.Intent.{
  State, issued, expired, approve, Approval, Record, Outside, decision_state, state_eq,
}
use flowops.ControlPlane.Memory.{
  Event, Payload, submitted_payload, approval_payload, issued_payload, expired_payload, unreadable,
  Memory, is_approved, is_pending, fresh_state, decided_state, authorization_matches,
  apply_submitted, apply_approval, apply_issued, apply_expired, apply_payload, apply_event, replay,
  empty_memory,
}

-- The policy approved the intent without a human, or a human approved the digest of the request.
pub data Granted (r : Record) : Type 0 where
  by_policy : r.decision.outcome ≡ auto_approve → Granted r
  by_human :
      (a : Approval)
      → r.approval ≡ some a
      → a.action ≡ approve
      → text_eq a.request_digest r.request_digest ≡ true
      → Granted r

regrant :
    (r : Record) (a : Authorization)
    → Granted r
    → Granted (record r { state = issued; authorization = some a })
regrant r a (by_policy h) = by_policy h
regrant r a (by_human b h k q) = by_human b h k q

abbrev pub is_live : State → Bool
is_live s = is_approved s || state_eq s issued

inserted-same :
    (m : Table Record) (k j : Text) (r s : Record)
    → text_eq k j ≡ true
    → lookup j (insert k r m) ≡ some s
    → r ≡ s
inserted-same m k j r s p l = ground (arith, lookup-insert k j r m)

module _ (o : Outside) where
  record Sound (r : Record) : Type 0 where
    matches : (a : Authorization) → r.authorization ≡ some a → authorization_matches o r a ≡ true
    issues : is_some r.authorization ≡ true → r.state ≡ issued
    grants : is_live r.state ≡ true → Granted r

  abbrev AllSound : Memory → Type 0
  AllSound m = (k : Text) (r : Record) → lookup k m.records ≡ some r → Sound r

  insert-AllSound :
      (m : Table Record) (k : Text) (r : Record)
      → Sound r
      → ((j : Text) (s : Record) → lookup j m ≡ some s → Sound s)
      → (j : Text) (s : Record) → lookup j (insert k r m) ≡ some s
      → Sound s
  insert-AllSound m k r h all j s l = elim (Bool-cases (text_eq k j)) [
    | inl p ↦ subst Sound (inserted-same m k j r s p l) h
    | inr p ↦ all j s (ground (arith, lookup-insert k j r m))
  ]

  fresh_state-Sound : (r : Record) → fresh_state o r ≡ true → Sound r
  unfolding decision_state
  fresh_state-Sound r h = record {
    matches = λ a p. absurd (ground arith);
    issues = λ p. absurd (ground arith);
    grants = λ p. by_policy (ground arith);
  }

  not_issued : (r : Record) → Sound r → is_pending r.state ≡ true → is_some r.authorization ≢ true
  not_issued r sound p = λ h. ground (arith, sound.issues h)

  decided-Sound :
      (r : Record) (a : Approval) (t : State)
      → Sound r
      → is_pending r.state ≡ true
      → decided_state o a.action ≡ some t
      → text_eq a.request_digest r.request_digest ≡ true
      → Sound (record r { state = t; approval = some a })
  decided-Sound r a t sound p q d = record {
    matches = λ b h. absurd (not_issued r sound p (ground arith));
    issues = λ h. absurd (not_issued r sound p h);
    grants = λ h. by_human a refl (ground arith) d;
  }

  issued-Sound :
      (r : Record) (a : Authorization)
      → Sound r
      → is_approved r.state ≡ true
      → authorization_matches o r a ≡ true
      → Sound (record r { state = issued; authorization = some a })
  unfolding authorization_matches
  issued-Sound r a sound p q = record {
    matches = λ b h. ground arith;
    issues = λ h. refl;
    grants = λ h. regrant r a (sound.grants (ground arith));
  }

  expired-Sound :
      (r : Record)
      → Sound r
      → (is_pending r.state || is_approved r.state) ≡ true
      → Sound (record r { state = expired })
  expired-Sound r sound p = record {
    matches = λ b h. absurd (ground (arith, sound.issues));
    issues = λ h. absurd (ground (arith, sound.issues));
    grants = λ h. absurd (ground arith);
  }

  apply_submitted-AllSound :
      (e : Event) (r : Record) (m m' : Memory)
      → apply_submitted o e r m ≡ ok m'
      → AllSound m
      → AllSound m'
  unfolding apply_submitted
  apply_submitted-AllSound e r m m' h sound j s l =
      insert-AllSound m.records r.request_id r (fresh_state-Sound r (ground arith)) sound j s
        (ground arith)

  apply_approval-AllSound :
      (e : Event) (a : Approval) (m m' : Memory)
      → apply_approval o e a m ≡ ok m'
      → AllSound m
      → AllSound m'
  unfolding apply_approval
  apply_approval-AllSound e a m m' h sound j s l =
      elim (Option-cases (lookup e.request_id m.records)) [
        | inl p ↦ absurd (ground arith)
        | inr (r, p) ↦ elim (Option-cases (decided_state o a.action)) [
          | inl q ↦ absurd (ground arith)
          | inr (t, q) ↦
              insert-AllSound m.records e.request_id (record r { state = t; approval = some a })
                (decided-Sound r a t (sound e.request_id r p) (ground arith) q (ground arith)) sound
                j s (ground arith)
        ]
      ]

  apply_issued-AllSound :
      (e : Event) (a : Authorization) (m m' : Memory)
      → apply_issued o e a m ≡ ok m'
      → AllSound m
      → AllSound m'
  unfolding apply_issued
  apply_issued-AllSound e a m m' h sound j s l =
      elim (Option-cases (lookup e.request_id m.records)) [
        | inl p ↦ absurd (ground arith)
        | inr (r, p) ↦
            insert-AllSound m.records e.request_id
              (record r { state = issued; authorization = some a })
              (issued-Sound r a (sound e.request_id r p) (ground arith) (ground arith)) sound j s
              (ground arith)
      ]

  apply_expired-AllSound :
      (e : Event) (reason : Text) (m m' : Memory)
      → apply_expired o e reason m ≡ ok m'
      → AllSound m
      → AllSound m'
  unfolding apply_expired
  apply_expired-AllSound e reason m m' h sound j s l =
      elim (Option-cases (lookup e.request_id m.records)) [
        | inl p ↦ absurd (ground arith)
        | inr (r, p) ↦
            insert-AllSound m.records e.request_id (record r { state = expired })
              (expired-Sound r (sound e.request_id r p) (ground arith)) sound j s (ground arith)
      ]

  apply_payload-AllSound :
      (p : Payload) (e : Event) (m m' : Memory)
      → apply_payload o p e m ≡ ok m'
      → AllSound m
      → AllSound m'
  unfolding apply_payload
  apply_payload-AllSound (submitted_payload r) e m m' h = apply_submitted-AllSound e r m m' h
  apply_payload-AllSound (approval_payload a) e m m' h = apply_approval-AllSound e a m m' h
  apply_payload-AllSound (issued_payload a) e m m' h = apply_issued-AllSound e a m m' h
  apply_payload-AllSound (expired_payload reason) e m m' h = apply_expired-AllSound e reason m m' h
  apply_payload-AllSound unreadable e m m' h = absurd (ground arith)

  replay-nil : (m m' : Memory) → replay o m [] ≡ ok m' → m ≡ m'
  unfolding replay
  replay-nil m m' h = ground arith

  nothing : (k : Text) (r : Record) → lookup k empty_memory.records ≢ some r
  unfolding lookup
  nothing k r = λ h. ground arith

  replay-AllSound :
      (m m' : Memory) (es : List Event) → replay o m es ≡ ok m' → AllSound m → AllSound m'
  unfolding replay apply_event
  replay-AllSound m m' [] h sound = subst AllSound (replay-nil m m' h) sound
  replay-AllSound m m' (e ∷ es) h sound = elim (Result-cases (apply_event o e m)) [
    | inr (x, v) ↦ absurd (ground arith)
    | inl (n, v) ↦
        replay-AllSound n m' es (ground arith) (apply_payload-AllSound e.payload e m n v sound)
  ]

  -- In every memory that is rebuilt from the events of a journal, whatever they are: a record with an
  -- authorization is issued; the authorization is valid, repeats the record's intent and policy
  -- version, and is issued and expires within the record's window; and the policy approved the intent
  -- without a human, or a human approved the digest of the request.
  pub replay-authorized :
      (m : Memory) (es : List Event) (k : Text) (r : Record) (a : Authorization)
      → replay o empty_memory es ≡ ok m
      → lookup k m.records ≡ some r
      → r.authorization ≡ some a
      → (r.state ≡ issued) × (authorization_matches o r a ≡ true) × Granted r
  replay-authorized m es k r a h l p =
      let sound = replay-AllSound empty_memory m es h (λ j s q. absurd (nothing j s q)) k r l in
      let is_issued = sound.issues (ground arith) in
      (is_issued, sound.matches a p, sound.grants (ground arith))
