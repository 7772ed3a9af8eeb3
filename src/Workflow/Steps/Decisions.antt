-- ===== src/Workflow/Steps/Decisions.antt =====
-- The effects of Create, Get, Approve and Cancel.
use flowops.Prelude.{
  ℕ, leb, ◌/◌, ◌≡◌, refl, true, ◌&&◌, none, some, Text, is_ok, lookup, Option-cases, Bool-cases,
  inl, inr, arith,
}
use flowops.Workflow.Types.{proposed, Actor, Workflow}
use flowops.Workflow.Rules.{second, validate_actor}
use flowops.Workflow.Store.{
  MemoryStore, Action, approve, cancel, get, is_proposed, expired_at, action_scope, refusal,
  decided, transition, expire,
}
use flowops.Workflow.Binding.{Outside}
use flowops.Workflow.Steps.{Change, expires, approves, cancels, Effect, keeps, changes, get-lookup}

pub expire-Effect :
    (o : Outside) (org id : Text) (now : ℕ) (s : MemoryStore) → Effect o s (expire org id now s).1
unfolding expire
expire-Effect o org id now s = elim (Option-cases (get org id s)) [
  | inl g ↦ keeps (ground arith) (ground arith)
  | inr (w, g) ↦ elim (Bool-cases (is_proposed w.state && leb w.expires_at now)) [
    | inr a ↦ keeps (ground arith) (ground arith)
    | inl a ↦
        changes id w (expired_at now w) (get-lookup org id s w g).0
          (expires now (ground arith) refl) (ground arith) (ground arith)
  ]
]

pub transition-Effect :
    (o : Outside) (actor : Actor) (id : Text) (action : Action) (key input_hash : Text) (now : ℕ)
    (s : MemoryStore)
    → ((w v : Workflow)
        → get actor.organization_id id s ≡ some w
        → refusal action actor w ≡ none
        → decided action actor now w ≡ some v
        → Change w v)
    → Effect o s (transition actor id action key input_hash now s).1
unfolding transition
transition-Effect o actor id action key input_hash now s change =
    elim (Option-cases
      (lookup (action_scope actor.organization_id actor.principal_id action key) s.actions)) [
        | inr (stored, a) ↦ keeps (ground arith) (ground arith)
        | inl a ↦ elim (Option-cases (get actor.organization_id id s)) [
          | inl g ↦ keeps (ground arith) (ground arith)
          | inr (w, g) ↦ elim (Option-cases (refusal action actor w)) [
            | inr (e, r) ↦ keeps (ground arith) (ground arith)
            | inl r ↦ elim (Option-cases (decided action actor now w)) [
              | inl d ↦ keeps (ground arith) (ground arith)
              | inr (v, d) ↦
                  changes id w v (get-lookup actor.organization_id id s w g).0 (change w v g r d)
                    (ground arith) (ground arith)
            ]
          ]
        ]
      ]

pub decided-cancel :
    (actor : Actor) (now : ℕ) (w v : Workflow)
    → refusal cancel actor w ≡ none
    → decided cancel actor now w ≡ some v
    → Change w v
unfolding decided
decided-cancel actor now w v r d = elim (Bool-cases (is_proposed w.state && leb w.expires_at now)) [
  | inl a ↦ expires now (ground arith) (ground arith)
  | inr a ↦ cancels actor now (ground arith) (ground arith) (ground arith)
]

-- `now` is in nanoseconds here.
pub decided-approve :
    (actor : Actor) (now : ℕ) (w v : Workflow)
    → (w.state ≡ proposed → is_ok (validate_actor actor now true) ≡ true)
    → refusal approve actor w ≡ none
    → decided approve actor (now / second) w ≡ some v
    → Change w v
unfolding decided validate_actor
decided-approve actor now w v f r d =
    elim (Bool-cases (is_proposed w.state && leb w.expires_at (now / second))) [
      | inl a ↦ expires (now / second) (ground arith) (ground arith)
      | inr a ↦
          let p : w.state ≡ proposed = ground arith in
          let q = f p in
          approves actor now p
            (record {
              differs = ground arith;
              role = ground arith;
              window = ground arith;
              stepped_up = ground arith;
              fresh = ground arith;
              lasting = ground arith;
            })
            (ground arith)
    ]
