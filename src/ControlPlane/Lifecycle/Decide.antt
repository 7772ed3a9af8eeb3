-- ===== src/ControlPlane/Lifecycle/Decide.antt =====
-- internal/controlplane/lifecycle.go: Decide, SweepExpired and the lookups.
use flowops.Prelude.{
  ℕ, suc, ◌/◌, ltb, Bool, true, false, not, ◌||◌, ◌&&◌, Option, none, some, List, [], ◌∷◌, Text,
  codes, text_eq, length, Table, lookup, Result, ok, err, if◌then◌else◌,
}
use flowops.Envelope.Grammar.{valid_identifier}
use flowops.Strings.Sorted.{sort_texts}
use flowops.ControlPlane.Intent.{
  ApprovalAction, approve, reject, unknown_action, Approval, Record, Outside, read_approval,
}
use flowops.ControlPlane.Memory.{Event, approval_payload, is_pending, is_approved}
use flowops.ControlPlane.Budget.{second}
use flowops.ControlPlane.Lifecycle.{
  Plane, Answers, LifecycleError, unknown_request, not_pending_approval, approval_digest,
  bad_action, bad_actor, append_event, expire, has_expired, expired_result,
}

abbrev pub is_action : ApprovalAction → Bool
is_action approve = true
is_action reject = true
is_action unknown_action = false

-- The record that is returned behind a successful append.
abbrev found : Text → Plane → Result LifecycleError Record
found request_id w = elim (lookup request_id w.memory.records) [
  | none ↦ err unknown_request
  | some r ↦ ok r
]

abbrev pub approval_event : Outside → Answers → Text → Approval → Event
approval_event o ans request_id approval = record {
  at = ans.now / second;
  request_id = request_id;
  payload = approval_payload (read_approval o approval);
}

module _ (o : Outside) where
  -- Decide for the record that the request names, inside its window.
  unfoldable pub record_approval :
      Answers → Text → Approval → Plane → Result LifecycleError Record × Plane
  record_approval ans request_id approval w =
      let (result, w') = append_event o ans.append (approval_event o ans request_id approval) w in
      (elim result [ err e ↦ err e | ok _ ↦ found request_id w' ], w')

  -- The method Decide.
  unfoldable pub decide :
      Answers
      → Text
      → Text
      → ApprovalAction
      → Text
      → Text
      → Plane
      → Result LifecycleError Record × Plane
  decide ans request_id digest action actor note w =
      if not (is_action action)
      then (err bad_action, w)
      else if not (valid_identifier actor) || ltb 2048 (length note)
      then (err bad_actor, w)
      else elim (lookup request_id w.memory.records) [
        | none ↦ (err unknown_request, w)
        | some r ↦
            if not (is_pending r.state)
            then (err not_pending_approval, w)
            else if not (text_eq digest r.request_digest)
            then (err approval_digest, w)
            else if has_expired ans r
            then (let (result, w') =
                  expire o ans r (codes "approval window elapsed before decision") w in
                (err (expired_result result), w'))
            else record_approval ans request_id
                (record {
                  action = action;
                  actor = actor;
                  note = note;
                  request_digest = digest;
                  decided_at = ans.now / second;
                })
                w
      ]

  -- Whether the sweep takes a record.
  abbrev is_due : Answers → Record → Bool
  is_due ans r = (is_pending r.state || is_approved r.state) && has_expired ans r

  abbrev due : Answers → Table Record → List Text
  due ans [] = []
  due ans ((k, r) ∷ m) = let rest = due ans m in if is_due ans r then k ∷ rest else rest

  -- The loop of SweepExpired; the k-th append is answered by `appends k`.
  unfoldable pub sweep_loop :
      (ℕ → Answers) → ℕ → List Text → Plane → ℕ × Result LifecycleError (Unit {0}) × Plane
  sweep_loop answers completed [] w = (completed, ok tt, w)
  sweep_loop answers completed (k ∷ ks) w = elim (lookup k w.memory.records) [
    | none ↦ (completed, err unknown_request, w)
    | some r ↦
        let (result, w') =
          expire o (answers completed) r (codes "approval window elapsed during sweep") w in
        elim result [
          | err e ↦ (completed, err e, w')
          | ok _ ↦ sweep_loop answers (suc completed) ks w'
        ]
  ]

  -- The method SweepExpired.
  unfoldable pub sweep_expired :
      (ℕ → Answers) → Plane → ℕ × Result LifecycleError (Unit {0}) × Plane
  sweep_expired answers w = sweep_loop answers 0 (sort_texts (due (answers 0) w.memory.records)) w

-- The method Get.
unfoldable pub get : Text → Plane → Option Record
get request_id w = lookup request_id w.memory.records

-- The method GetByAuthorization.
unfoldable pub get_by_authorization : Text → Plane → Option Record
get_by_authorization authorization_id w =
    elim (lookup authorization_id w.memory.request_by_authorization) [
      | none ↦ none
      | some request_id ↦ lookup request_id w.memory.records
    ]
