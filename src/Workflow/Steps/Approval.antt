-- ===== src/Workflow/Steps/Approval.antt =====
-- Two people stand behind every workflow that is past its approval.
use flowops.Prelude.{
  ℕ, ◌+◌, ◌/◌, ◌≤◌, ◌<◌, ◌≡◌, Bool, true, false, not, ◌&&◌, some, Text, text_eq, lookup, insert,
  lookup-insert, ap, sym, subst, Bool-cases, inl, inr, arith,
}
use flowops.Workflow.Types.{
  Kind, Role, State, proposed, cancelled, expired, state_eq, Actor, Workflow, CompletionReceipt,
}
use flowops.Workflow.Rules.{second, proposal_ttl, can_propose, can_approve}
use flowops.Workflow.Store.{MemoryStore, approved_by}
use flowops.Workflow.Chain.{
  completed, active_chain_state, chain_side_state, completion_candidate_state,
  valid_failure_transition,
}
use flowops.Workflow.Binding.{Outside, completion_digest}
use flowops.Workflow.Steps.{
  MayApprove, Change, expires, approves, cancels, submits, retries, confirms, fails, Completes,
  IsNew, Effect, keeps, stores, changes, finalizes,
}
use flowops.Workflow.Steps.Reached.{empty_store, Reach, here, next, Step-Effect}

-- Past the approval: the states that only an approval leads to.
abbrev pub is_approved : State → Bool
is_approved s = not (state_eq s proposed) && not (state_eq s cancelled) && not (state_eq s expired)

-- Another person than the proposer approved, in a role for the kind, inside the proposal's window
-- of 24 hours, at most 300 seconds after a step-up that was still valid.
pub record Approved (w : Workflow) : Type 0 where
  pub differs : text_eq w.approved_by w.proposed_by ≡ false
  pub role : can_approve w.kind w.approver_role ≡ true
  pub window : w.approved_at < w.proposed_at + proposal_ttl
  pub stepped_up : w.approver_step_up_at ≤ w.approved_at
  pub fresh : w.approved_at ≤ w.approver_step_up_at + 300
  pub lasting : w.approved_at ≤ w.approver_step_up_until

pub record Sound (w : Workflow) : Type 0 where
  pub proposer : can_propose w.kind w.proposer_role ≡ true
  pub ttl : w.expires_at ≡ w.proposed_at + proposal_ttl
  pub approved : is_approved w.state ≡ true → Approved w

-- What only an approval writes, and what nothing does.
record Decision : Type 0 where
  kind : Kind
  proposed_by : Text
  proposer_role : Role
  proposed_at : ℕ
  expires_at : ℕ
  approved_by : Text
  approver_role : Role
  approved_at : ℕ
  step_up_at : ℕ
  step_up_until : ℕ

abbrev decision : Workflow → Decision
decision w = record {
  kind = w.kind;
  proposed_by = w.proposed_by;
  proposer_role = w.proposer_role;
  proposed_at = w.proposed_at;
  expires_at = w.expires_at;
  approved_by = w.approved_by;
  approver_role = w.approver_role;
  approved_at = w.approved_at;
  step_up_at = w.approver_step_up_at;
  step_up_until = w.approver_step_up_until;
}

Sound-same :
    (w v : Workflow)
    → Sound w
    → decision v ≡ decision w
    → (is_approved v.state ≡ true → is_approved w.state ≡ true)
    → Sound v
Sound-same w v sound same f = record {
  proposer = ground arith;
  ttl = ground arith;
  approved = λ h.
      let a = sound.approved (f h) in
      record {
        differs = ground arith;
        role = ground arith;
        window = ground arith;
        stepped_up = ground arith;
        fresh = ground arith;
        lasting = ground arith;
      };
}

approved_by-Sound :
    (actor : Actor) (now : ℕ) (w : Workflow)
    → Sound w
    → MayApprove w actor now
    → Sound (approved_by actor (now / second) w)
approved_by-Sound actor now w sound may = record {
  proposer = sound.proposer;
  ttl = sound.ttl;
  approved = λ h. record {
    differs = may.differs;
    role = may.role;
    window = ground arith;
    stepped_up = ground arith;
    fresh = ground arith;
    lasting = ground arith;
  };
}

Change-Sound : (w v : Workflow) → Sound w → Change w v → Sound v
unfolding valid_failure_transition
Change-Sound w v sound (expires now p q) = Sound-same w v sound (ap decision q) (ground arith)
Change-Sound w v sound (approves actor now p m q) =
    subst Sound (sym q) (approved_by-Sound actor now w sound m)
Change-Sound w v sound (cancels actor now p m q) =
    Sound-same w v sound (ap decision q) (ground arith)
Change-Sound w v sound (submits h now p q) = Sound-same w v sound (ap decision q) (ground arith)
Change-Sound w v sound (retries h now p q) = Sound-same w v sound (ap decision q) (ground arith)
Change-Sound w v sound (confirms now p q) = Sound-same w v sound (ap decision q) (ground arith)
Change-Sound w v sound (fails state why now p q) =
    Sound-same w v sound (ap decision q) (ground arith)

IsNew-Sound : (w : Workflow) → IsNew w → Sound w
IsNew-Sound w new = record {
  proposer = new.proposer;
  ttl = new.window;
  approved = λ h. absurd (ground arith);
}

completed-Sound :
    (r : CompletionReceipt) (digest bytes : Text) (now : ℕ) (w : Workflow)
    → Sound w
    → Completes w r
    → Sound (completed r digest bytes now w)
unfolding completed completion_candidate_state active_chain_state chain_side_state
completed-Sound r digest bytes now w sound c =
    Sound-same w (completed r digest bytes now w) sound (ground arith) (ground arith)

abbrev pub AllSound : MemoryStore → Type 0
AllSound s = (id : Text) (w : Workflow) → lookup id s.workflows ≡ some w → Sound w

inserted-Sound :
    (s t : MemoryStore) (id : Text) (v : Workflow)
    → AllSound s
    → Sound v
    → t.workflows ≡ insert id v s.workflows
    → AllSound t
inserted-Sound s t id v all new p j w l = elim (Bool-cases (text_eq id j)) [
  | inl a ↦
      let q : w ≡ v = ground (arith, lookup-insert id j v s.workflows) in subst Sound (sym q) new
  | inr a ↦ all j w (ground (arith, lookup-insert id j v s.workflows))
]

Effect-Sound : (o : Outside) (s t : MemoryStore) → Effect o s t → AllSound s → AllSound t
Effect-Sound o s t (keeps p q) all = λ id w l. all id w (ground arith)
Effect-Sound o s t (stores id v n new p q) all = inserted-Sound s t id v all (IsNew-Sound v new) p
Effect-Sound o s t (changes id u v m c p q) all =
    inserted-Sound s t id v all (Change-Sound u v (all id u m) c) p
Effect-Sound o s t (finalizes id u r now m c p q e) all =
    inserted-Sound s t id (completed r (completion_digest o r) (o.marshal_receipt r) now u) all
      (completed-Sound r (completion_digest o r) (o.marshal_receipt r) now u (all id u m) c) p

pub Reach-Sound : (o : Outside) {s t : MemoryStore} → Reach o s t → AllSound s → AllSound t
Reach-Sound o here all = all
Reach-Sound o (next {t} {u} r st) all = Effect-Sound o t u (Step-Effect o st) (Reach-Sound o r all)

-- Whatever calls have been made of a service over an empty store, with whatever answers from the
-- clock, the gate and the observer: a workflow that is neither a proposal nor cancelled nor expired
-- was proposed in a role that may propose its kind, and approved by somebody else in a role that may
-- approve its kind, less than 24 hours after the proposal and at most 300 seconds after a step-up.
pub behind_two_people :
    (o : Outside) {s : MemoryStore} (id : Text) (w : Workflow)
    → Reach o empty_store s
    → lookup id s.workflows ≡ some w
    → is_approved w.state ≡ true
    → (can_propose w.kind w.proposer_role ≡ true) × Approved w
unfolding lookup
behind_two_people o id w r l h =
    let sound = Reach-Sound o r (λ i v m. absurd (ground arith)) id w l in
    (sound.proposer, sound.approved h)
