-- ===== src/Workflow/Steps/Settles.antt =====
-- A proposal does not stay open.
use flowops.Prelude.{
  ◌+◌, ◌*◌, ◌/◌, ◌≤◌, ◌≡◌, true, false, some, Text, text_eq, text_eq_refl, is_ok, lookup,
  lookup-insert, Result-cases, inl, inr, arith,
}
use flowops.Workflow.Types.{proposed, Actor, Workflow}
use flowops.Workflow.Grammar.{hash}
use flowops.Workflow.Rules.{second, proposal_ttl, validate_actor}
use flowops.Workflow.Store.{MemoryStore, get, expire, expired_at}
use flowops.Workflow.Binding.{Outside, Answers}
use flowops.Workflow.Service.{get_current}
use flowops.Workflow.Steps.Reached.{empty_store, Reach}
use flowops.Workflow.Steps.Approval.{Reach-Sound}

get_current-expires :
    (o : Outside) (ans : Answers) (actor : Actor) (id : Text) (s : MemoryStore) (w : Workflow)
    → lookup id s.workflows ≡ some w
    → text_eq w.organization_id actor.organization_id ≡ true
    → hash o.unicode_lower id ≡ true
    → is_ok (validate_actor actor (ans.now / second * second) false) ≡ true
    → w.state ≡ proposed
    → w.expires_at ≤ ans.now / second
    → lookup id (get_current o ans actor id s).1.workflows ≡ some (expired_at (ans.now / second) w)
unfolding get_current expire get
get_current-expires o ans actor id s w l g h v p e =
    elim (Result-cases (validate_actor actor (ans.now / second * second) false)) [
      | inr (x, a) ↦ absurd (ground arith)
      | inl (t, a) ↦ ground (
        arith,
        text_eq_refl id,
        lookup-insert id id (expired_at (ans.now / second) w) s.workflows,
      )
    ]

-- No proposal stays open: whatever calls led to the store, once 24 hours have gone by since the
-- proposal, the next Get by anybody of the organization, on a workflow whose identifier has the form
-- of a hash, leaves the proposal expired.
pub proposal_settles :
    (o : Outside) (ans : Answers) (actor : Actor) (id : Text) {s : MemoryStore} (w : Workflow)
    → Reach o empty_store s
    → lookup id s.workflows ≡ some w
    → w.state ≡ proposed
    → text_eq w.organization_id actor.organization_id ≡ true
    → hash o.unicode_lower id ≡ true
    → is_ok (validate_actor actor (ans.now / second * second) false) ≡ true
    → w.proposed_at + proposal_ttl ≤ ans.now / second
    → lookup id (get_current o ans actor id s).1.workflows ≡ some (expired_at (ans.now / second) w)
unfolding lookup
proposal_settles o ans actor id {s} w r l p g h v e =
    let sound = Reach-Sound o r (λ i v m. absurd (ground arith)) id w l in
    get_current-expires o ans actor id s w l g h v p (ground arith)
