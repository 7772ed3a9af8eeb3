-- ===== src/Workflow/Steps/Refine.antt =====
-- The life of a workflow, without the store: an abstract machine, and the service as one of its runs.
use flowops.Prelude.{
  ℕ, ◌≡◌, Bool, true, false, ◌||◌, Option, none, some, Text, text_eq, lookup, insert, lookup-insert,
  if◌then◌else◌, ap, inl, inr, arith,
}
use flowops.Workflow.Types.{
  Kind, State, proposed, approved_pending_chain, submitted, confirmed, finalized, reverted, reorged,
  timed_out, requires_reapproval, cancelled, expired, state_eq, Workflow,
}
use flowops.Workflow.Store.{MemoryStore}
use flowops.Workflow.Chain.{
  completed, active_chain_state, chain_side_state, completion_candidate_state,
  valid_failure_transition,
}
use flowops.Workflow.Binding.{Outside, completion_digest}
use flowops.Workflow.Steps.{
  Change, expires, approves, cancels, submits, retries, confirms, fails, Effect, keeps, stores,
  changes, finalizes,
}
use flowops.Workflow.Steps.Reached.{Step, Step-Effect}

-- What a proposal fixes for good: who asked for which call.
pub record Terms : Type 0 where
  pub organization_id : Text
  pub kind : Kind
  pub payload_hash : Text
  pub chain_id : ℕ
  pub contract_address : Text
  pub function_selector : Text
  pub calldata : Text
  pub governance_action : Text
  pub proposed_by : Text
  pub expires_at : ℕ

pub record Life : Type 0 where
  pub terms : Terms
  pub state : State

-- The states that may come after a state.
abbrev pub may_follow : State → State → Bool
may_follow proposed t =
    state_eq t approved_pending_chain
    || state_eq t finalized
    || state_eq t cancelled
    || state_eq t expired
may_follow approved_pending_chain t =
    state_eq t submitted
    || state_eq t timed_out
    || state_eq t requires_reapproval
    || state_eq t finalized
may_follow submitted t =
    state_eq t confirmed
    || state_eq t reverted
    || state_eq t reorged
    || state_eq t timed_out
    || state_eq t requires_reapproval
    || state_eq t finalized
may_follow confirmed t =
    state_eq t reorged || state_eq t requires_reapproval || state_eq t finalized
may_follow reverted t = state_eq t requires_reapproval || state_eq t finalized
may_follow reorged t =
    state_eq t submitted || state_eq t requires_reapproval || state_eq t finalized
may_follow timed_out t =
    state_eq t submitted || state_eq t requires_reapproval || state_eq t finalized
may_follow requires_reapproval t = state_eq t finalized
may_follow _ _ = false

abbrev pub Lives : Type 0
Lives = Text → Option Life

-- One step of the machine: at most one workflow is opened as a proposal or moves along an edge, and
-- its terms stay.
pub data AbstractStep (f g : Lives) : Type 0 where
  stutters : ((j : Text) → g j ≡ f j) → AbstractStep f g
  opens :
      (id : Text) (terms : Terms)
      → f id ≡ none
      → ((j : Text)
          → g j ≡ (if text_eq id j then some (record { terms = terms; state = proposed }) else f j))
      → AbstractStep f g
  moves :
      (id : Text) (terms : Terms) (a b : State)
      → f id ≡ some (record { terms = terms; state = a })
      → may_follow a b ≡ true
      → ((j : Text)
          → g j ≡ (if text_eq id j then some (record { terms = terms; state = b }) else f j))
      → AbstractStep f g

abbrev pub terms_of : Workflow → Terms
terms_of w = record {
  organization_id = w.organization_id;
  kind = w.kind;
  payload_hash = w.payload_hash;
  chain_id = w.chain_id;
  contract_address = w.contract_address;
  function_selector = w.function_selector;
  calldata = w.calldata;
  governance_action = w.governance_action;
  proposed_by = w.proposed_by;
  expires_at = w.expires_at;
}

abbrev pub life_of : Workflow → Life
life_of w = record { terms = terms_of w; state = w.state }

-- What the machine sees of a store.
abbrev pub lives : MemoryStore → Lives
lives s = λ id. elim (lookup id s.workflows) [ none ↦ none | some w ↦ some (life_of w) ]

valid_failure-may_follow :
    (a b : State) → valid_failure_transition a b ≡ true → may_follow a b ≡ true
unfolding valid_failure_transition
valid_failure-may_follow a b h = ground arith

Change-may_follow : (w v : Workflow) → Change w v → may_follow w.state v.state ≡ true
Change-may_follow w v (expires now p q) = ground arith
Change-may_follow w v (approves actor now p m q) = ground arith
Change-may_follow w v (cancels actor now p m q) = ground arith
Change-may_follow w v (submits h now p q) = ground arith
Change-may_follow w v (retries h now (inl p) q) = ground arith
Change-may_follow w v (retries h now (inr p) q) = ground arith
Change-may_follow w v (confirms now p q) = ground arith
Change-may_follow w v (fails state why now p q) =
    let e = valid_failure-may_follow w.state state p in ground arith

Change-terms : (w v : Workflow) → Change w v → terms_of v ≡ terms_of w
Change-terms w v (expires now p q) = ap terms_of q
Change-terms w v (approves actor now p m q) = ap terms_of q
Change-terms w v (cancels actor now p m q) = ap terms_of q
Change-terms w v (submits h now p q) = ap terms_of q
Change-terms w v (retries h now p q) = ap terms_of q
Change-terms w v (confirms now p q) = ap terms_of q
Change-terms w v (fails state why now p q) = ap terms_of q

inserted-moves :
    (s t : MemoryStore) (id : Text) (w v : Workflow)
    → lookup id s.workflows ≡ some w
    → terms_of v ≡ terms_of w
    → may_follow w.state v.state ≡ true
    → t.workflows ≡ insert id v s.workflows
    → AbstractStep (lives s) (lives t)
inserted-moves s t id w v l e f p =
    moves id (terms_of w) w.state v.state (ground arith) f
      (λ j. ground (arith, lookup-insert id j v s.workflows))

Effect-AbstractStep :
    (o : Outside) (s t : MemoryStore) → Effect o s t → AbstractStep (lives s) (lives t)
unfolding completed completion_candidate_state active_chain_state chain_side_state
Effect-AbstractStep o s t (keeps p q) = stutters (λ j. ground arith)
Effect-AbstractStep o s t (stores id w n new p q) =
    let h = new.state in
    opens id (terms_of w) (ground arith) (λ j. ground (arith, lookup-insert id j w s.workflows))
Effect-AbstractStep o s t (changes id w v m c p q) =
    inserted-moves s t id w v m (Change-terms w v c) (Change-may_follow w v c) p
Effect-AbstractStep o s t (finalizes id w r now m c p q e) =
    let h = c.candidate in
    inserted-moves s t id w (completed r (completion_digest o r) (o.marshal_receipt r) now w) m
      (ground arith) (ground arith) p

-- Every call of the service is a step of the machine, seen through `lives`, or leaves what the
-- machine sees as it is.
pub Step-refines : (o : Outside) {s t : MemoryStore} → Step o s t → AbstractStep (lives s) (lives t)
Step-refines o {s} {t} st = Effect-AbstractStep o s t (Step-Effect o st)
