-- ===== src/Workflow/Steps/Receipts.antt =====
-- A receipt of the chain finalizes one workflow.
use flowops.Prelude.{
  ℕ, ◌≡◌, ◌≢◌, refl, true, false, none, some, Text, text_eq, text_eq→eq, text_eq_iff, lookup,
  insert, lookup-insert, sym, subst, Bool-cases, inl, inr, arith,
}
use flowops.Workflow.Types.{State, finalized, Workflow, CompletionReceipt}
use flowops.Workflow.Rules.{requires_chain_receipt}
use flowops.Workflow.Store.{MemoryStore, ReceiptOwner}
use flowops.Workflow.Chain.{completed, receipt_key, owner_conflict, valid_failure_transition}
use flowops.Workflow.Binding.{Outside, completion_digest}
use flowops.Workflow.Steps.{
  Change, expires, approves, cancels, submits, retries, confirms, fails, Completes, IsNew, Effect,
  keeps, stores, changes, finalizes,
}
use flowops.Workflow.Steps.Reached.{empty_store, Reach, here, next, Step-Effect}

-- The receipt that finalized a workflow, and that the store holds as this workflow's own.
pub record Proof (o : Outside) (s : MemoryStore) (id : Text) (w : Workflow) : Type 0 where
  pub receipt : CompletionReceipt
  pub stored : w.completion_receipt ≡ o.marshal_receipt receipt
  pub payload : w.payload_hash ≡ receipt.payload_hash
  pub transaction : w.submission_tx_hash ≡ receipt.transaction_hash
  pub owned :
      lookup (receipt_key receipt) s.receipts
      ≡ some (record { workflow_id = id; digest = completion_digest o receipt })

owner-kept :
    (id digest : Text) (owner : ReceiptOwner)
    → owner_conflict id digest (some owner) ≡ none
    → owner ≡ record { workflow_id = id; digest = digest }
owner-kept id digest owner h =
    ground (arith, text_eq_iff owner.workflow_id id, text_eq_iff owner.digest digest)

valid_failure-unfinalized : (a b : State) → valid_failure_transition a b ≡ true → b ≢ finalized
unfolding valid_failure_transition
valid_failure-unfinalized a b h e = ground arith

module _ (o : Outside) where
  abbrev Proven : MemoryStore → Type 0
  Proven s =
      (id : Text) (w : Workflow)
      → lookup id s.workflows ≡ some w
      → w.state ≡ finalized
      → requires_chain_receipt w.kind ≡ true
      → Proof o s id w

  -- A key that has an owner keeps it.
  Effect-owner :
      (s t : MemoryStore) (key : Text) (owner : ReceiptOwner)
      → Effect o s t
      → lookup key s.receipts ≡ some owner
      → lookup key t.receipts ≡ some owner
  Effect-owner s t key owner (keeps p q) l = ground arith
  Effect-owner s t key owner (stores id v n new p q) l = ground arith
  Effect-owner s t key owner (changes id u v m c p q) l = ground arith
  Effect-owner s t key owner (finalizes id u r now m c p q e) l =
      elim (Bool-cases (text_eq (receipt_key r) key)) [
        | inl a ↦
            let b = text_eq→eq (receipt_key r) key a in
            let d = owner-kept id (completion_digest o r) owner (ground arith) in
            ground (
              arith,
              lookup-insert (receipt_key r) key
                  (record { workflow_id = id; digest = completion_digest o r }) s.receipts,
            )
        | inr a ↦ ground (
          arith,
          lookup-insert (receipt_key r) key
              (record { workflow_id = id; digest = completion_digest o r }) s.receipts,
        )
      ]

  Change-unfinalized :
      (w v : Workflow) → Change w v → v.state ≡ finalized → requires_chain_receipt v.kind ≡ false
  unfolding valid_failure_transition
  Change-unfinalized w v (expires now p q) h = ground arith
  Change-unfinalized w v (approves actor now p m q) h = ground arith
  Change-unfinalized w v (cancels actor now p m q) h = ground arith
  Change-unfinalized w v (submits hash now p q) h = ground arith
  Change-unfinalized w v (retries hash now p q) h = ground arith
  Change-unfinalized w v (confirms now p q) h = ground arith
  Change-unfinalized w v (fails state why now p q) h =
      absurd (valid_failure-unfinalized w.state state p (ground arith))

  Effect-Proof :
      (s t : MemoryStore) (id : Text) (w : Workflow)
      → Effect o s t
      → Proof o s id w
      → Proof o t id w
  Effect-Proof s t id w e p = record {
    receipt = p.receipt;
    stored = p.stored;
    payload = p.payload;
    transaction = p.transaction;
    owned =
        Effect-owner s t (receipt_key p.receipt)
          (record { workflow_id = id; digest = completion_digest o p.receipt }) e p.owned;
  }

  new-unfinalized : (w : Workflow) → IsNew w → w.state ≢ finalized
  new-unfinalized w new e = ground (arith, new.state)

  completed-Proof :
      (s t : MemoryStore) (id : Text) (w : Workflow) (r : CompletionReceipt) (now : ℕ)
      → Completes w r
      → t.receipts
        ≡ insert
            (receipt_key r)
            (record { workflow_id = id; digest = completion_digest o r })
            s.receipts
      → Proof o t id (completed r (completion_digest o r) (o.marshal_receipt r) now w)
  unfolding completed
  completed-Proof s t id w r now c e = record {
    receipt = r;
    stored = refl;
    payload = ground (arith, text_eq_iff w.payload_hash r.payload_hash, c.payload);
    transaction = ground arith;
    owned = ground (
      arith,
      text_eq_iff (receipt_key r) (receipt_key r),
      lookup-insert (receipt_key r) (receipt_key r)
          (record { workflow_id = id; digest = completion_digest o r }) s.receipts,
    );
  }

  -- Everything but the workflow `v` under `id` was there before.
  inserted-Proven :
      (s t : MemoryStore) (id : Text) (v : Workflow)
      → Proven s
      → Effect o s t
      → t.workflows ≡ insert id v s.workflows
      → (v.state ≡ finalized → requires_chain_receipt v.kind ≡ true → Proof o t id v)
      → Proven t
  inserted-Proven s t id v all e p new j w l f k = elim (Bool-cases (text_eq id j)) [
    | inl a ↦
        let q : w ≡ v = ground (arith, lookup-insert id j v s.workflows) in
        let b : id ≡ j = text_eq→eq id j a in
        subst (λ i. Proof o t i w) b
          (subst (λ u. Proof o t id u) (sym q) (new (ground arith) (ground arith)))
    | inr a ↦
        Effect-Proof s t j w e (all j w (ground (arith, lookup-insert id j v s.workflows)) f k)
  ]

  Effect-Proven : (s t : MemoryStore) → Effect o s t → Proven s → Proven t
  Effect-Proven s t (keeps p q) all =
      λ id w l f k. Effect-Proof s t id w (keeps p q) (all id w (ground arith) f k)
  Effect-Proven s t (stores id v n new p q) all =
      inserted-Proven s t id v all (stores id v n new p q) p
        (λ f k. absurd (new-unfinalized v new f))
  Effect-Proven s t (changes id u v m c p q) all =
      inserted-Proven s t id v all (changes id u v m c p q) p
        (λ f k. let d = Change-unfinalized u v c f in absurd (ground arith))
  Effect-Proven s t (finalizes id u r now m c p q e) all =
      inserted-Proven s t id (completed r (completion_digest o r) (o.marshal_receipt r) now u) all
        (finalizes id u r now m c p q e) p (λ f k. completed-Proof s t id u r now c e)

  Reach-Proven : {s t : MemoryStore} → Reach o s t → Proven s → Proven t
  Reach-Proven here all = all
  Reach-Proven (next {t} {u} r st) all = Effect-Proven t u (Step-Effect o st) (Reach-Proven r all)

-- Whatever calls have been made of a service over an empty store: a finalized workflow of a kind
-- with a receipt of the chain holds the encoding of one, for its own payload and for the transaction
-- it names, and the store has this receipt down as this workflow's, under its own digest.
pub finalized_by_receipt :
    (o : Outside) {s : MemoryStore} (id : Text) (w : Workflow)
    → Reach o empty_store s
    → lookup id s.workflows ≡ some w
    → w.state ≡ finalized
    → requires_chain_receipt w.kind ≡ true
    → Proof o s id w
unfolding lookup
finalized_by_receipt o id w r l f k = Reach-Proven o r (λ i v m. absurd (ground arith)) id w l f k

-- The workflow and the digest that own the receipt under a key stay its owners, whatever calls follow.
pub receipt_owner_stays :
    (o : Outside) {s t : MemoryStore} (key : Text) (owner : ReceiptOwner)
    → Reach o s t
    → lookup key s.receipts ≡ some owner
    → lookup key t.receipts ≡ some owner
receipt_owner_stays o key owner here l = l
receipt_owner_stays o key owner (next {t} {u} r st) l =
    Effect-owner o t u key owner (Step-Effect o st) (receipt_owner_stays o key owner r l)
