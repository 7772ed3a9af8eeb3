-- ===== src/Envelope/Types.antt =====
-- pkg/envelope/envelope.go: the records. Timestamps are Unix seconds; a negative one is refused
-- wherever 0 is, and is not represented.
use flowops.Prelude.{ℕ, ◌==◌, Bool, true, false, ◌&&◌, Option, none, some, Text, text_eq}
use flowops.Envelope.Grammar.{Rail}

pub record EscrowTerms : Type 0 where
  pub contract : Text
  pub buyer : Text
  pub provider : Text
  pub call_id : Text
  pub task_digest : Text
  pub request_digest : Text
  pub acknowledge_by : ℕ
  pub deliver_by : ℕ
  pub release_window : ℕ

-- A *EscrowTerms that is not nil: where it points, which is what Go's == on pointers compares, and
-- the terms there, which the program never changes.
pub record EscrowPointer : Type 0 where
  pub address : ℕ
  pub terms : EscrowTerms

pub record Authorization : Type 0 where
  pub version : Text
  pub authorization_id : Text
  pub organization_id : Text
  pub customer_id : Text
  pub agent_id : Text
  pub task_id : Text
  pub action_id : Text
  pub rail : Rail
  pub chain_id : ℕ
  pub recipient : Text
  pub asset : Text
  pub amount_atomic : Text
  pub resource : Text
  pub policy_version : Text
  pub nonce : Text
  pub issued_at : ℕ
  pub expires_at : ℕ
  pub escrow : Option EscrowPointer

pub record SignedAuthorization : Type 0 where
  pub authorization : Authorization
  pub key_id : Text
  pub signature : Text

-- Go's == on *EscrowTerms.
unfoldable pub pointer_eq : Option EscrowPointer → Option EscrowPointer → Bool
pointer_eq none none = true
pointer_eq none (some _) = false
pointer_eq (some _) none = false
pointer_eq (some p) (some q) = p.address == q.address

-- Go's == on Authorization: all fields, the escrow terms by their pointers.
unfoldable pub authorization_eq : Authorization → Authorization → Bool
unfolding pointer_eq
authorization_eq a b =
    text_eq a.version b.version
    && text_eq a.authorization_id b.authorization_id
    && text_eq a.organization_id b.organization_id
    && text_eq a.customer_id b.customer_id
    && text_eq a.agent_id b.agent_id
    && text_eq a.task_id b.task_id
    && text_eq a.action_id b.action_id
    && text_eq a.rail b.rail
    && a.chain_id == b.chain_id
    && text_eq a.recipient b.recipient
    && text_eq a.asset b.asset
    && text_eq a.amount_atomic b.amount_atomic
    && text_eq a.resource b.resource
    && text_eq a.policy_version b.policy_version
    && text_eq a.nonce b.nonce
    && a.issued_at == b.issued_at
    && a.expires_at == b.expires_at
    && pointer_eq a.escrow b.escrow

-- Go's == on SignedAuthorization.
unfoldable pub signed_eq : SignedAuthorization → SignedAuthorization → Bool
unfolding authorization_eq
signed_eq s t =
    authorization_eq s.authorization t.authorization
    && text_eq s.key_id t.key_id
    && text_eq s.signature t.signature
