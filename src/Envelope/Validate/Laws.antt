-- ===== src/Envelope/Validate/Laws.antt =====
-- What a valid authorization satisfies.
use flowops.Prelude.{
  ℕ, ◌<◌, ◌≤◌, ◌≡◌, ◌⊎◌, ◌↔◌, refl, true, false, Option, none, some, Text, [], ◌∷◌, ok, text_eq,
  text_eq_iff, all, arith, inl, inr, Result-cases,
}
use flowops.Amount.{value, parse_positive, parse_non_negative}
use flowops.Envelope.Grammar.{
  rail_escrow, known_rail, valid_identifier, address_pattern, nonce_pattern,
}
use flowops.Envelope.Types.{EscrowTerms, EscrowPointer, Authorization}
use flowops.Envelope.Escrow.{derive_escrow_call_id, validate_terms, max_int64}
use flowops.Envelope.Validate.{validate_atomic_amount, validate_escrow, validate}

-- The amount check of the envelope and the parser of the policy engine accept the same texts.
pub validate_atomic_amount_iff :
    (s : Text) → (validate_atomic_amount s ≡ ok tt) ↔ ((n : ℕ) × (parse_positive s ≡ ok n))
unfolding validate_atomic_amount parse_positive parse_non_negative
validate_atomic_amount_iff [] = (λ h. cc, λ (n, h). ground arith)
validate_atomic_amount_iff (c ∷ []) =
    (λ h. (value 0 (c ∷ []), ground arith), λ (n, h). ground arith)
validate_atomic_amount_iff (c ∷ d ∷ s) =
    (λ h. (value 0 (c ∷ d ∷ s), ground arith), λ (n, h). ground arith)

-- Terms that bind the call: their parties, their deadlines and the derived identifier.
pub record IsBound (keccak : Text → Text) (t : EscrowTerms) (chain_id : ℕ) (recipient : Text)
    : Type 0 where
  pub chain : (chain_id ≡ 8453) ⊎ (chain_id ≡ 84532)
  pub provider : t.provider ≡ recipient
  pub parties : text_eq t.buyer t.provider ≡ false
  pub deadlines :
      (0 < t.acknowledge_by) × (t.acknowledge_by < t.deliver_by) × (t.deliver_by ≤ max_int64)
  pub window : (0 < t.release_window) × (t.release_window ≤ 2592000)
  pub call :
      derive_escrow_call_id keccak chain_id t.contract t.buyer t.task_digest t.request_digest
      ≡ ok t.call_id

-- Terms that pass Validate name a supported chain, pay the approved recipient, who is not the
-- buyer, have ordered deadlines and a release window of at most 30 days, and carry the call
-- identifier that is derived from the chain, the contract, the buyer and the two digests.
pub validate_terms-IsBound :
    (keccak : Text → Text) (t : EscrowTerms) (chain_id : ℕ) (recipient : Text)
    → validate_terms keccak t chain_id recipient ≡ ok tt
    → IsBound keccak t chain_id recipient
unfolding validate_terms
validate_terms-IsBound keccak t chain_id recipient h =
    elim (Result-cases
      (derive_escrow_call_id keccak chain_id t.contract t.buyer t.task_digest t.request_digest)) [
        | inl (want, q) ↦
            ground (arith, text_eq_iff t.provider recipient, text_eq_iff want t.call_id)
        | inr (e, q) ↦ absurd (ground arith)
      ]

-- What the escrow field of an authorization has to be.
abbrev pub EscrowFits : (Text → Text) → Authorization → Option EscrowPointer → Type 0
EscrowFits keccak a none = text_eq a.rail rail_escrow ≡ false
EscrowFits keccak a (some p) =
    (text_eq a.rail rail_escrow ≡ true)
    × IsBound keccak p.terms a.chain_id a.recipient
    × (a.issued_at < p.terms.acknowledge_by)
    × (a.expires_at ≤ p.terms.acknowledge_by)

pub record IsValid (keccak : Text → Text) (a : Authorization) : Type 0 where
  pub identifiers :
      all valid_identifier (
        a.authorization_id ∷ a.organization_id ∷ a.customer_id ∷ a.agent_id ∷ a.task_id
        ∷ a.action_id ∷ a.policy_version ∷ [])
      ≡ true
  pub rail : known_rail a.rail ≡ true
  pub chain : 0 < a.chain_id
  pub addresses : (address_pattern a.recipient ≡ true) × (address_pattern a.asset ≡ true)
  pub nonce : nonce_pattern a.nonce ≡ true
  pub amount : validate_atomic_amount a.amount_atomic ≡ ok tt
  pub window : (0 < a.issued_at) × (a.issued_at < a.expires_at)

validate-IsValid :
    (keccak : Text → Text) (a : Authorization) → validate keccak a ≡ ok tt → IsValid keccak a
unfolding validate
validate-IsValid keccak a h = ground arith

validate-EscrowFits :
    (keccak : Text → Text) (a : Authorization)
    → validate keccak a ≡ ok tt
    → (o : Option EscrowPointer) → a.escrow ≡ o
    → EscrowFits keccak a o
unfolding validate validate_escrow
validate-EscrowFits keccak a h none e = ground arith
validate-EscrowFits keccak a h (some p) e =
    ground (arith, validate_terms-IsBound keccak p.terms a.chain_id a.recipient)

-- A valid authorization has well-formed identifiers, addresses and nonce, a known rail, a canonical
-- positive amount below 2^256 and a window that ends after it begins; it has escrow terms exactly
-- on the escrow rail, and these are bound to its chain and recipient and not acknowledged before
-- the window has ended.
pub validate_sound :
    (keccak : Text → Text) (a : Authorization)
    → validate keccak a ≡ ok tt
    → IsValid keccak a
      × ((n : ℕ) × (parse_positive a.amount_atomic ≡ ok n))
      × EscrowFits keccak a a.escrow
validate_sound keccak a h =
    let valid = validate-IsValid keccak a h in
    (
      valid,
      (validate_atomic_amount_iff a.amount_atomic).0 valid.amount,
      validate-EscrowFits keccak a h a.escrow refl,
    )
