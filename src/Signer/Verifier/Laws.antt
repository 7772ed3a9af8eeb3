-- ===== src/Signer/Verifier/Laws.antt =====
-- What an authorization that the signer accepts satisfies, and that its nonce is used up.
use flowops.Prelude.{
  ◌/◌, ℕ, ◌+◌, ◌*◌, ◌≤◌, ◌<◌, ◌≡◌, ◌≢◌, ◌↔◌, refl, Bool, true, false, some, [], ◌∷◌, Text, text_in,
  nat_in, lookup, text_eq_iff, ok, Result-cases, Option-cases, inl, inr, arith,
}
use flowops.Amount as Amount
use flowops.Amount.{value}
use flowops.Envelope.Types.{Authorization, SignedAuthorization}
use flowops.Envelope.Sign.{Crypto, digest, verify}
use flowops.Signer.Types.{Authorized}
use flowops.Signer.Nonces.{NonceStore, LineWritten, landed, stopped, unsynced, claim, write_claim}
use flowops.Signer.Verifier.{
  Verifier, Gates, second, sub_time, parse_positive, check_amount, check_authorization,
  check_execution, claim_key, authorize,
}

-- The parser of this package accepts what the policy package's parser accepts, with the same value.
parse_positive_iff :
    (s : Text) (n : ℕ) → (parse_positive s ≡ some n) ↔ (Amount.parse_positive s ≡ ok n)
unfolding parse_positive Amount.parse_positive Amount.parse_non_negative value
parse_positive_iff [] n = ground arith
parse_positive_iff (c ∷ []) n = ground arith
parse_positive_iff (c ∷ d ∷ s) n = ground arith

pub record IsWithin (v : Verifier) (g : Gates) (a : Authorization) : Type 0 where
  pub organization : a.organization_id ≡ v.organization_id
  pub customer : a.customer_id ≡ v.customer_id
  pub issued : a.issued_at * second ≤ g.now + v.max_future_skew
  pub unexpired : g.now < a.expires_at * second
  pub ttl : sub_time (a.expires_at * second) (a.issued_at * second) ≤ v.max_ttl
  pub chain : nat_in a.chain_id v.chains ≡ true
  pub rail : text_in a.rail v.rails ≡ true
  pub asset : text_in a.asset v.assets ≡ true
  pub recipient : text_in a.recipient v.recipients ≡ true
  pub amount : check_amount v a.amount_atomic ≡ ok tt
  pub healthy : g.chain_healthy ≡ true
  pub unfrozen : g.is_frozen ≡ false

-- The order of the checks does not matter for acceptance.
check_authorization_iff :
    (v : Verifier) (g : Gates) (a : Authorization)
    → (check_authorization v g a ≡ ok tt) ↔ IsWithin v g a
unfolding check_authorization
check_authorization_iff v g a =
    let org = text_eq_iff a.organization_id v.organization_id in
    let customer = text_eq_iff a.customer_id v.customer_id in
    (
      λ h. elim (Result-cases (check_amount v a.amount_atomic)) [
        | inl (u, q) ↦ ground arith
        | inr (e, q) ↦ absurd (ground arith)
      ],
      λ w. ground arith,
    )

check_amount_iff :
    (v : Verifier) (s : Text)
    → (check_amount v s ≡ ok tt) ↔ ((n : ℕ) × (Amount.parse_positive s ≡ ok n) × (n ≤ v.max_amount))
unfolding check_amount
check_amount_iff v s = elim (Option-cases (parse_positive s)) [
  | inl e ↦ (λ h. cc, λ (n, h, k). ground (arith, parse_positive_iff s n))
  | inr (n, e) ↦ (
    λ h. (n, (parse_positive_iff s n).0 e, ground arith),
    λ (m, h, k). ground (arith, parse_positive_iff s m),
  )
]

module _ (c : Crypto) (v : Verifier) (g : Gates) (now : ℕ) (x : Bool) (wr : LineWritten)
    (s : SignedAuthorization) (store : NonceStore) where
  check_execution_sound :
      check_execution c v g s ≡ ok tt
      → ((key : Text) × (lookup s.key_id v.trust_keys ≡ some key) × (verify c s key ≡ ok tt))
        × IsWithin v g s.authorization
  unfolding check_execution
  check_execution_sound h = elim (Option-cases (lookup s.key_id v.trust_keys)) [
    | inl e ↦ absurd (ground arith)
    | inr (key, e) ↦ elim (Result-cases (verify c s key)) [
      | inr (y, q) ↦ absurd (ground arith)
      | inl (u, q) ↦
          ((key, e, ground arith), (check_authorization_iff v g s.authorization).0 (ground arith))
    ]
  ]

  claim_sound :
      (key : Text) (claimed_at : ℕ) (t : NonceStore)
      → claim x wr key claimed_at store ≡ (ok tt, t)
      → (text_in key store.claimed ≡ false) × (t.claimed ≡ key ∷ store.claimed)
  unfolding claim write_claim
  claim_sound key claimed_at t h = claim_sound_by wr refl
    where
      claim_sound_by :
          (wr' : LineWritten)
          → wr ≡ wr'
          → (text_in key store.claimed ≡ false) × (t.claimed ≡ key ∷ store.claimed)
      claim_sound_by landed e = ground arith
      claim_sound_by (stopped n) e = ground arith
      claim_sound_by unsynced e = ground arith

  -- What Authorize accepts is signed under a trusted key, belongs to this customer, is issued and
  -- not expired within the skew and the longest window, names an allowed chain, rail, asset and
  -- recipient and an amount up to the cap, while the chain is healthy and nothing is frozen; it is
  -- returned as it was signed, and its nonce was free before and is claimed after.
  pub authorize_sound :
      (a : Authorized) (t : NonceStore)
      → authorize c v g now x wr s store ≡ (ok a, t)
      → ((key : Text) × (lookup s.key_id v.trust_keys ≡ some key) × (verify c s key ≡ ok tt))
        × IsWithin v g s.authorization
        × ((n : ℕ) × (Amount.parse_positive s.authorization.amount_atomic ≡ ok n)
            × (n ≤ v.max_amount))
        × (a.authorization ≡ s.authorization)
        × (text_in (claim_key c v s.key_id s.authorization) store.claimed ≡ false)
        × (t.claimed ≡ claim_key c v s.key_id s.authorization ∷ store.claimed)
  unfolding authorize
  authorize_sound a t h = elim (Result-cases (check_execution c v g s)) [
    | inr (e, q) ↦ absurd (ground arith)
    | inl (u, q) ↦ elim (Result-cases (digest c s.authorization)) [
      | inr (e, d) ↦ absurd (ground arith)
      | inl (d, e) ↦
          let (signed, within) = check_execution_sound q in
          let claimed =
            claim_sound (claim_key c v s.key_id s.authorization) (now / second) t (ground arith) in
          (
            signed,
            within,
            (check_amount_iff v s.authorization.amount_atomic).0 within.amount,
            ground arith,
            claimed.0,
            claimed.1,
          )
    ]
  ]

  -- An authorization whose nonce is claimed is never accepted, and the store stays as it is.
  pub authorize-replay :
      text_in (claim_key c v s.key_id s.authorization) store.claimed ≡ true
      → ((a : Authorized) → (authorize c v g now x wr s store).0 ≢ ok a)
        × ((authorize c v g now x wr s store).1 ≡ store)
  unfolding authorize claim
  authorize-replay h = elim (Result-cases (check_execution c v g s)) [
    | inr (e, q) ↦ (λ a k. ground arith, ground arith)
    | inl (u, q) ↦ elim (Result-cases (digest c s.authorization)) [
      | inr (e, d) ↦ (λ a k. ground arith, ground arith)
      | inl (d, e) ↦ (λ a k. ground arith, ground arith)
    ]
  ]
