-- ===== src/Envelope/Sign/RoundTrip.antt =====
-- A signed authorization is verified under the signer's public key.
use flowops.Prelude.{
  ◌≡◌, true, ◌++◌, ltb, all, Text, codes, length, ok, arith, text_eq_refl, Result-cases, inl, inr,
}
use flowops.Hex.{hex_encode}
use flowops.Hex.RoundTrip.{hex_decode-hex_encode}
use flowops.Envelope.Types.{Authorization, SignedAuthorization}
use flowops.Envelope.Sign.{Crypto, digest, sign, decode_signature, verify}

-- The documented behaviour of Ed25519 on one pair of keys.
pub record IsKeyPair (c : Crypto) (private_key public_key : Text) : Type 0 where
  pub public_length : length public_key ≡ 32
  pub signature_length : (m : Text) → length (c.ed25519_sign private_key m) ≡ 64
  pub signature_bytes : (m : Text) → all (λ b. ltb b 256) (c.ed25519_sign private_key m) ≡ true
  pub verifies : (m : Text) → c.ed25519_verify public_key m (c.ed25519_sign private_key m) ≡ true

decode_signature-encode :
    (c : Crypto) (raw : Text)
    → length raw ≡ 64
    → all (λ b. ltb b 256) raw ≡ true
    → decode_signature c (codes "0x" ++ hex_encode raw) ≡ ok raw
unfolding decode_signature
decode_signature-encode c raw h k =
    ground (arith, hex_decode-hex_encode raw k, text_eq_refl (codes "0x" ++ hex_encode raw))

-- What Sign returns passes Verify under the other key of the pair, and holds the authorization that
-- was signed and the name of the key.
pub verify-sign :
    (c : Crypto) (a : Authorization) (key_id private_key public_key : Text)
    (s : SignedAuthorization)
    → IsKeyPair c private_key public_key
    → sign c a key_id private_key ≡ ok s
    → (verify c s public_key ≡ ok tt) × (s.authorization ≡ a) × (s.key_id ≡ key_id)
unfolding sign verify
verify-sign c a key_id private_key public_key s keys h = elim (Result-cases (digest c a)) [
  | inr (e, q) ↦ absurd (ground arith)
  | inl (d, q) ↦ ground (
    arith,
    keys.verifies d,
    decode_signature-encode c (c.ed25519_sign private_key d) (keys.signature_length d)
        (keys.signature_bytes d),
  )
]
