-- ===== src/Tests/Wire.antt =====
-- Amounts, hexadecimal text, addresses, escrow terms and signed authorizations.
use flowops.Prelude.{ℕ, ◌≡◌, ◌↔◌, refl, true, some, codes, text_eq, ok, arith}
use flowops.Strings.{trim_space, trim_front, space_width, back_space_width, to_lower}
use flowops.Amount.{value, set_string, big_string, parse_non_negative, parse_positive}
use flowops.Amount.RoundTrip.{parse_non_negative-big_string}
use flowops.Hex.{hex_digit, hex_encode, from_hex_digit, hex_decode}
use flowops.Envelope.Grammar.{
  valid_identifier, hex_pattern, address_pattern, nonce_pattern, normalize_address,
  canonical_address,
}
use flowops.Envelope.Grammar.Canonical.{canonical_address_iff}
use flowops.Envelope.Escrow.{big_endian, raw_hex, derive_escrow_call_id, validate_terms}
use flowops.Envelope.Validate.{validate_atomic_amount, validate_escrow, validate}
use flowops.Envelope.Validate.Laws.{
  validate_atomic_amount_iff, validate_terms-IsBound, IsBound, validate_sound, IsValid, EscrowFits,
}
use flowops.Envelope.Sign.{canonical_bytes, digest, sign, verify}
use flowops.Envelope.Sign.RoundTrip.{IsKeyPair, verify-sign}
use flowops.Tests.Data.{
  crypto, no_lower, payee, private_key, public_key, terms, payment, escrow_payment, signed_as,
}

parse_non_negative-big_string_example : parse_non_negative (big_string 1000000) ≡ ok 1000000
parse_non_negative-big_string_example = parse_non_negative-big_string 1000000 (omega arith)

canonical_address_iff_example :
    (canonical_address no_lower payee ≡ some payee)
    ↔ ((payee ≡ payee) × (address_pattern payee ≡ true))
canonical_address_iff_example = canonical_address_iff no_lower payee payee

validate_atomic_amount_iff_example :
    (validate_atomic_amount (codes "007") ≡ ok tt)
    ↔ ((n : ℕ) × (parse_positive (codes "007") ≡ ok n))
validate_atomic_amount_iff_example = validate_atomic_amount_iff (codes "007")

terms_valid : validate_terms crypto.keccak terms 8453 payee ≡ ok tt
unfolding validate_terms derive_escrow_call_id big_endian raw_hex text_eq address_pattern
    nonce_pattern hex_pattern canonical_address normalize_address trim_space trim_front space_width
    back_space_width to_lower hex_decode from_hex_digit hex_encode hex_digit
terms_valid = refl

validate_terms-IsBound_example : IsBound crypto.keccak terms 8453 payee
validate_terms-IsBound_example = validate_terms-IsBound crypto.keccak terms 8453 payee terms_valid

escrow_valid : validate crypto.keccak (escrow_payment 9) ≡ ok tt
unfolding validate validate_escrow validate_atomic_amount validate_terms derive_escrow_call_id
    big_endian raw_hex text_eq valid_identifier address_pattern nonce_pattern hex_pattern
    canonical_address normalize_address trim_space trim_front space_width back_space_width to_lower
    hex_decode from_hex_digit hex_encode hex_digit value set_string parse_non_negative
    parse_positive
escrow_valid = refl

validate_sound_example :
    IsValid crypto.keccak (escrow_payment 9)
    × ((n : ℕ) × (parse_positive (codes "250") ≡ ok n))
    × EscrowFits crypto.keccak (escrow_payment 9) (escrow_payment 9).escrow
validate_sound_example = validate_sound crypto.keccak (escrow_payment 9) escrow_valid

key_pair : IsKeyPair crypto private_key public_key
key_pair = record {
  public_length = refl;
  signature_length = λ m. refl;
  signature_bytes = λ m. refl;
  verifies = λ m. refl;
}

payment_signed : sign crypto payment (codes "key-1") private_key ≡ ok (signed_as payment)
unfolding sign digest canonical_bytes validate validate_escrow validate_atomic_amount text_eq
    valid_identifier address_pattern nonce_pattern hex_pattern canonical_address normalize_address
    hex_encode hex_digit value set_string parse_non_negative parse_positive trim_space
payment_signed = refl

verify-sign_example :
    (verify crypto (signed_as payment) public_key ≡ ok tt)
    × (payment ≡ payment)
    × (codes "key-1" ≡ codes "key-1")
verify-sign_example =
    verify-sign crypto payment (codes "key-1") private_key public_key (signed_as payment) key_pair
      payment_signed
