-- ===== src/Envelope/Escrow.antt =====
-- pkg/envelope/envelope.go: the escrow terms. `keccak` stands for the legacy Keccak-256 of
-- golang.org/x/crypto, from bytes to 32 bytes.
use flowops.Prelude.{
  ℕ, zero, suc, ◌-◌, ◌*◌, ◌/◌, ◌%◌, ◌^◌, ltb, leb, ◌==◌, Bool, not, ◌||◌, ◌&&◌, none, some, [], ◌∷◌,
  ◌++◌, Text, codes, text_eq, all, Result, ok, err, ◌>>◌, fail_if, if◌then◌else◌,
}
use flowops.Hex.{hex_encode, hex_decode}
use flowops.Envelope.Grammar.{address_pattern, nonce_pattern}
use flowops.Envelope.Types.{EscrowTerms}

pub data EscrowError : Type 0 where
  unsupported_chain bad_address provider_not_recipient buyer_is_provider bad_hash : EscrowError
  bad_deadlines call_id_inputs call_id_not_bound : EscrowError

abbrev pub max_int64 : ℕ
max_int64 = 2 ^ 63 - 1

-- 0x and 64 zeros
abbrev pub zero_hash : Text
zero_hash = codes "0x0000000000000000000000000000000000000000000000000000000000000000"

-- The `width` last bytes of `n`, the highest first.
unfoldable pub big_endian : ℕ → ℕ → Text
big_endian zero n = []
big_endian (suc width) n = (n / 256 ^ width % 256) ∷ big_endian width n

abbrev pub zero_bytes : ℕ → Text
zero_bytes zero = []
zero_bytes (suc n) = 0 ∷ zero_bytes n

-- The bytes behind `0x`; the callers have checked that they are hexadecimal.
unfoldable pub raw_hex : Text → Text
unfolding hex_decode
raw_hex (_ ∷ _ ∷ s) = elim (hex_decode s) [ none ↦ [] | some bytes ↦ bytes ]
raw_hex s = []

unfoldable pub derive_escrow_call_id :
    (Text → Text) → ℕ → Text → Text → Text → Text → Result EscrowError Text
derive_escrow_call_id keccak chain_id contract buyer task_digest request_digest =
    if chain_id == 0
      || not (address_pattern contract)
      || not (address_pattern buyer)
      || not (nonce_pattern task_digest)
      || not (nonce_pattern request_digest)
    then err call_id_inputs
    else let words =
        keccak (codes "FLOWOPS_CALL_ESCROW_V1")
        ++ (big_endian 32 chain_id
            ++ ((zero_bytes 12 ++ raw_hex contract)
                ++ ((zero_bytes 12 ++ raw_hex buyer)
                    ++ (raw_hex task_digest ++ raw_hex request_digest)))) in
      ok (codes "0x" ++ hex_encode (keccak words))

abbrev pub is_nonzero_hash : Text → Bool
is_nonzero_hash v = nonce_pattern v && not (text_eq v zero_hash)

-- The method Validate of EscrowTerms.
unfoldable pub validate_terms :
    (Text → Text) → EscrowTerms → ℕ → Text → Result EscrowError (Unit {0})
validate_terms keccak t chain_id recipient = do
  fail_if (not (chain_id == 8453) && not (chain_id == 84532)) unsupported_chain
  fail_if (not (all address_pattern (t.contract ∷ t.buyer ∷ t.provider ∷ []))) bad_address
  fail_if (not (text_eq t.provider recipient)) provider_not_recipient
  fail_if (text_eq t.buyer t.provider) buyer_is_provider
  fail_if (not (all is_nonzero_hash (t.call_id ∷ t.task_digest ∷ t.request_digest ∷ []))) bad_hash
  fail_if
      (t.acknowledge_by == 0
        || ltb max_int64 t.acknowledge_by
        || leb t.deliver_by t.acknowledge_by
        || ltb max_int64 t.deliver_by
        || t.release_window == 0
        || ltb (30 * 24 * 60 * 60) t.release_window)
      bad_deadlines
  elim (derive_escrow_call_id keccak chain_id t.contract t.buyer t.task_digest t.request_digest) [
    | err _ ↦ err call_id_not_bound
    | ok want ↦ fail_if (not (text_eq want t.call_id)) call_id_not_bound
  ]
