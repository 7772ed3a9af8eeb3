-- ===== src/Hex/RoundTrip.antt =====
-- Bytes that were encoded are decoded to themselves.
use flowops.Prelude.{
  ℕ, ◌*◌, ◌/◌, ◌%◌, ◌<◌, ◌≡◌, refl, ltb, true, some, [], ◌∷◌, Text, all, arith, length,
}
use flowops.Hex.{hex_digit, hex_encode, from_hex_digit, hex_decode}

pub from_hex_digit-hex_digit : (n : ℕ) → n < 16 → from_hex_digit (hex_digit n) ≡ some n
unfolding from_hex_digit hex_digit
from_hex_digit-hex_digit n h = ground arith

hex_decode_step :
    (b : ℕ) (s t : Text)
    → b < 256
    → hex_decode s ≡ some t
    → hex_decode (hex_digit (b / 16) ∷ hex_digit (b % 16) ∷ s) ≡ some (b ∷ t)
unfolding hex_decode
hex_decode_step b s t h k = ground (
  arith,
  from_hex_digit-hex_digit (b / 16) (omega arith),
  from_hex_digit-hex_digit (b % 16) (omega arith),
)

hex_decode_nil : hex_decode [] ≡ some []
unfolding hex_decode
hex_decode_nil = refl

pub length-hex_encode : (s : Text) → length (hex_encode s) ≡ 2 * length s
unfolding hex_encode
length-hex_encode [] = refl
length-hex_encode (b ∷ s) = omega (arith, length-hex_encode s)

pub hex_decode-hex_encode :
    (s : Text) → all (λ b. ltb b 256) s ≡ true → hex_decode (hex_encode s) ≡ some s
unfolding hex_encode
hex_decode-hex_encode [] h = hex_decode_nil
hex_decode-hex_encode (b ∷ s) h =
    hex_decode_step b (hex_encode s) s (ground arith) (hex_decode-hex_encode s (ground arith))
