-- ===== src/Hex.antt =====
-- `hex_encode`, `hex_decode` and `b64url_nopad` of crates/secrets-engine/src/lib.rs.
use envctl.Prelude.{
  ℕ, ◌+◌, ◌-◌, ◌*◌, ◌/◌, ◌%◌, ◌<◌, ◌≡◌, refl, ap, true, ◌&&◌, Option, none, some, [], ◌∷◌, arith,
  if◌then◌else◌, Bytes, ltb, leb, all, AllOf,
}
use envctl.Broker.Wire.{is_ascii_alphanumeric}

-- `char::from_digit(d, 16)`, for `d < 16`.
unfoldable pub from_digit : ℕ → ℕ
from_digit d = if ltb d 10 then b'0' + d else b'a' + (d - 10)

-- `char::to_digit(16)`
unfoldable pub to_digit : ℕ → Option ℕ
to_digit c =
    if leb b'0' c && leb c b'9'
    then some (c - b'0')
    else if leb b'a' c && leb c b'f'
    then some (c - b'a' + 10)
    else if leb b'A' c && leb c b'F'
    then some (c - b'A' + 10)
    else none

unfoldable pub hex_encode : Bytes → Bytes
hex_encode [] = []
hex_encode (b ∷ bs) = from_digit (b / 16) ∷ from_digit (b % 16) ∷ hex_encode bs

abbrev pub pair_digits : Option ℕ → Option ℕ → Option Bytes → Option Bytes
pair_digits none lo rest = none
pair_digits (some h) none rest = none
pair_digits (some h) (some l) none = none
pair_digits (some h) (some l) (some bs) = some ((h * 16 + l) ∷ bs)

unfoldable pub hex_decode : Bytes → Option Bytes
hex_decode [] = some []
hex_decode (c ∷ []) = none
hex_decode (c ∷ d ∷ s) = pair_digits (to_digit c) (to_digit d) (hex_decode s)

-- The table's character of a 6-bit value.
unfoldable pub b64_char : ℕ → ℕ
b64_char v =
    if ltb v 26
    then b'A' + v
    else if ltb v 52
    then b'a' + (v - 26)
    else if ltb v 62
    then b'0' + (v - 52)
    else if ltb v 63
    then b'-'
    else b'_'

-- `(n >> k) & 0x3f`, for `m = 2 ^ k`.
abbrev pub sextet : ℕ → ℕ → ℕ
sextet n m = b64_char (n / m % 64)

unfoldable pub b64url_nopad : Bytes → Bytes
b64url_nopad [] = []
b64url_nopad (a ∷ []) = let n = a * 65536 in sextet n 262144 ∷ sextet n 4096 ∷ []
b64url_nopad (a ∷ b ∷ []) =
    let n = a * 65536 + b * 256 in sextet n 262144 ∷ sextet n 4096 ∷ sextet n 64 ∷ []
b64url_nopad (a ∷ b ∷ c ∷ s) =
    let n = a * 65536 + b * 256 + c in
    sextet n 262144 ∷ sextet n 4096 ∷ sextet n 64 ∷ sextet n 1 ∷ b64url_nopad s

to_digit-from_digit : (d : ℕ) → d < 16 → to_digit (from_digit d) ≡ some d
unfolding to_digit from_digit
to_digit-from_digit d h = ground arith

halves : (b : ℕ) → b / 16 * 16 + b % 16 ≡ b
halves b = omega arith

-- Decoding the hexadecimal digits of bytes gives the bytes.
pub hex_decode-hex_encode :
    (bs : Bytes) → AllOf (λ b. b < 256) bs → hex_decode (hex_encode bs) ≡ some bs
unfolding hex_decode hex_encode
hex_decode-hex_encode [] h = refl
hex_decode-hex_encode (b ∷ bs) h =
    let low : b < 256 = h.0 in
    rw
      (
        to_digit-from_digit (b / 16) (omega arith),
        to_digit-from_digit (b % 16) (omega arith),
        hex_decode-hex_encode bs h.1,
      )
      (ap (λ x. some (x ∷ bs)) (halves b))

from_digit-alphanumeric : (d : ℕ) → d < 16 → is_ascii_alphanumeric (from_digit d) ≡ true
unfolding is_ascii_alphanumeric from_digit
from_digit-alphanumeric d h = ground arith

-- The digits are alphanumeric.
pub hex_encode-alphanumeric :
    (bs : Bytes) → AllOf (λ b. b < 256) bs → all is_ascii_alphanumeric (hex_encode bs) ≡ true
unfolding hex_encode
hex_encode-alphanumeric [] h = refl
hex_encode-alphanumeric (b ∷ bs) h =
    let low : b < 256 = h.0 in
    rw
      (
        from_digit-alphanumeric (b / 16) (omega arith),
        from_digit-alphanumeric (b % 16) (omega arith),
      )
      (hex_encode-alphanumeric bs h.1)
