-- ===== src/Identity/Hex.antt =====
-- `hex` of include/utils/TorrentIdentity.hpp.
use hypertube.Common.{
  ℕ, ◌+◌, ◌-◌, ◌*◌, ◌/◌, ◌%◌, ◌<◌, ◌≡◌, refl, [], ◌∷◌, arith, Text, ltb, if◌then◌else◌, length, All,
}

-- `digits[i]` of the table "0123456789abcdef", for i below 16
unfoldable pub lower_digit : ℕ → ℕ
lower_digit i = if ltb i 10 then b'0' + i else b'a' + (i - 10)

unfoldable pub hex : Text → Text
unfolding lower_digit
hex [] = []
hex (byte ∷ bytes) = lower_digit (byte / 16) ∷ lower_digit (byte % 16) ∷ hex bytes

pub length-hex : (s : Text) → length (hex s) ≡ length s * 2
unfolding hex
length-hex [] = omega arith
length-hex (b ∷ s) = omega (arith, length-hex s)

abbrev pub IsByte : ℕ → Type 0
IsByte b = b < 256

lower_digit-injective : (i j : ℕ) → i < 16 → j < 16 → lower_digit i ≡ lower_digit j → i ≡ j
unfolding lower_digit
lower_digit-injective i j h k e = ground arith

-- Byte strings that print alike are the same.
pub hex-injective : (s t : Text) → All IsByte s → All IsByte t → hex s ≡ hex t → s ≡ t
unfolding hex
hex-injective [] [] hs ht e = refl
hex-injective [] (b ∷ t) hs ht e = ground arith
hex-injective (a ∷ s) [] hs ht e = ground arith
hex-injective (a ∷ s) (b ∷ t) (ha, hs) (hb, ht) e = ground (
  arith,
  lower_digit-injective (a / 16) (b / 16) (omega arith) (omega arith),
  lower_digit-injective (a % 16) (b % 16) (omega arith) (omega arith),
  hex-injective s t hs ht,
)
