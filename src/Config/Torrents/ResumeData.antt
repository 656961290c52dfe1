-- ===== src/Config/Torrents/ResumeData.antt =====
-- `encodeHex` and `decodeHex` of src/app/ConfigManager.cpp.
use hypertube.Common.{
  ℕ, ◌+◌, ◌-◌, ◌*◌, ◌/◌, ◌%◌, ◌^◌, ◌≤◌, ◌<◌, ◌≡◌, refl, ap, ◌&&◌, ◌||◌, not, [], ◌∷◌, Option, none,
  some, ◌>>=◌, >>=-some, arith, Text, ltb, leb, nat_beq, if◌then◌else◌, length, All, if_cases,
}
use mathlib.Core.Bool.{false≢true}
use hypertube.Identity.Hex.{hex, lower_digit, length-hex, IsByte}

-- `value`; nothing stands for -1.
unfoldable pub digit_value : ℕ → Option ℕ
digit_value c =
    if leb b'0' c && leb c b'9'
    then some (c - b'0')
    else if leb b'a' c && leb c b'f'
    then some (c - b'a' + 10)
    else if leb b'A' c && leb c b'F'
    then some (c - b'A' + 10)
    else none

abbrev pub max_resume_data_size : ℕ
max_resume_data_size = 16 * (2 ^ 20)

-- The loop, over pairs of digits.
unfoldable pub decode_pairs : Text → Option Text
unfolding digit_value
decode_pairs [] = some []
decode_pairs (c ∷ []) = none
decode_pairs (c ∷ d ∷ rest) =
    let bytes = decode_pairs rest in
    digit_value c >>= λ high.
    digit_value d >>= λ low. bytes >>= λ tail. some ((high * 16 + low) ∷ tail)

unfoldable pub decode_hex : Text → Option Text
unfolding decode_pairs
decode_hex encoded =
    if not (nat_beq (length encoded % 2) 0) || ltb max_resume_data_size (length encoded / 2)
    then none
    else decode_pairs encoded

digit_value-lower_digit : (i : ℕ) → i < 16 → digit_value (lower_digit i) ≡ some i
unfolding digit_value lower_digit
digit_value-lower_digit i h = ground arith

decode_pairs-hex : (s : Text) → All IsByte s → decode_pairs (hex s) ≡ some s
unfolding decode_pairs hex
decode_pairs-hex [] h = refl
decode_pairs-hex (b ∷ s) (byte, rest) =
    >>=-some _ _ (digit_value-lower_digit (b / 16) (omega arith)) (
      >>=-some _ _ (digit_value-lower_digit (b % 16) (omega arith))
        (>>=-some _ _ (decode_pairs-hex s rest) (ap (λ n. some (n ∷ s)) (omega arith))))

-- Bytes that are written as digits are read back, up to the greatest size.
pub decode_hex-hex :
    (s : Text) → All IsByte s → length s ≤ max_resume_data_size → decode_hex (hex s) ≡ some s
unfolding decode_hex
decode_hex-hex s bytes small =
    if_cases (λ r. r ≡ some s)
      (not (nat_beq (length (hex s) % 2) 0) || ltb max_resume_data_size (length (hex s) / 2)) _ _
      (λ h. absurd (false≢true (ground (arith, length-hex s)))) (λ _. decode_pairs-hex s bytes)
