-- ===== src/Encoding/Percent.antt =====
-- `urlEncode` of src/utils/StringUtils.cpp, with a percent decoder as its specification.
use hypertube.Common.{
  ℕ, ◌+◌, ◌-◌, ◌*◌, ◌/◌, ◌%◌, ◌<◌, ◌≡◌, refl, ◌⊎◌, inl, inr, Bool, true, ◌&&◌, ◌||◌, [], ◌∷◌, ◌++◌,
  arith, Text, ltb, leb, ◌==◌, nat_eq, if◌then◌else◌, All, All-append, Bool-cases,
}

-- The characters that stand for themselves.
unfoldable pub unreserved : ℕ → Bool
unreserved c =
    (leb b'a' c && leb c b'z')
    || (leb b'A' c && leb c b'Z')
    || (leb b'0' c && leb c b'9')
    || c == b'-'
    || c == b'_'
    || c == b'.'
    || c == b'~'

-- `lookup[i]` of the table "0123456789ABCDEF", for i below 16
upper_digit : ℕ → ℕ
upper_digit i = if ltb i 10 then b'0' + i else b'A' + (i - 10)

encode_byte : ℕ → Text
unfolding upper_digit unreserved
encode_byte c =
    if unreserved c then c ∷ [] else b'%' ∷ upper_digit ((c / 16) % 16) ∷ upper_digit (c % 16) ∷ []

unfoldable pub url_encode : Text → Text
unfolding encode_byte
url_encode [] = []
url_encode (c ∷ s) = encode_byte c ++ url_encode s

-- How far a percent escape has been read.
pub data Escape : Type 0 where
  plain percent : Escape
  high : ℕ → Escape

abbrev digit_value : ℕ → ℕ
digit_value d = if leb d b'9' then d - b'0' else d - b'A' + 10

-- RFC 3986: `%XY` stands for the byte with the hexadecimal digits X and Y.
unfoldable pub percent_decode : Escape → Text → Text
percent_decode e [] = []
percent_decode plain (c ∷ s) =
    let escaped = percent_decode percent s in
    let copied = percent_decode plain s in if c == b'%' then escaped else c ∷ copied
percent_decode percent (c ∷ s) = percent_decode (high (digit_value c)) s
percent_decode (high h) (c ∷ s) = (h * 16 + digit_value c) ∷ percent_decode plain s

abbrev pub IsByte : ℕ → Type 0
IsByte c = c < 256

digit_value-upper_digit : (i : ℕ) → i < 16 → digit_value (upper_digit i) ≡ i
unfolding upper_digit
digit_value-upper_digit i h = ground arith

decode-encode_byte :
    (c : ℕ) (rest : Text)
    → IsByte c
    → percent_decode plain (encode_byte c ++ rest) ≡ c ∷ percent_decode plain rest
unfolding encode_byte
decode-encode_byte c rest h = elim (Bool-cases (unreserved c)) [
  | inl safe ↦ rw safe (unfold percent_decode unreserved in ground arith)
  | inr special ↦ rw special (
      unfold percent_decode in
      ground (
        arith,
        digit_value-upper_digit ((c / 16) % 16) (omega arith),
        digit_value-upper_digit (c % 16) (omega arith),
      ))
]

-- Percent decoding turns the encoding of a text of bytes back into the text.
pub percent_decode-url_encode : (s : Text) → All IsByte s → percent_decode plain (url_encode s) ≡ s
unfolding url_encode
percent_decode-url_encode [] h = unfold percent_decode in refl
percent_decode-url_encode (c ∷ s) (hc, hs) =
    rw (decode-encode_byte c (url_encode s) hc, percent_decode-url_encode s hs)

-- What may stand in an encoded text: an unreserved character or the mark of an escape.
abbrev pub IsUrlSafe : ℕ → Type 0
IsUrlSafe c = (unreserved c ≡ true) ⊎ (c ≡ b'%')

unreserved-upper_digit : (i : ℕ) → i < 16 → unreserved (upper_digit i) ≡ true
unfolding unreserved upper_digit
unreserved-upper_digit i h = ground arith

encode_byte-IsUrlSafe : (c : ℕ) → All IsUrlSafe (encode_byte c)
unfolding encode_byte
encode_byte-IsUrlSafe c = elim (Bool-cases (unreserved c)) [
  | inl safe ↦ rw safe (inl safe, tt)
  | inr special ↦ rw special (
    inr refl,
    (
      inl (unreserved-upper_digit ((c / 16) % 16) (omega arith)),
      (inl (unreserved-upper_digit (c % 16) (omega arith)), tt),
    ),
  )
]

-- An encoded text consists of unreserved characters and marks of an escape only.
pub url_encode-IsUrlSafe : (s : Text) → All IsUrlSafe (url_encode s)
unfolding url_encode
url_encode-IsUrlSafe [] = tt
url_encode-IsUrlSafe (c ∷ s) =
    All-append IsUrlSafe (encode_byte c) (url_encode s) (encode_byte-IsUrlSafe c)
      (url_encode-IsUrlSafe s)
