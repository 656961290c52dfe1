-- ===== src/Tests/Encoding.antt =====
-- Runs of src/utils/StringUtils.cpp.
use hypertube.Common.{◌≡◌, refl, inl, [], ◌∷◌, arith, Text, codes}
use hypertube.Encoding.Percent.{url_encode, percent_decode, plain, percent_decode-url_encode}
use hypertube.Encoding.Utf8.{sanitize_utf8}
use hypertube.Encoding.Utf8.Scalars.{IsUtf8, encode_scalars, encode_scalar}
use hypertube.Encoding.Utf8.Sound.{sanitize_utf8-IsUtf8, sanitize_utf8-id}

percent_decode-url_encode_example : percent_decode plain (url_encode (codes "a b&")) ≡ codes "a b&"
percent_decode-url_encode_example =
    percent_decode-url_encode (codes "a b&")
      (omega arith, (omega arith, (omega arith, (omega arith, tt))))

-- A lone continuation byte behind an ASCII letter.
abbrev broken_text : Text
broken_text = b'a' ∷ 0x80 ∷ []

sanitize_utf8-IsUtf8_example : IsUtf8 (sanitize_utf8 broken_text)
sanitize_utf8-IsUtf8_example = sanitize_utf8-IsUtf8 broken_text

-- The letter e with an acute accent.
abbrev accented : Text
accented = 0xC3 ∷ 0xA9 ∷ []

accented-IsUtf8 : IsUtf8 accented
unfolding encode_scalars encode_scalar
accented-IsUtf8 = (0xE9 ∷ [], ((omega arith, inl (omega arith)), tt), refl)

sanitize_utf8-id_example : sanitize_utf8 accented ≡ accented
sanitize_utf8-id_example = sanitize_utf8-id accented accented-IsUtf8
