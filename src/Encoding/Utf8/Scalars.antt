-- ===== src/Encoding/Utf8/Scalars.antt =====
-- UTF-8 as RFC 3629 defines it: the bytes of each Unicode scalar value.
use hypertube.Common.{
  ℕ, ◌+◌, ◌/◌, ◌%◌, ◌≤◌, ◌<◌, ◌≡◌, ◌⊎◌, List, [], ◌∷◌, ◌++◌, Text, ltb, if◌then◌else◌, All,
}

-- A code point that is no surrogate.
abbrev pub IsScalar : ℕ → Type 0
IsScalar c = (c < 0x110000) × ((c < 0xD800) ⊎ (0xE000 ≤ c))

unfoldable pub encode_scalar : ℕ → Text
encode_scalar c =
    if ltb c 0x80
    then c ∷ []
    else if ltb c 0x800
    then (0xC0 + c / 64) ∷ (0x80 + c % 64) ∷ []
    else if ltb c 0x10000
    then (0xE0 + c / 4096) ∷ (0x80 + c / 64 % 64) ∷ (0x80 + c % 64) ∷ []
    else (0xF0 + c / 262144) ∷ (0x80 + c / 4096 % 64) ∷ (0x80 + c / 64 % 64) ∷ (0x80 + c % 64) ∷ []

unfoldable pub encode_scalars : List ℕ → Text
encode_scalars [] = []
encode_scalars (c ∷ cs) = encode_scalar c ++ encode_scalars cs

-- A text that spells scalar values, and nothing else.
abbrev pub IsUtf8 : Text → Type 0
IsUtf8 s = (cs : List ℕ) × All IsScalar cs × (s ≡ encode_scalars cs)
