-- ===== src/Identity/Normalize.antt =====
-- `normalizeInfoHash` of src/app/SearchEngine.cpp: `none` where it returns false.
use hypertube.Common.{
  ℕ, ◌+◌, ◌≤◌, ◌≡◌, refl, ◌⊎◌, Bool, not, ◌&&◌, ◌||◌, [], ◌∷◌, Option, none, some, arith, Text, leb,
  nat_beq, if◌then◌else◌, length, All,
}

-- `std::isxdigit`
abbrev is_xdigit : ℕ → Bool
is_xdigit c = (leb b'0' c && leb c b'9') || (leb b'a' c && leb c b'f') || (leb b'A' c && leb c b'F')

-- `std::tolower`
abbrev pub to_lower : ℕ → ℕ
to_lower c = if leb b'A' c && leb c b'Z' then c + 32 else c

-- The loop over the characters.
lower_hex : Text → Option Text
lower_hex [] = some []
lower_hex (c ∷ s) =
    if not (is_xdigit c)
    then none
    else elim (lower_hex s) [ none ↦ none | some t ↦ some (to_lower c ∷ t) ]

unfoldable pub normalize_info_hash : Text → Option Text
unfolding lower_hex
normalize_info_hash hash =
    if not (nat_beq (length hash) 40) && not (nat_beq (length hash) 64)
    then none
    else lower_hex hash

abbrev pub IsLowerHex : ℕ → Type 0
IsLowerHex c = ((b'0' ≤ c) × (c ≤ b'9')) ⊎ ((b'a' ≤ c) × (c ≤ b'f'))

-- 40 or 64 hexadecimal digits in lower case
abbrev pub IsNormal : Text → Type 0
IsNormal s = ((length s ≡ 40) ⊎ (length s ≡ 64)) × All IsLowerHex s

lower_hex_sound : (s t : Text) → lower_hex s ≡ some t → (length t ≡ length s) × All IsLowerHex t
unfolding lower_hex
lower_hex_sound [] t e = ground arith
lower_hex_sound (c ∷ s) [] e = ground arith
lower_hex_sound (c ∷ s) (d ∷ t) e = ground (arith, lower_hex_sound s t)

lower_hex-id : (s : Text) → All IsLowerHex s → lower_hex s ≡ some s
unfolding lower_hex
lower_hex-id [] h = refl
lower_hex-id (c ∷ s) (hc, hs) = ground (arith, lower_hex-id s hs)

-- What is accepted comes out with 40 or 64 hexadecimal digits in lower case, as many as went in.
pub normalize_info_hash-IsNormal :
    (s t : Text) → normalize_info_hash s ≡ some t → IsNormal t × (length t ≡ length s)
unfolding normalize_info_hash
normalize_info_hash-IsNormal s t e = ground (arith, lower_hex_sound s t)

-- A hash of 40 or 64 hexadecimal digits in lower case is accepted as it is.
pub normalize_info_hash-id : (s : Text) → IsNormal s → normalize_info_hash s ≡ some s
unfolding normalize_info_hash
normalize_info_hash-id s h = ground (arith, lower_hex-id s h.1)
