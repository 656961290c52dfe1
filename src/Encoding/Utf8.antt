-- ===== src/Encoding/Utf8.antt =====
-- `sanitizeUtf8` of src/utils/StringUtils.cpp: each byte that begins no well-formed sequence is
-- replaced by U+FFFD. The text from `index` on is the argument of the loop.
pub mod Scalars
pub mod Sequences
pub mod Sound
use hypertube.Common.{
  ℕ, zero, suc, ◌≡◌, Bool, true, false, ◌&&◌, ◌||◌, List, [], ◌∷◌, ◌++◌, Option, none, some, Text,
  ltb, leb, ◌==◌, nat_eq, if◌then◌else◌, take, drop, length,
}

abbrev within : ℕ → ℕ → ℕ → Bool
within lo hi b = leb lo b && leb b hi

abbrev continuation : ℕ → Bool
continuation b = within 0x80 0xBF b

-- `index + length <= value.size()` and a test for each of the bytes that follow
abbrev one : (ℕ → Bool) → Text → Bool
one p [] = false
one p (a ∷ s) = p a

abbrev two : (ℕ → Bool) → (ℕ → Bool) → Text → Bool
two p q [] = false
two p q (a ∷ s) = p a && one q s

abbrev three : (ℕ → Bool) → (ℕ → Bool) → (ℕ → Bool) → Text → Bool
three p q r [] = false
three p q r (a ∷ s) = p a && two q r s

abbrev accept : ℕ → Bool → Option ℕ
accept n valid = if valid then some n else none

-- The length of the well-formed sequence that `first` begins, where `valid` holds.
pub sequence_length : ℕ → Text → Option ℕ
sequence_length first rest =
    if leb first 0x7F
    then some 1
    else if within 0xC2 0xDF first
    then accept 2 (one continuation rest)
    else if first == 0xE0
    then accept 3 (two (within 0xA0 0xBF) continuation rest)
    else if within 0xE1 0xEC first || within 0xEE 0xEF first
    then accept 3 (two continuation continuation rest)
    else if first == 0xED
    then accept 3 (two (within 0x80 0x9F) continuation rest)
    else if first == 0xF0
    then accept 4 (three (within 0x90 0xBF) continuation continuation rest)
    else if within 0xF1 0xF3 first
    then accept 4 (three continuation continuation continuation rest)
    else if first == 0xF4
    then accept 4 (three (within 0x80 0x8F) continuation continuation rest)
    else none

abbrev replacement : Text
replacement = 0xEF ∷ 0xBF ∷ 0xBD ∷ []

sanitize_loop : ℕ → Text → Text
sanitize_loop zero value = []
sanitize_loop (suc fuel) [] = []
sanitize_loop (suc fuel) (first ∷ rest) = elim (sequence_length first rest) [
  | none ↦ replacement ++ sanitize_loop fuel rest
  | some n ↦ take n (first ∷ rest) ++ sanitize_loop fuel (drop n (first ∷ rest))
]

-- Each round takes a byte at least, so a round for each byte is enough.
unfoldable pub sanitize_utf8 : Text → Text
unfolding sanitize_loop sequence_length
sanitize_utf8 value = sanitize_loop (length value) value
