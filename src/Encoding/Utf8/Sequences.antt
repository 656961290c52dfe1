-- ===== src/Encoding/Utf8/Sequences.antt =====
-- The sequences that `sanitizeUtf8` accepts, and the scalar values that they spell.
use hypertube.Common.{
  ℕ, zero, suc, ◌+◌, ◌-◌, ◌*◌, ◌/◌, ◌%◌, ◌≤◌, ◌<◌, ◌≡◌, sym, ◌∙◌, ◌⊎◌, inl, inr, [], ◌∷◌, none,
  some, arith, Text, ltb, leb, ◌==◌, nat_eq, ◌&&◌, if◌then◌else◌, dec_lt, take,
}
use hypertube.Encoding.Utf8.{accept, three, within, continuation, sequence_length}
use hypertube.Encoding.Utf8.Scalars.{IsScalar, encode_scalar}

abbrev pub byte_at : ℕ → Text → ℕ
byte_at i [] = 0
byte_at zero (a ∷ s) = a
byte_at (suc i) (a ∷ s) = byte_at i s

-- The scalar value that a well-formed sequence spells.
pub spelled : ℕ → Text → ℕ
spelled first rest =
    let a = byte_at 0 rest in
    let b = byte_at 1 rest in
    let d = byte_at 2 rest in
    if ltb first 0x80
    then first
    else if ltb first 0xE0
    then (first - 0xC0) * 64 + (a - 0x80)
    else if ltb first 0xF0
    then (first - 0xE0) * 4096 + (a - 0x80) * 64 + (b - 0x80)
    else (first - 0xF0) * 262144 + (a - 0x80) * 4096 + (b - 0x80) * 64 + (d - 0x80)

abbrev pub Spells : ℕ → Text → ℕ → Type 0
Spells first rest n =
    IsScalar (spelled first rest)
    × (take n (first ∷ rest) ≡ encode_scalar (spelled first rest))
    × (0 < n)

abbrev IsTail : ℕ → Type 0
IsTail a = (0x80 ≤ a) × (a ≤ 0xBF)

abbrev OneByte : ℕ → ℕ → Type 0
OneByte first n = (n ≡ 1) × (first ≤ 0x7F)

abbrev TwoBytes : ℕ → ℕ → ℕ → Type 0
TwoBytes first a n = (n ≡ 2) × (0xC2 ≤ first) × (first ≤ 0xDF) × IsTail a

-- No overlong form, and no surrogate.
abbrev ThreeBytes : ℕ → ℕ → ℕ → ℕ → Type 0
ThreeBytes first a b n =
    (n ≡ 3)
    × (0xE0 ≤ first)
    × (first ≤ 0xEF)
    × ((first * 64 + a < 0xED * 64 + 0xA0) ⊎ (0xEE ≤ first))
    × (0xE0 * 64 + 0xA0 ≤ first * 64 + a)
    × IsTail a
    × IsTail b

-- No overlong form, and nothing beyond U+10FFFF.
abbrev FourBytes : ℕ → ℕ → ℕ → ℕ → ℕ → Type 0
FourBytes first a b d n =
    (n ≡ 4)
    × (0xF0 * 64 + 0x90 ≤ first * 64 + a)
    × (first * 64 + a ≤ 0xF4 * 64 + 0x8F)
    × (0xF0 ≤ first)
    × IsTail a
    × IsTail b
    × IsTail d

-- The form of an accepted sequence, by the bytes that are left.
abbrev Form : ℕ → Text → ℕ → Type 0
Form first [] n = OneByte first n
Form first (a ∷ []) n = OneByte first n ⊎ TwoBytes first a n
Form first (a ∷ b ∷ []) n = OneByte first n ⊎ (TwoBytes first a n ⊎ ThreeBytes first a b n)
Form first (a ∷ b ∷ d ∷ rest) n =
    OneByte first n ⊎ (TwoBytes first a n ⊎ (ThreeBytes first a b n ⊎ FourBytes first a b d n))

-- Below 0xF0 at most three bytes are read.
sequence_below :
    (first a b d : ℕ) (rest : Text)
    → first < 0xF0
    → sequence_length first (a ∷ b ∷ d ∷ rest) ≡ sequence_length first (a ∷ b ∷ [])
unfolding sequence_length
sequence_below first a b d rest h = ground arith

sequence_above :
    (first : ℕ) (rest : Text)
    → 0xF0 ≤ first
    → sequence_length first rest ≡ (
        if first == 0xF0
        then accept 4 (three (within 0x90 0xBF) continuation continuation rest)
        else if leb first 0xF3
        then accept 4 (three continuation continuation continuation rest)
        else if first == 0xF4
        then accept 4 (three (within 0x80 0x8F) continuation continuation rest)
        else none)
unfolding sequence_length
sequence_above first rest h = ground arith

four_bytes :
    (first a b d n : ℕ)
    → 0xF0 ≤ first
    → (if first == 0xF0
        then accept 4 (within 0x90 0xBF a && (continuation b && continuation d))
        else if leb first 0xF3
        then accept 4 (continuation a && (continuation b && continuation d))
        else if first == 0xF4
        then accept 4 (within 0x80 0x8F a && (continuation b && continuation d))
        else none)
      ≡ some n
    → FourBytes first a b d n
four_bytes first a b d n h e = ground arith

sequence_four :
    (first a b d : ℕ) (rest : Text) (n : ℕ)
    → 0xF0 ≤ first
    → sequence_length first (a ∷ b ∷ d ∷ rest) ≡ some n
    → FourBytes first a b d n
sequence_four first a b d rest n h e =
    four_bytes first a b d n h (sym (sequence_above first (a ∷ b ∷ d ∷ rest) h) ∙ e)

sequence_three :
    (first a b : ℕ) (n : ℕ)
    → sequence_length first (a ∷ b ∷ []) ≡ some n
    → Form first (a ∷ b ∷ []) n
unfolding sequence_length
sequence_three first a b n e = ground arith

sequence-Form :
    (first : ℕ) (rest : Text) (n : ℕ) → sequence_length first rest ≡ some n → Form first rest n
unfolding sequence_length
sequence-Form first [] n e = ground arith
sequence-Form first (a ∷ []) n e = ground arith
sequence-Form first (a ∷ b ∷ []) n e = sequence_three first a b n e
sequence-Form first (a ∷ b ∷ d ∷ rest) n e = elim (dec_lt first 0xF0) [
  | yes below ↦
      elim (sequence_three first a b n (sym (sequence_below first a b d rest below) ∙ e)) [
        | inl h ↦ inl h
        | inr (inl h) ↦ inr (inl h)
        | inr (inr h) ↦ inr (inr (inl h))
      ]
  | no above ↦ inr (inr (inr (sequence_four first a b d rest n (omega arith) e)))
]

OneByte-Spells : (first : ℕ) (rest : Text) (n : ℕ) → OneByte first n → Spells first rest n
unfolding spelled encode_scalar
OneByte-Spells first rest n h = ground arith

TwoBytes-Spells :
    (first a : ℕ) (rest : Text) (n : ℕ) → TwoBytes first a n → Spells first (a ∷ rest) n
unfolding spelled encode_scalar
TwoBytes-Spells first a rest n h = ground arith

ThreeBytes-Spells :
    (first a b : ℕ) (rest : Text) (n : ℕ) → ThreeBytes first a b n → Spells first (a ∷ b ∷ rest) n
unfolding spelled encode_scalar
ThreeBytes-Spells first a b rest n h = ground arith

FourBytes-Spells :
    (first a b d : ℕ) (rest : Text) (n : ℕ)
    → FourBytes first a b d n
    → Spells first (a ∷ b ∷ d ∷ rest) n
unfolding spelled encode_scalar
FourBytes-Spells first a b d rest n h = ground arith

Form-Spells : (first : ℕ) (rest : Text) (n : ℕ) → Form first rest n → Spells first rest n
Form-Spells first [] n h = OneByte-Spells first [] n h
Form-Spells first (a ∷ []) n (inl h) = OneByte-Spells first _ n h
Form-Spells first (a ∷ []) n (inr h) = TwoBytes-Spells first a [] n h
Form-Spells first (a ∷ b ∷ []) n (inl h) = OneByte-Spells first _ n h
Form-Spells first (a ∷ b ∷ []) n (inr (inl h)) = TwoBytes-Spells first a _ n h
Form-Spells first (a ∷ b ∷ []) n (inr (inr h)) = ThreeBytes-Spells first a b [] n h
Form-Spells first (a ∷ b ∷ d ∷ rest) n (inl h) = OneByte-Spells first _ n h
Form-Spells first (a ∷ b ∷ d ∷ rest) n (inr (inl h)) = TwoBytes-Spells first a _ n h
Form-Spells first (a ∷ b ∷ d ∷ rest) n (inr (inr (inl h))) = ThreeBytes-Spells first a b _ n h
Form-Spells first (a ∷ b ∷ d ∷ rest) n (inr (inr (inr h))) = FourBytes-Spells first a b d rest n h

pub sequence-Spells :
    (first : ℕ) (rest : Text) (n : ℕ) → sequence_length first rest ≡ some n → Spells first rest n
sequence-Spells first rest n e = Form-Spells first rest n (sequence-Form first rest n e)

-- The other way round: the bytes of a scalar value are accepted, by its range.
pub sequence_ascii : (c : ℕ) (t : Text) → c < 0x80 → sequence_length c t ≡ some 1
unfolding sequence_length
sequence_ascii c t h = ground arith

pub sequence_two_bytes :
    (c : ℕ) (t : Text)
    → 0x80 ≤ c
    → c < 0x800
    → sequence_length (0xC0 + c / 64) ((0x80 + c % 64) ∷ t) ≡ some 2
unfolding sequence_length
sequence_two_bytes c t h k = ground arith

pub sequence_three_bytes :
    (c : ℕ) (t : Text)
    → 0x800 ≤ c
    → c < 0x10000
    → IsScalar c
    → sequence_length (0xE0 + c / 4096) ((0x80 + c / 64 % 64) ∷ (0x80 + c % 64) ∷ t) ≡ some 3
unfolding sequence_length
sequence_three_bytes c t h k v = ground arith

pub sequence_four_bytes :
    (c : ℕ) (t : Text)
    → 0x10000 ≤ c
    → c < 0x110000
    → sequence_length
        (0xF0 + c / 262144)
        ((0x80 + c / 4096 % 64) ∷ (0x80 + c / 64 % 64) ∷ (0x80 + c % 64) ∷ t)
      ≡ some 4
sequence_four_bytes c t h k = sequence_above _ _ (omega arith) ∙ ground arith
