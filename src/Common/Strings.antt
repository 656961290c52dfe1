-- ===== src/Common/Strings.antt =====
-- Texts as bytes: literals, the parts of `std::string` that the program uses, and decimal print.
use Prim.Native.Nat.{ℕ, zero, suc, ◌+◌, ◌-◌, ◌*◌, ◌/◌, ◌%◌, ◌<◌}
use Prim.Native.Char.{code}
use Prim.Native.String.{String}
use mathlib.Core.Path.{◌≡◌, refl, ap, sym, ◌∙◌}
use mathlib.Core.Logic.{◌≢◌}
use mathlib.Core.Bool.{Bool, true, false, ◌&&◌}
use mathlib.Core.List.{[], ◌∷◌, ◌++◌}
use mathlib.Core.Option.{Option, none, some}
use native.Mathlib.Omega.{arith}
use native.Mathlib.Decide.{dec_lt}
use hypertube.Common.Tests.{if◌then◌else◌, nat_beq, ltb, lt→ltb, not_lt→ltb, if_rule}
use hypertube.Common.Keys.{Text}
use hypertube.Common.Lists.{All, All-append}

-- The bytes of an ASCII literal.
abbrev pub codes : String → Text
codes String.[] = []
codes (String.◌∷◌ c s) = code c ∷ codes s

-- A message to the user; its text plays no part in any decision.
unfoldable pub msg : String → Text
msg s = codes s

-- `text.rfind(prefix, 0) == 0`, `starts_with`
unfoldable pub starts_with : Text → Text → Bool
starts_with [] t = true
starts_with (p ∷ ps) [] = false
starts_with (p ∷ ps) (c ∷ t) = nat_beq p c && starts_with ps t

-- `text.find(needle)`: the place of the first occurrence
unfoldable pub find : Text → Text → Option ℕ
unfolding starts_with
find needle [] = if starts_with needle [] then some 0 else none
find needle (c ∷ t) =
    if starts_with needle (c ∷ t)
    then some 0
    else elim (find needle t) [ none ↦ none | some i ↦ some (suc i) ]

-- `text.find(c)` for one character
unfoldable pub find_byte : ℕ → Text → Option ℕ
find_byte b [] = none
find_byte b (c ∷ t) =
    if nat_beq c b then some 0 else elim (find_byte b t) [ none ↦ none | some i ↦ some (suc i) ]

-- `std::to_string` of a number that is not negative; `suc n` rounds are enough, since each round
-- divides by ten.
unfoldable pub decimal : ℕ → ℕ → Text
decimal zero n = []
decimal (suc f) n =
    let rest = decimal f (n / 10) in if ltb n 10 then (48 + n) ∷ [] else rest ++ (48 + n % 10) ∷ []

unfoldable pub to_string : ℕ → Text
unfolding decimal
to_string n = decimal (suc n) n

-- A text without a certain byte.
abbrev pub Lacks : ℕ → Text → Type 0
Lacks b = All (λ c. c ≢ b)

-- The number that digits spell behind `n`.
unfoldable pub value : ℕ → Text → ℕ
value n [] = n
value n (c ∷ s) = value (n * 10 + (c - 48)) s

value-append : (n d : ℕ) (s : Text) → value n (s ++ d ∷ []) ≡ value n s * 10 + (d - 48)
unfolding value
value-append n d [] = refl
value-append n d (c ∷ s) = value-append (n * 10 + (c - 48)) d s

value-decimal : (f n : ℕ) → n < f → value 0 (decimal f n) ≡ n
unfolding decimal
value-decimal zero n h = elim h [ ]
value-decimal (suc f) n h = elim (dec_lt n 10) [
  | yes small ↦ rw (lt→ltb n 10 small) (unfold value in omega arith)
  | no big ↦ rw (not_lt→ltb n 10 big) (
      value-append 0 (48 + n % 10) (decimal f (n / 10))
      ∙ omega (arith, value-decimal f (n / 10) (omega arith)))
]

pub value-to_string : (n : ℕ) → value 0 (to_string n) ≡ n
unfolding to_string
value-to_string n = value-decimal (suc n) n (omega arith)

-- No two numbers print alike.
pub to_string-injective : (m n : ℕ) → to_string m ≡ to_string n → m ≡ n
to_string-injective m n e = sym (value-to_string m) ∙ (ap (value 0) e ∙ value-to_string n)

decimal-Lacks : (b f n : ℕ) → b < 48 → Lacks b (decimal f n)
unfolding decimal
decimal-Lacks b zero n h = tt
decimal-Lacks b (suc f) n h =
    if_rule (Lacks b) (ltb n 10) ((48 + n) ∷ []) (decimal f (n / 10) ++ (48 + n % 10) ∷ [])
      (omega arith)
      (All-append (λ c. c ≢ b) (decimal f (n / 10)) ((48 + n % 10) ∷ [])
        (decimal-Lacks b f (n / 10) h) (omega arith))

pub to_string-Lacks : (b n : ℕ) → b < 48 → Lacks b (to_string n)
unfolding to_string
to_string-Lacks b n h = decimal-Lacks b (suc n) n h

-- The first occurrence of a byte cuts a text in one way only.
pub cut-injective :
    (b : ℕ) (s s' t t' : Text)
    → Lacks b s
    → Lacks b s'
    → s ++ b ∷ t ≡ s' ++ b ∷ t'
    → (s ≡ s') × (t ≡ t')
cut-injective b [] [] t t' h h' e = (refl, cc)
cut-injective b [] (c ∷ s') t t' h (hc, hs) e = absurd (hc (cc))
cut-injective b (c ∷ s) [] t t' (hc, hs) h' e = absurd (hc (cc))
cut-injective b (c ∷ s) (c' ∷ s') t t' (hc, hs) (hc', hs') e =
    let (p, q) = cut-injective b s s' t t' hs hs' (cc) in (cc, q)
