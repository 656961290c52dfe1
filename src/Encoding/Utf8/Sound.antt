-- ===== src/Encoding/Utf8/Sound.antt =====
-- `sanitizeUtf8` yields UTF-8, and leaves UTF-8 as it is.
use hypertube.Common.{
  ℕ, zero, suc, ◌≤◌, ◌<◌, ◌≡◌, refl, ap, ◌∙◌, inl, inr, List, [], ◌∷◌, ◌++◌, arith, Text, length,
  length-append, All, Option-cases,
}
use hypertube.Encoding.Utf8.{sequence_length, sanitize_loop, sanitize_utf8, replacement}
use hypertube.Encoding.Utf8.Scalars.{IsScalar, encode_scalar, encode_scalars, IsUtf8}
use hypertube.Encoding.Utf8.Sequences.{
  spelled, sequence-Spells, sequence_ascii, sequence_two_bytes, sequence_three_bytes,
  sequence_four_bytes,
}

replacement-scalar : replacement ≡ encode_scalar 0xFFFD
unfolding encode_scalar
replacement-scalar = refl

add_scalar : (c : ℕ) (s t : Text) → IsScalar c → s ≡ encode_scalar c → IsUtf8 t → IsUtf8 (s ++ t)
unfolding encode_scalars
add_scalar c s t h e (cs, hcs, ecs) = (c ∷ cs, (h, hcs), rw (e, ecs) refl)

sanitize_loop-IsUtf8 : (fuel : ℕ) (s : Text) → IsUtf8 (sanitize_loop fuel s)
unfolding sanitize_loop
sanitize_loop-IsUtf8 zero s = ([], tt, unfold encode_scalars in refl)
sanitize_loop-IsUtf8 (suc fuel) [] = ([], tt, unfold encode_scalars in refl)
sanitize_loop-IsUtf8 (suc fuel) (first ∷ rest) = elim (Option-cases (sequence_length first rest)) [
  | inl bad ↦
      rw (bad, sanitize_loop)
        (add_scalar 0xFFFD replacement _ (omega arith) replacement-scalar
          (sanitize_loop-IsUtf8 fuel rest))
  | inr (n, good) ↦
      let (scalar, spells, _) = sequence-Spells first rest n good in
      rw (good, sanitize_loop)
        (add_scalar (spelled first rest) _ _ scalar spells (sanitize_loop-IsUtf8 fuel _))
]

-- Whatever comes in, what goes out is UTF-8: the encoding of scalar values.
pub sanitize_utf8-IsUtf8 : (s : Text) → IsUtf8 (sanitize_utf8 s)
unfolding sanitize_utf8
sanitize_utf8-IsUtf8 s = sanitize_loop-IsUtf8 (length s) s

-- A round of the loop takes a whole scalar value.
keep_scalar :
    (fuel c : ℕ) (t : Text)
    → IsScalar c
    → sanitize_loop (suc fuel) (encode_scalar c ++ t) ≡ encode_scalar c ++ sanitize_loop fuel t
unfolding sanitize_loop encode_scalar
keep_scalar fuel c t h = ground (
  arith,
  sequence_ascii c t,
  sequence_two_bytes c t,
  sequence_three_bytes c t,
  sequence_four_bytes c t,
)

length-encode_scalar : (c : ℕ) → 0 < length (encode_scalar c)
unfolding encode_scalar
length-encode_scalar c = ground arith

keep_scalars :
    (fuel : ℕ) (cs : List ℕ)
    → All IsScalar cs
    → length (encode_scalars cs) ≤ fuel
    → sanitize_loop fuel (encode_scalars cs) ≡ encode_scalars cs
unfolding encode_scalars
keep_scalars zero [] h l = unfold sanitize_loop in refl
keep_scalars (suc fuel) [] h l = unfold sanitize_loop in refl
keep_scalars zero (c ∷ cs) h l =
    absurd
      (omega (arith, length-append (encode_scalar c) (encode_scalars cs), length-encode_scalar c))
keep_scalars (suc fuel) (c ∷ cs) (hc, hcs) l =
    keep_scalar fuel c (encode_scalars cs) hc
    ∙ ap (λ t. encode_scalar c ++ t)
        (keep_scalars fuel cs hcs (
          omega
            (arith, length-append (encode_scalar c) (encode_scalars cs), length-encode_scalar c)))

-- A text that is UTF-8 is left as it is.
pub sanitize_utf8-id : (s : Text) → IsUtf8 s → sanitize_utf8 s ≡ s
unfolding sanitize_utf8
sanitize_utf8-id s (cs, h, e) = rw e (keep_scalars _ cs h (omega arith))
