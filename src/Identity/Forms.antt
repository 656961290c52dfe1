-- ===== src/Identity/Forms.antt =====
-- The four forms of an identifier, by the digests that the hash has.
use hypertube.Common.{
  ℕ, ◌≡◌, refl, Bool, true, false, [], ◌∷◌, ◌++◌, append_assoc, ap, arith, Text, codes, length,
  length-append,
}
use hypertube.Identity.{InfoHash, id}
use hypertube.Identity.Hex.{hex, length-hex}

unfoldable pub part_v1 : Text → Text
part_v1 d = codes "v1:" ++ hex d

unfoldable pub part_v2 : Text → Text
part_v2 d = codes "v2:" ++ hex d

pub length-part_v1 : (d : Text) → length d ≡ 20 → length (part_v1 d) ≡ 43
unfolding part_v1
length-part_v1 d h = omega (arith, length-hex d)

pub length-part_v2 : (d : Text) → length d ≡ 32 → length (part_v2 d) ≡ 67
unfolding part_v2
length-part_v2 d h = omega (arith, length-hex d)

module _ {H : Type 0} ⦃i : InfoHash H⦄ (h : H) where
  -- The identifier that the two flags give.
  abbrev pub form : Bool → Bool → Text
  form true true = part_v1 (i.v1 h) ++ b'|' ∷ part_v2 (i.v2 h)
  form true false = part_v1 (i.v1 h)
  form false true = part_v2 (i.v2 h)
  form false false = []

  pub id-form : (a b : Bool) → i.has_v1 h ≡ a → i.has_v2 h ≡ b → id h ≡ form a b
  unfolding id part_v1 part_v2
  id-form true true e f =
      rw (e, f)
        (ap (λ t. b'v' ∷ b'1' ∷ b':' ∷ t)
          (append_assoc (hex (i.v1 h)) (b'|' ∷ []) (part_v2 (i.v2 h))))
  id-form true false e f = rw (e, f) refl
  id-form false true e f = rw (e, f) refl
  id-form false false e f = rw (e, f) refl

  abbrev pub form_length : Bool → Bool → ℕ
  form_length true true = 111
  form_length true false = 43
  form_length false true = 67
  form_length false false = 0

  pub length-form : (a b : Bool) → length (form a b) ≡ form_length a b
  length-form true true = omega (
    arith,
    length-append (part_v1 (i.v1 h)) (b'|' ∷ part_v2 (i.v2 h)),
    length-part_v1 (i.v1 h) (i.v1_size h),
    length-part_v2 (i.v2 h) (i.v2_size h),
  )
  length-form true false = length-part_v1 (i.v1 h) (i.v1_size h)
  length-form false true = length-part_v2 (i.v2 h) (i.v2_size h)
  length-form false false = refl
