-- ===== src/Identity/Injective.antt =====
-- An identifier names one hash: `matches` is equality.
use hypertube.Common.{
  ◌≡◌, refl, sym, ap, ap₂, [], ◌∙◌, ◌↔◌, Bool, true, false, ◌∷◌, ◌++◌, arith, Text, text_beq_iff,
  length,
}
use hypertube.Identity.{InfoHash, id, matches}
use hypertube.Identity.Forms.{
  part_v1, part_v2, form, form_length, id-form, length-form, length-part_v1,
}
use hypertube.Identity.Hex.{hex-injective}

append-injective :
    (s s' t t' : Text) → length s ≡ length s' → s ++ t ≡ s' ++ t' → (s ≡ s') × (t ≡ t')
append-injective [] [] t t' l e = (refl, e)
append-injective [] (b ∷ s') t t' l e = absurd (omega arith)
append-injective (a ∷ s) [] t t' l e = absurd (omega arith)
append-injective (a ∷ s) (b ∷ s') t t' l e =
    let (p, q) = append-injective s s' t t' (omega arith) (cc) in (cc, q)

module _ {H : Type 0} ⦃i : InfoHash H⦄ (g h : H) where
  v1-injective : part_v1 (i.v1 g) ≡ part_v1 (i.v1 h) → i.v1 g ≡ i.v1 h
  unfolding part_v1
  v1-injective e = hex-injective _ _ (i.v1_bytes g) (i.v1_bytes h) (cc)

  v2-injective : part_v2 (i.v2 g) ≡ part_v2 (i.v2 h) → i.v2 g ≡ i.v2 h
  unfolding part_v2
  v2-injective e = hex-injective _ _ (i.v2_bytes g) (i.v2_bytes h) (cc)

  -- The length tells which digests are there.
  same_flags : (a b c d : Bool) → form_length g a b ≡ form_length h c d → (a ≡ c) × (b ≡ d)
  same_flags a b c d e = ground arith

  digests :
      (a b : Bool)
      → i.has_v1 g ≡ a
      → i.has_v2 g ≡ b
      → i.has_v1 h ≡ a
      → i.has_v2 h ≡ b
      → form g a b ≡ form h a b
      → g ≡ h
  digests true true ga gb ha hb e =
      let (p, q) =
        append-injective (part_v1 (i.v1 g)) (part_v1 (i.v1 h)) _ _
          (length-part_v1 _ (i.v1_size g) ∙ sym (length-part_v1 _ (i.v1_size h))) e in
      i.ext g h (v1-injective p) (v2-injective (cc))
  digests true false ga gb ha hb e = i.ext g h (v1-injective e) (i.v2_absent g h gb hb)
  digests false true ga gb ha hb e = i.ext g h (i.v1_absent g h ga ha) (v2-injective e)
  digests false false ga gb ha hb e = i.ext g h (i.v1_absent g h ga ha) (i.v2_absent g h gb hb)

  -- Hashes with one identifier are the same hash.
  pub id-injective : id g ≡ id h → g ≡ h
  id-injective e =
      let forms : form g (i.has_v1 g) (i.has_v2 g) ≡ form h (i.has_v1 h) (i.has_v2 h) =
        sym (id-form g _ _ refl refl) ∙ (e ∙ id-form h _ _ refl refl) in
      let (p, q) =
        same_flags (i.has_v1 g) (i.has_v2 g) (i.has_v1 h) (i.has_v2 h)
          (sym (length-form g _ _) ∙ (ap length forms ∙ length-form h _ _)) in
      digests (i.has_v1 g) (i.has_v2 g) refl refl (sym p) (sym q) (forms ∙ sym (ap₂ (form h) p q))

  -- A torrent matches the identifier of a hash exactly when it has that hash.
  pub matches-id : (matches g (id h) ≡ true) ↔ (g ≡ h)
  unfolding matches
  matches-id = (
    λ e. id-injective ((text_beq_iff (id g) (id h)).0 e),
    λ e. (text_beq_iff (id g) (id h)).1 (ap id e),
  )
