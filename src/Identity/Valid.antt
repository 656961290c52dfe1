-- ===== src/Identity/Valid.antt =====
-- The printed identifier of a torrent passes `isValid`.
use hypertube.Common.{
  ℕ, suc, ◌/◌, ◌%◌, ◌<◌, ◌≡◌, refl, ◌≢◌, ◌⊎◌, inl, inr, Bool, true, false, ◌||◌, [], ◌∷◌, ◌++◌,
  arith, Text, codes, length, take, drop, starts_with, find_byte, Lacks, All, none, some,
}
use hypertube.Identity.{InfoHash, id, is_valid, valid_part, all_lower_hex}
use hypertube.Identity.Forms.{part_v1, part_v2, form, id-form}
use hypertube.Identity.Hex.{hex, lower_digit, length-hex, IsByte}

lower_digit_bar : (i : ℕ) → i < 16 → lower_digit i ≢ b'|'
unfolding lower_digit
lower_digit_bar i h = ground arith

hex-Lacks : (s : Text) → All IsByte s → Lacks b'|' (hex s)
unfolding hex
hex-Lacks [] h = tt
hex-Lacks (b ∷ s) (hb, hs) = (
  lower_digit_bar (b / 16) (omega arith),
  (lower_digit_bar (b % 16) (omega arith), hex-Lacks s hs),
)

hex-all_lower_hex : (s : Text) → All IsByte s → all_lower_hex (hex s) ≡ true
unfolding hex all_lower_hex
hex-all_lower_hex [] h = refl
hex-all_lower_hex (b ∷ s) (hb, hs) = ground (arith, hex-all_lower_hex s hs)

find_byte-Lacks : (b : ℕ) (s : Text) → Lacks b s → find_byte b s ≡ none
unfolding find_byte
find_byte-Lacks b [] h = refl
find_byte-Lacks b (c ∷ s) (hc, hs) = ground (arith, find_byte-Lacks b s hs)

find_byte-append : (b : ℕ) (s t : Text) → Lacks b s → find_byte b (s ++ b ∷ t) ≡ some (length s)
unfolding find_byte
find_byte-append b [] t h = ground arith
find_byte-append b (c ∷ s) t (hc, hs) = ground (arith, find_byte-append b s t hs)

take-append : (s t : Text) → take (length s) (s ++ t) ≡ s
take-append [] t = refl
take-append (c ∷ s) t = rw (take-append s t)

drop-suc-append : (s t : Text) (b : ℕ) → drop (suc (length s)) (s ++ b ∷ t) ≡ t
drop-suc-append [] t b = refl
drop-suc-append (c ∷ s) t b = drop-suc-append s t b

part_v1-valid :
    (d : Text) → All IsByte d → length d ≡ 20 → valid_part (part_v1 d) (codes "v1:") 40 ≡ true
unfolding valid_part part_v1 starts_with
part_v1-valid d h l = ground (arith, length-hex d, hex-all_lower_hex d h)

part_v2-valid :
    (d : Text) → All IsByte d → length d ≡ 32 → valid_part (part_v2 d) (codes "v2:") 64 ≡ true
unfolding valid_part part_v2 starts_with
part_v2-valid d h l = ground (arith, length-hex d, hex-all_lower_hex d h)

part_v1-Lacks : (d : Text) → All IsByte d → Lacks b'|' (part_v1 d)
unfolding part_v1
part_v1-Lacks d h = (omega arith, (omega arith, (omega arith, hex-Lacks d h)))

part_v2-Lacks : (d : Text) → All IsByte d → Lacks b'|' (part_v2 d)
unfolding part_v2
part_v2-Lacks d h = (omega arith, (omega arith, (omega arith, hex-Lacks d h)))

one_part :
    (s : Text)
    → Lacks b'|' s
    → (valid_part s (codes "v1:") 40 ≡ true) ⊎ (valid_part s (codes "v2:") 64 ≡ true)
    → is_valid s ≡ true
unfolding is_valid
one_part s lacks v = rw (find_byte-Lacks b'|' s lacks, is_valid) (ground arith)

two_parts :
    (s t : Text)
    → Lacks b'|' s
    → Lacks b'|' t
    → valid_part s (codes "v1:") 40 ≡ true
    → valid_part t (codes "v2:") 64 ≡ true
    → is_valid (s ++ b'|' ∷ t) ≡ true
unfolding is_valid
two_parts s t ls lt vs vt =
    rw (find_byte-append b'|' s t ls, is_valid)
      (rw
        (
          drop-suc-append s t b'|',
          find_byte-Lacks b'|' t lt,
          take-append s (b'|' ∷ t),
          vs,
          drop-suc-append s t b'|',
          vt,
        )
        refl)

module _ {H : Type 0} ⦃i : InfoHash H⦄ where
  form-valid : (h : H) (a b : Bool) → (a || b) ≡ true → is_valid (form h a b) ≡ true
  form-valid h true true e =
      two_parts (part_v1 (i.v1 h)) (part_v2 (i.v2 h)) (part_v1-Lacks _ (i.v1_bytes h))
        (part_v2-Lacks _ (i.v2_bytes h)) (part_v1-valid _ (i.v1_bytes h) (i.v1_size h))
        (part_v2-valid _ (i.v2_bytes h) (i.v2_size h))
  form-valid h true false e =
      one_part _ (part_v1-Lacks _ (i.v1_bytes h))
        (inl (part_v1-valid _ (i.v1_bytes h) (i.v1_size h)))
  form-valid h false true e =
      one_part _ (part_v2-Lacks _ (i.v2_bytes h))
        (inr (part_v2-valid _ (i.v2_bytes h) (i.v2_size h)))
  form-valid h false false e = cc

  -- Where a hash has a digest, its identifier is valid.
  pub id-valid : (h : H) → (i.has_v1 h || i.has_v2 h) ≡ true → is_valid (id h) ≡ true
  id-valid h e =
      rw (id-form h (i.has_v1 h) (i.has_v2 h) refl refl) (form-valid h (i.has_v1 h) (i.has_v2 h) e)
