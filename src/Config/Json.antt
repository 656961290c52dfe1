-- ===== src/Config/Json.antt =====
-- What the configuration uses of `nlohmann::json`: an interface, and reading and writing along a path
-- of keys, which is what `config[a][b] = value` and the look-ups amount to.
use hypertube.Common.{
  ℤ, ◌≡◌, ◌≢◌, sym, ap, Bool, true, false, List, [], ◌∷◌, Option, none, some, arith, Text, ◌==◌,
  text_eq, text_beq_iff, if◌then◌else◌, option_rule, Bool-cases, inl, inr,
}
use mathlib.Core.Bool.{false≢true}

pub data JsonKind : Type 0 where
  null boolean number_integer number_float string array object : JsonKind

-- `member` is `find`, with nothing where the value is no object; `put` is an assignment to `j[key]`
-- of an object. The conversions give nothing where the library throws for the kind.
pub record Json (J : Type 0) : Type 0 where
  pub kind : J → JsonKind
  pub empty_object : J
  pub null_value : J
  pub member : Text → J → Option J
  pub put : Text → J → J → J
  pub of_bool : Bool → J
  pub of_int : ℤ → J
  pub of_text : Text → J
  pub of_list : List J → J
  pub as_bool : J → Option Bool
  pub as_int : J → Option ℤ
  pub as_text : J → Option Text
  pub items : J → Option (List J)
  pub kind_empty : kind empty_object ≡ object
  pub kind_null : kind null_value ≡ null
  pub kind_put : (k : Text) (v j : J) → kind (put k v j) ≡ object
  pub member_empty : (k : Text) → member k empty_object ≡ none
  pub member_put :
      (k l : Text) (v j : J)
      → kind j ≡ object
      → member l (put k v j) ≡ (if k == l then some v else member l j)
  pub kind_of_bool : (b : Bool) → kind (of_bool b) ≡ boolean
  pub kind_of_int : (n : ℤ) → kind (of_int n) ≡ number_integer
  pub kind_of_text : (s : Text) → kind (of_text s) ≡ string
  pub kind_of_list : (xs : List J) → kind (of_list xs) ≡ array
  pub as_int_integer : (j : J) → kind j ≡ number_integer → (n : ℤ) × (as_int j ≡ some n)
  pub as_bool_boolean : (j : J) → kind j ≡ boolean → (b : Bool) × (as_bool j ≡ some b)
  pub member_other : (k : Text) (j : J) → kind j ≢ object → member k j ≡ none
  pub as_bool_of : (b : Bool) → as_bool (of_bool b) ≡ some b
  pub as_int_of : (n : ℤ) → as_int (of_int n) ≡ some n
  pub as_text_of : (s : Text) → as_text (of_text s) ≡ some s
  pub items_of : (xs : List J) → items (of_list xs) ≡ some xs

-- Two paths part: neither leads through the other.
abbrev pub parts : List Text → List Text → Bool
parts [] ls = false
parts (k ∷ ks) [] = false
parts (k ∷ ks) (l ∷ ls) = if k == l then parts ks ls else true

module _ {J : Type 0} ⦃o : Json J⦄ where
  abbrev pub is_object : J → Bool
  is_object j = elim (o.kind j) [ object ↦ true | _ ↦ false ]

  -- What an assignment to a member opens: an object, or a null that becomes one; it throws elsewhere.
  unfoldable pub opened : J → Option J
  opened j = elim (o.kind j) [ object ↦ some j | null ↦ some o.empty_object | _ ↦ none ]

  -- What is inside for `j[key]`: the member, or a new null.
  unfoldable pub inside : Text → J → J → J
  inside k j missing = elim (o.member k j) [ none ↦ missing | some w ↦ w ]

  -- `contains` and look-up along a path
  unfoldable pub read_path : List Text → J → Option J
  read_path [] j = some j
  read_path (k ∷ ks) j = elim (o.member k j) [ none ↦ none | some w ↦ read_path ks w ]

  -- `j[k1][k2]... = value`; nothing where it throws.
  unfoldable pub put_path : List Text → J → J → Option J
  unfolding opened inside
  put_path [] v j = some v
  put_path (k ∷ ks) v j = elim (opened j) [
    | none ↦ none
    | some w ↦ elim (put_path ks v (inside k w o.empty_object)) [
      | none ↦ none
      | some u ↦ some (o.put k u w)
    ]
  ]

  pub read_path-member :
      (k : Text) (ks : List Text) (j t : J)
      → o.member k j ≡ o.member k t
      → read_path (k ∷ ks) j ≡ read_path (k ∷ ks) t
  unfolding read_path
  read_path-member k ks j t e = ap (λ m. elim m [ none ↦ none | some w ↦ read_path ks w ]) e

  pub read_path-some :
      (k : Text) (ks : List Text) (j w : J)
      → o.member k j ≡ some w
      → read_path (k ∷ ks) j ≡ read_path ks w
  unfolding read_path
  read_path-some k ks j w e = ap (λ m. elim m [ none ↦ none | some w ↦ read_path ks w ]) e

  pub read_path-one : (k : Text) (j : J) → read_path (k ∷ []) j ≡ o.member k j
  unfolding read_path
  read_path-one k j = ground arith

  pub read_path-inside :
      (k : Text) (ks : List Text) (j v : J)
      → read_path (k ∷ ks) j ≡ some v
      → (w : J) × (o.member k j ≡ some w) × (read_path ks w ≡ some v)
  unfolding read_path
  read_path-inside k ks j v =
      option_rule (λ r. r ≡ some v → (w : J) × (o.member k j ≡ some w) × (read_path ks w ≡ some v))
        (o.member k j) _ _ (λ _ e. cc) (λ w there e. (w, there, e))

  -- Only an object has members.
  pub member-object : (k : Text) (j v : J) → o.member k j ≡ some v → is_object j ≡ true
  member-object k j v e = ground (arith, o.member_other k j)

  opened-object : (j w : J) → opened j ≡ some w → o.kind w ≡ object
  unfolding opened
  opened-object j w e = ground (arith, o.kind_empty)

  member-opened : (k : Text) (j w : J) → opened j ≡ some w → o.member k w ≡ o.member k j
  unfolding opened
  member-opened k j w e = ground (arith, o.member_empty k, o.member_other k j)

  -- What a write does that does not throw.
  abbrev Wrote : Text → List Text → J → J → J → Type 0
  Wrote k ks v j t =
      (w : J) × (u : J) × (opened j ≡ some w)
      × (put_path ks v (inside k w o.empty_object) ≡ some u)
      × (some (o.put k u w) ≡ some t)

  put_path-Wrote :
      (k : Text) (ks : List Text) (v j t : J) → put_path (k ∷ ks) v j ≡ some t → Wrote k ks v j t
  unfolding put_path
  put_path-Wrote k ks v j t =
      option_rule (λ r. r ≡ some t → Wrote k ks v j t) (opened j) _ _ (λ _ e. cc)
        λ w opens.
          option_rule (λ r. r ≡ some t → Wrote k ks v j t)
            (put_path ks v (inside k w o.empty_object)) _ _ (λ _ e. cc)
            (λ u wrote e. (w, u, opens, wrote, e))

  pub put_path-object :
      (k : Text) (ks : List Text) (v j t : J) → put_path (k ∷ ks) v j ≡ some t → o.kind t ≡ object
  put_path-object k ks v j t e =
      let (w, u, opens, wrote, e') = put_path-Wrote k ks v j t e in
      ground (arith, o.kind_put k u w, e')

  -- What was written is read.
  pub read_path-put_path :
      (ks : List Text) (v j t : J) → put_path ks v j ≡ some t → read_path ks t ≡ some v
  unfolding put_path read_path
  read_path-put_path [] v j t e = sym e
  read_path-put_path (k ∷ ks) v j t e =
      let (w, u, opens, wrote, e') = put_path-Wrote k ks v j t e in
      ground (
        arith,
        o.member_put k k u w (opened-object j w opens),
        text_beq_iff k k,
        read_path-put_path ks v (inside k w o.empty_object) u wrote,
        e',
      )

  read_inside :
      (k : Text) (ks : List Text) (w : J)
      → read_path ks o.empty_object ≡ none
      → elim (o.member k w) [ none ↦ none | some x ↦ read_path ks x ]
        ≡ read_path ks (inside k w o.empty_object)
  unfolding inside
  read_inside k ks w e = ground arith

  read_path-empty : (k : Text) (ks : List Text) → read_path (k ∷ ks) o.empty_object ≡ none
  unfolding read_path
  read_path-empty k ks = ground (arith, o.member_empty k)

  pub parts-empty : (ks ls : List Text) → parts ks ls ≡ true → read_path ls o.empty_object ≡ none
  parts-empty [] ls p = absurd (false≢true p)
  parts-empty (k ∷ ks) [] p = absurd (false≢true p)
  parts-empty (k ∷ ks) (l ∷ ls) p = read_path-empty l ls

  -- What stands elsewhere is left alone.
  pub read_path-put_path_other :
      (ks ls : List Text) (v j t : J)
      → parts ks ls ≡ true
      → put_path ks v j ≡ some t
      → read_path ls t ≡ read_path ls j
  unfolding read_path
  read_path-put_path_other [] ls v j t p e = absurd (false≢true p)
  read_path-put_path_other (k ∷ ks) [] v j t p e = absurd (false≢true p)
  read_path-put_path_other (k ∷ ks) (l ∷ ls) v j t p e =
      let (w, u, opens, wrote, e') = put_path-Wrote k ks v j t e in
      elim (Bool-cases (k == l)) [
        | inl same ↦
            let down = read_path-put_path_other ks ls v (inside k w o.empty_object) u in
            ground (
              arith,
              text_beq_iff k l,
              down,
              wrote,
              e',
              o.member_put k l u w (opened-object j w opens),
              member-opened l j w opens,
              read_inside k ls w,
              parts-empty ks ls,
            )
        | inr other ↦
            ground
              (arith, o.member_put k l u w (opened-object j w opens), member-opened l j w opens, e')
      ]
