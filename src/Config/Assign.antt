-- ===== src/Config/Assign.antt =====
-- Several assignments in a row, up to the first that throws.
use hypertube.Common.{
  ℕ, zero, suc, ◌≡◌, refl, ◌∙◌, Bool, true, false, ◌&&◌, List, [], ◌∷◌, Option, none, some,
  option_rule, arith, Text,
}
use mathlib.Core.Bool.{false≢true}
use hypertube.Config.Json.{
  Json, object, put_path-object, parts, put_path, read_path, read_path-put_path,
  read_path-put_path_other,
}

abbrev pub nth {ℓ} : {A : Type ℓ} → ℕ → List A → Option A
nth n [] = none
nth zero (x ∷ xs) = some x
nth (suc n) (x ∷ xs) = nth n xs

module _ {J : Type 0} where
  -- No assignment disturbs the path.
  abbrev pub spared : List Text → List (List Text × J) → Bool
  spared path [] = true
  spared path ((written, v) ∷ rest) = parts written path && spared path rest

  -- No assignment disturbs an earlier one.
  abbrev pub all_spared : List (List Text × J) → Bool
  all_spared [] = true
  all_spared ((path, v) ∷ rest) = spared path rest && all_spared rest

abbrev pub is_deep : List Text → Bool
is_deep [] = false
is_deep (k ∷ ks) = true

abbrev pub all_deep : {J : Type 0} → List (List Text × J) → Bool
all_deep [] = true
all_deep ((path, v) ∷ rest) = is_deep path && all_deep rest

module _ {J : Type 0} ⦃o : Json J⦄ where
  -- What the value has become, and whether no assignment threw.
  unfoldable pub assign_all : List (List Text × J) → J → J × Bool
  unfolding put_path
  assign_all [] j = (j, true)
  assign_all ((path, v) ∷ rest) j = elim (put_path path v j) [
    | none ↦ (j, false)
    | some t ↦ assign_all rest t
  ]

  pub read_path-assign_all_other :
      (path : List Text) (writes : List (List Text × J)) (j : J)
      → spared path writes ≡ true
      → (assign_all writes j).1 ≡ true
      → read_path path (assign_all writes j).0 ≡ read_path path j
  unfolding assign_all
  read_path-assign_all_other path [] j s = λ e. refl
  read_path-assign_all_other path ((written, v) ∷ rest) j s =
      option_rule {C = J × Bool} (λ r. r.1 ≡ true → read_path path r.0 ≡ read_path path j)
        (put_path written v j) _ _ (λ _ e. cc)
        λ t wrote e.
          read_path-assign_all_other path rest t (ground arith) e
          ∙ read_path-put_path_other written path v j t (ground arith) wrote

  -- Where no assignment disturbs an earlier one, each of them can be read after all of them.
  pub read_path-assign_all :
      (n : ℕ) (path : List Text) (v : J) (writes : List (List Text × J)) (j : J)
      → all_spared writes ≡ true
      → nth n writes ≡ some (path, v)
      → (assign_all writes j).1 ≡ true
      → read_path path (assign_all writes j).0 ≡ some v
  unfolding assign_all
  read_path-assign_all n path v [] j s at = λ e. cc
  read_path-assign_all zero path v ((written, u) ∷ rest) j s at =
      option_rule {C = J × Bool} (λ r. r.1 ≡ true → read_path path r.0 ≡ some v)
        (put_path written u j) _ _ (λ _ e. cc)
        λ t wrote e. ground (
          arith,
          read_path-assign_all_other path rest t,
          read_path-put_path written u j t wrote,
          at,
          s,
          e,
        )
  read_path-assign_all (suc n) path v ((written, u) ∷ rest) j s at =
      option_rule {C = J × Bool} (λ r. r.1 ≡ true → read_path path r.0 ≡ some v)
        (put_path written u j) _ _ (λ _ e. cc)
        (λ t wrote e. read_path-assign_all n path v rest t (ground arith) at e)

  -- An object stays one where every path has a key.
  pub assign_all-object :
      (writes : List (List Text × J)) (j : J)
      → all_deep writes ≡ true
      → o.kind j ≡ object
      → o.kind (assign_all writes j).0 ≡ object
  unfolding assign_all
  assign_all-object [] j d e = e
  assign_all-object (([], v) ∷ rest) j d e = absurd (false≢true d)
  assign_all-object ((k ∷ ks, v) ∷ rest) j d e =
      option_rule {C = J × Bool} (λ r. o.kind r.0 ≡ object) (put_path (k ∷ ks) v j) _ _ (λ _. e)
        (λ t wrote. assign_all-object rest t d (put_path-object k ks v j t wrote))
