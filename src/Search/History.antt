-- ===== src/Search/History.antt =====
-- The search history: `addToSearchHistory`, `getSearchHistory` and `clearSearchHistory`.
use hypertube.Common.{
  ℕ, zero, suc, ◌≤◌, ◌≡◌, refl, sym, ap, ◌∙◌, true, false, List, [], ◌∷◌, arith, Text, text_beq_iff,
  ◌==◌, text_eq, if◌then◌else◌, length, ltb, take, take_all, length-take_le, elem, erase_first,
  is_empty, Distinct, Bool-cases, inl, inr, ltb-false→le, take-take,
}

abbrev pub history_limit : ℕ
history_limit = 20

unfoldable pub add_to_search_history : Text → List Text → List Text
add_to_search_history query history =
    if is_empty query
    then history
    else let moved = query ∷ (if elem query history then erase_first query history else history) in
      if ltb history_limit (length moved) then take history_limit moved else moved

-- The history after a series of searches, the latest first, from an empty history.
unfoldable pub run_history : List Text → List Text
run_history [] = []
run_history (q ∷ qs) = add_to_search_history q (run_history qs)

-- What the history stands for: the searches without the empty ones, each at its latest place.
unfoldable pub recent : List Text → List Text
recent [] = []
recent (q ∷ qs) = if is_empty q then recent qs else q ∷ erase_first q (recent qs)

erase_absent : (q : Text) (h : List Text) → elem q h ≡ false → erase_first q h ≡ h
erase_absent q [] e = refl
erase_absent q (x ∷ h) e = ground (arith, erase_absent q h)

resize_take : (n : ℕ) (h : List Text) → (if ltb n (length h) then take n h else h) ≡ take n h
resize_take n h = elim (Bool-cases (ltb n (length h))) [
  | inl over ↦ rw over
  | inr fits ↦ rw fits (sym (take_all n h (ltb-false→le n (length h) fits)))
]

erase_if : (q : Text) (h : List Text) → (if elem q h then erase_first q h else h) ≡ erase_first q h
erase_if q h = elim (Bool-cases (elem q h)) [
  | inl there ↦ rw there
  | inr fresh ↦ rw fresh (sym (erase_absent q h fresh))
]

-- One operation: in front, once, and no more than the limit.
add_to_search_history_lem :
    (q : Text) (h : List Text)
    → is_empty q ≡ false
    → add_to_search_history q h ≡ take history_limit (q ∷ erase_first q h)
unfolding add_to_search_history
add_to_search_history_lem q h e =
    rw (e, erase_if q h) (resize_take history_limit (q ∷ erase_first q h))

add_blank : (q : Text) (h : List Text) → is_empty q ≡ true → add_to_search_history q h ≡ h
unfolding add_to_search_history
add_blank q h e = rw e

-- A search that fell out of the history cannot come back by the erasure of another.
take-erase :
    (q : Text) (n : ℕ) (l : List Text)
    → take n (erase_first q (take (suc n) l)) ≡ take n (erase_first q l)
take-erase q n [] = refl
take-erase q zero (x ∷ l) = refl
take-erase q (suc n) (x ∷ l) = elim (Bool-cases (x == q)) [
  | inl hit ↦ rw hit (take-take (suc n) l)
  | inr miss ↦ rw miss (ap (λ t. x ∷ t) (take-erase q n l))
]

-- Starting from an empty history, the history is the twenty latest different searches, the latest
-- first; an empty search leaves no trace.
pub run_history-recent : (qs : List Text) → run_history qs ≡ take history_limit (recent qs)
unfolding run_history recent
run_history-recent [] = refl
run_history-recent (q ∷ qs) = elim (Bool-cases (is_empty q)) [
  | inl blank ↦ rw blank (add_blank q _ blank ∙ run_history-recent qs)
  | inr real ↦ rw real (
      add_to_search_history_lem q (run_history qs) real
      ∙ rw (run_history-recent qs) (ap (λ t. q ∷ t) (take-erase q 19 (recent qs))))
]

elem-erase_other :
    (p q : Text) (l : List Text) → elem p l ≡ false → elem p (erase_first q l) ≡ false
elem-erase_other p q [] e = refl
elem-erase_other p q (x ∷ l) e = ground (arith, elem-erase_other p q l)

elem-erase_self : (q : Text) (l : List Text) → Distinct l → elem q (erase_first q l) ≡ false
elem-erase_self q [] d = refl
elem-erase_self q (x ∷ l) (fresh, d) = ground (arith, text_beq_iff x q, elem-erase_self q l d)

erase-Distinct : (q : Text) (l : List Text) → Distinct l → Distinct (erase_first q l)
erase-Distinct q [] d = tt
erase-Distinct q (x ∷ l) (fresh, d) =
    ground (arith, erase-Distinct q l d, elem-erase_other x q l fresh)

-- The specification names no search twice.
pub recent-Distinct : (qs : List Text) → Distinct (recent qs)
unfolding recent
recent-Distinct [] = tt
recent-Distinct (q ∷ qs) = ground (
  arith,
  recent-Distinct qs,
  erase-Distinct q (recent qs) (recent-Distinct qs),
  elem-erase_self q (recent qs) (recent-Distinct qs),
)

elem-take : (p : Text) (n : ℕ) (l : List Text) → elem p l ≡ false → elem p (take n l) ≡ false
elem-take p zero l e = refl
elem-take p (suc n) [] e = refl
elem-take p (suc n) (x ∷ l) e = ground (arith, elem-take p n l)

take-Distinct : (n : ℕ) (l : List Text) → Distinct l → Distinct (take n l)
take-Distinct zero l d = tt
take-Distinct (suc n) [] d = tt
take-Distinct (suc n) (x ∷ l) (fresh, d) = (elem-take x n l fresh, take-Distinct n l d)

-- The invariant of the history: no search twice, and twenty at most.
abbrev pub IsHistory : List Text → Type 0
IsHistory h = Distinct h × (length h ≤ history_limit)

-- Every search keeps the invariant, from any history that has it.
pub add_to_search_history-IsHistory :
    (q : Text) (h : List Text) → IsHistory h → IsHistory (add_to_search_history q h)
add_to_search_history-IsHistory q h v = elim (Bool-cases (is_empty q)) [
  | inl blank ↦ rw (add_blank q h blank) v
  | inr real ↦ rw (add_to_search_history_lem q h real) (
    take-Distinct history_limit (q ∷ erase_first q h)
        (elem-erase_self q h v.0, erase-Distinct q h v.0),
    length-take_le history_limit (q ∷ erase_first q h),
  )
]
