-- ===== src/SearchView/Unique.antt =====
-- No torrent is listed twice, and what is listed stays in its place.
use hypertube.Common.{
  ◌≡◌, refl, sym, ◌∙◌, Bool, true, false, ◌||◌, List, [], ◌∷◌, ◌++◌, append_assoc, append-nil,
  arith, Text, text_beq_iff, ◌==◌, text_eq, if_cases, Bool-cases, inl, inr,
}
use hypertube.Search.Types.{TorrentSearchResult}
use hypertube.SearchView.{duplicate, merge_unique}

-- A result with a hash is not followed by another with the same hash.
abbrev pub IsUnique : List TorrentSearchResult → Type 0
IsUnique [] = Unit
IsUnique (r ∷ rs) = (duplicate r rs ≡ false) × IsUnique rs

duplicate-append :
    (r : TorrentSearchResult) (xs ys : List TorrentSearchResult)
    → duplicate r (xs ++ ys) ≡ (duplicate r xs || duplicate r ys)
unfolding duplicate
duplicate-append r [] ys = refl
duplicate-append r (x ∷ xs) ys = ground (arith, duplicate-append r xs ys)

duplicate-sym :
    (r x : TorrentSearchResult) → duplicate r (x ∷ []) ≡ false → duplicate x (r ∷ []) ≡ false
unfolding duplicate
duplicate-sym r x h =
    ground (arith, text_beq_iff r.info_hash x.info_hash, text_beq_iff x.info_hash r.info_hash)

append-IsUnique :
    (r : TorrentSearchResult) (xs : List TorrentSearchResult)
    → IsUnique xs
    → duplicate r xs ≡ false
    → IsUnique (xs ++ r ∷ [])
append-IsUnique r [] u d = (unfold duplicate in refl, tt)
append-IsUnique r (x ∷ xs) (fresh, u) d = (
  ground (arith, duplicate-append x xs (r ∷ []), duplicate-sym r x, duplicate-append r (x ∷ []) xs),
  append-IsUnique r xs u (ground (arith, duplicate-append r (x ∷ []) xs)),
)

-- Where no hash is listed twice, none is listed twice after a page is merged.
pub merge_unique-IsUnique :
    (incoming results : List TorrentSearchResult)
    → IsUnique results
    → IsUnique (merge_unique incoming results)
unfolding merge_unique
merge_unique-IsUnique [] results u = u
merge_unique-IsUnique (r ∷ incoming) results u = merge_unique-IsUnique incoming _ (
    if_cases IsUnique (duplicate r results) results (results ++ r ∷ []) (λ _. u)
      (append-IsUnique r results u))

-- The results that were listed stay first and in order.
merge_unique-append :
    (incoming results : List TorrentSearchResult)
    → (more : List TorrentSearchResult) × (merge_unique incoming results ≡ results ++ more)
unfolding merge_unique
merge_unique-append [] results = ([], sym (append-nil results))
merge_unique-append (r ∷ incoming) results = elim (Bool-cases (duplicate r results)) [
  | inl old ↦ rw old (merge_unique-append incoming results)
  | inr new ↦
      let (more, e) = merge_unique-append incoming (results ++ r ∷ []) in
      rw new (r ∷ more, e ∙ append_assoc results (r ∷ []) more)
]

-- Some result of the list has the hash.
abbrev pub has_hash : Text → List TorrentSearchResult → Bool
has_hash a [] = false
has_hash a (x ∷ xs) = (a == x.info_hash) || has_hash a xs

has_hash-append :
    (a : Text) (xs ys : List TorrentSearchResult)
    → has_hash a (xs ++ ys) ≡ (has_hash a xs || has_hash a ys)
has_hash-append a [] ys = refl
has_hash-append a (x ∷ xs) ys = ground (arith, has_hash-append a xs ys)

duplicate-has_hash :
    (r : TorrentSearchResult) (xs : List TorrentSearchResult)
    → duplicate r xs ≡ true
    → has_hash r.info_hash xs ≡ true
unfolding duplicate
duplicate-has_hash r [] h = h
duplicate-has_hash r (x ∷ xs) h = ground (arith, duplicate-has_hash r xs)

-- After a merge a hash is listed exactly if it was listed or is in the page.
pub has_hash-merge_unique :
    (a : Text) (incoming results : List TorrentSearchResult)
    → has_hash a (merge_unique incoming results) ≡ (has_hash a results || has_hash a incoming)
unfolding merge_unique
has_hash-merge_unique a [] results = ground arith
has_hash-merge_unique a (r ∷ incoming) results = elim (Bool-cases (duplicate r results)) [
  | inl old ↦ rw old (
      ground (
        arith,
        has_hash-merge_unique a incoming results,
        duplicate-has_hash r results old,
        text_beq_iff a r.info_hash,
      ))
  | inr new ↦ rw new (
      ground (
        arith,
        has_hash-merge_unique a incoming (results ++ r ∷ []),
        has_hash-append a results (r ∷ []),
      ))
]
