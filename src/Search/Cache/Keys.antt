-- ===== src/Search/Cache/Keys.antt =====
-- The key of the cache tells searches apart.
use hypertube.Common.{
  ◌≡◌, arith, Text, Lacks, to_string, to_string-injective, to_string-Lacks, cut-injective,
}
use hypertube.Search.Types.{SearchQuery}
use hypertube.Search.Cache.{cache_key}

-- Two searches have one key only if they ask the same provider the same, as long as no line break
-- stands in the providers' names and in the queries.
pub cache_key-injective :
    (p p' : Text) (q q' : SearchQuery)
    → Lacks b'\n' p
    → Lacks b'\n' p'
    → Lacks b'\n' q.query
    → Lacks b'\n' q'.query
    → cache_key p q ≡ cache_key p' q'
    → (p ≡ p') × (q ≡ q')
unfolding cache_key
cache_key-injective p p' q q' hp hp' hq hq' e =
    let (ep, rest) = cut-injective b'\n' p p' _ _ hp hp' e in
    let (eq, rest') = cut-injective b'\n' q.query q'.query _ _ hq hq' rest in
    let (em, et) =
      cut-injective b'\n' (to_string q.max_results) (to_string q'.max_results) _ _
        (to_string-Lacks b'\n' q.max_results (omega arith))
        (to_string-Lacks b'\n' q'.max_results (omega arith)) rest' in
    (
      ep,
      λ i. record {
        query = eq i;
        max_results = to_string-injective q.max_results q'.max_results em i;
        next_token = et i;
      },
    )
