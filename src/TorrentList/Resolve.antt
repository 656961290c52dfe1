-- ===== src/TorrentList/Resolve.antt =====
-- Identifiers resolve to the torrents that they name.
use hypertube.Common.{
  ℕ, ◌≡◌, ap, Bool, true, not, ◌||◌, List, [], ◌∷◌, some, arith, Text, text_beq_iff, nat_beq,
  if_rule, option_rule, is_empty, Assoc, Eq, lookup, emplace, lookup-emplace, text_eq,
}
use hypertube.Identity.{InfoHash, id}
use hypertube.Identity.Injective.{id-injective, matches-id}
use hypertube.TorrentList.{
  TorrentList, collect_ids, ensure_registry_current, find_match, hash_for_id,
}

module _ {H : Type 0} ⦃i : InfoHash H⦄ where
  -- Each identifier stands for a hash that prints so.
  abbrev pub IsNamed : Assoc Text H → Type 0
  IsNamed by_id = (c : Text) (h : H) → lookup c by_id ≡ some h → id h ≡ c

  pub nothing-IsNamed : IsNamed []
  unfolding lookup
  nothing-IsNamed c h e = ground arith

  emplace-IsNamed :
      (h : H) (by_id : Assoc Text H) → IsNamed by_id → IsNamed (emplace (id h) h by_id)
  emplace-IsNamed h by_id v c g e =
      ground (arith, v c g, lookup-emplace (id h) c h by_id, text_beq_iff (id h) c)

module _ {H D : Type 0} ⦃i : InfoHash H⦄ ⦃k : Eq H⦄ (is_valid : D → Bool) where
  collect_ids-IsNamed :
      (ts : List (H × D)) (by_id : Assoc Text H)
      → IsNamed by_id
      → IsNamed (collect_ids is_valid ts by_id)
  unfolding collect_ids
  collect_ids-IsNamed [] by_id v = v
  collect_ids-IsNamed ((h, d) ∷ ts) by_id v =
      collect_ids-IsNamed ts _
        (if_rule IsNamed (not (is_valid d) || is_empty (id h)) _ _ v (emplace-IsNamed h by_id v))

  -- The list keeps the invariant when it is brought up to date.
  ensure-IsNamed :
      (revision : ℕ) (ts : List (H × D)) (s : TorrentList H)
      → IsNamed s.hashes_by_id
      → IsNamed (ensure_registry_current is_valid revision ts s).hashes_by_id
  unfolding ensure_registry_current
  ensure-IsNamed revision ts s v =
      if_rule (λ (t : TorrentList H). IsNamed t.hashes_by_id) (nat_beq revision s.registry_revision)
        _ _ v (collect_ids-IsNamed ts [] nothing-IsNamed)

  find_match_finds :
      (h : H) (d : D) (ts : List (H × D))
      → lookup h ts ≡ some d
      → is_valid d ≡ true
      → find_match is_valid (id h) ts ≡ some h
  unfolding find_match lookup
  find_match_finds h d [] e valid = ground arith
  find_match_finds h d ((g, c) ∷ ts) e valid =
      ground (arith, matches-id g h, k.beq_iff g h, find_match_finds h d ts)

  -- Where each identifier of the list stands for a hash that prints so, the identifier of a torrent
  -- with a valid handle resolves to that torrent, whether or not the list has to be brought up to date.
  pub hash_for_id-id :
      (h : H) (d : D) (revision : ℕ) (ts : List (H × D)) (s : TorrentList H)
      → IsNamed s.hashes_by_id
      → lookup h ts ≡ some d
      → is_valid d ≡ true
      → hash_for_id is_valid (id h) revision ts s ≡ some h
  unfolding hash_for_id
  hash_for_id-id h d revision ts s v there valid =
      option_rule (λ r. r ≡ some h)
        (lookup (id h) (ensure_registry_current is_valid revision ts s).hashes_by_id) _ _
        (λ absent. find_match_finds h d ts there valid)
        (λ g found. ap some (id-injective g h (ensure-IsNamed revision ts s v (id h) g found)))
