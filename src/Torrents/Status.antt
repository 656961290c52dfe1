-- ===== src/Torrents/Status.antt =====
-- The status cache: `refreshStatusCache` and `getCachedStatus` of src/app/TorrentManager.cpp. `D` is
-- `lt::torrent_handle` and `S` is `lt::torrent_status`; `status` is `none` where libtorrent throws.
use hypertube.Common.{
  ℕ, ◌+◌, ◌-◌, ◌%◌, ◌^◌, leb, ◌≡◌, refl, ◌∙◌, Bool, true, not, ◌&&◌, ◌||◌, List, [], ◌∷◌, Option,
  none, some, arith, if◌then◌else◌, is_some, ◌==◌, Eq, Assoc, lookup, insert, lookup-insert,
}

module _ {D S : Type 0} (is_valid : D → Bool) (status : D → Option S) where
  -- What a torrent of the snapshot says now.
  pub fresh : D → Option S
  fresh d = if is_valid d then status d else none

  abbrev pub fresh_of : Option D → Option S
  fresh_of none = none
  fresh_of (some d) = fresh d

  -- Whether no status was refused, with any hashes.
  pub all_answered : {H : Type 0} → List (H × D) → Bool
  all_answered [] = true
  all_answered ((h, d) ∷ rest) = (not (is_valid d) || is_some (status d)) && all_answered rest

-- A cache that was never filled is the empty one; times are milliseconds of the steady clock.
pub record StatusCache (H S : Type 0) : Type 0 where
  pub status_cache : Assoc H S
  pub status_revision : ℕ
  pub last_cache_refresh : ℕ

module _ {H S : Type 0} where
  unfoldable pub should_refresh_cache : ℕ → ℕ → StatusCache H S → Bool
  should_refresh_cache now interval s = leb interval (now - s.last_cache_refresh)

  unfoldable pub get_cached_status : ⦃k : Eq H⦄ → H → StatusCache H S → Option S
  unfolding lookup
  get_cached_status h s = lookup h s.status_cache

abbrev pub or_else : {S : Type 0} → Option S → Option S → Option S
or_else none b = b
or_else (some a) b = some a

module _ {H D S : Type 0} ⦃k : Eq H⦄ (is_valid : D → Bool) (status : D → Option S) where
  -- The first loop: the new cache.
  collect : List (H × D) → Assoc H S → Assoc H S
  unfolding fresh
  collect [] cache = cache
  collect ((h, d) ∷ rest) cache =
      collect rest (elim (fresh is_valid status d) [ none ↦ cache | some st ↦ insert h st cache ])

  -- The second loop: what is missing is taken from the old cache.
  keep_known : List (H × D) → Assoc H S → Assoc H S → Assoc H S
  keep_known [] old cache = cache
  keep_known ((h, d) ∷ rest) old cache = keep_known rest old (
      if is_some (lookup h cache)
      then cache
      else elim (lookup h old) [ none ↦ cache | some st ↦ insert h st cache ])

  next_cache : List (H × D) → Assoc H S → Assoc H S
  unfolding collect all_answered keep_known
  next_cache torrents old =
      let new = collect torrents [] in
      if all_answered is_valid status torrents then new else keep_known torrents old new

  -- A refresh that is not complete leaves the cache stale.
  unfoldable pub refresh_status_cache : ℕ → List (H × D) → StatusCache H S → StatusCache H S
  unfolding next_cache
  refresh_status_cache now torrents s = record {
    status_cache = next_cache torrents s.status_cache;
    status_revision = (s.status_revision + 1) % 2 ^ 64;
    last_cache_refresh = if all_answered is_valid status torrents then now else 0;
  }

  -- The snapshot comes from a map: no hash stands twice.
  abbrev pub IsSnapshot : List (H × D) → Type 0
  IsSnapshot [] = Unit
  IsSnapshot ((h, d) ∷ rest) = (lookup h rest ≡ none) × IsSnapshot rest

  -- The status that the cache should have: none for what is not in the collection; the fresh one; and
  -- the old one only if there is no fresh one and the status of some torrent was refused.
  abbrev pub expected : H → List (H × D) → Assoc H S → Option S
  expected h ts old =
      if is_some (lookup h ts)
      then or_else (fresh_of is_valid status (lookup h ts))
          (if all_answered is_valid status ts then none else lookup h old)
      else none

  lookup-put :
      (h g : H) (o : Option S) (cache : Assoc H S)
      → lookup h (elim o [ none ↦ cache | some st ↦ insert g st cache ])
        ≡ (if g == h then or_else o (lookup h cache) else lookup h cache)
  lookup-put h g none cache = ground arith
  lookup-put h g (some st) cache = ground (arith, lookup-insert g h st cache)

  lookup-collect :
      (h : H) (ts : List (H × D)) (cache : Assoc H S)
      → IsSnapshot ts
      → lookup h (collect ts cache)
        ≡ or_else (fresh_of is_valid status (lookup h ts)) (lookup h cache)
  unfolding collect lookup
  lookup-collect h [] cache v = refl
  lookup-collect h ((g, d) ∷ ts) cache (new, v) =
      lookup-collect h ts
        (elim (fresh is_valid status d) [ none ↦ cache | some st ↦ insert g st cache ]) v
      ∙ ground (arith, lookup-put h g (fresh is_valid status d) cache, k.beq_iff g h)

  lookup-keep_known :
      (h : H) (ts : List (H × D)) (old cache : Assoc H S)
      → lookup h (keep_known ts old cache)
        ≡ or_else (lookup h cache) (if is_some (lookup h ts) then lookup h old else none)
  unfolding keep_known lookup
  lookup-keep_known h [] old cache = ground arith
  lookup-keep_known h ((g, d) ∷ ts) old cache =
      lookup-keep_known h ts old _
      ∙ ground (arith, lookup-put h g (lookup g old) cache, k.beq_iff g h)

  -- After a refresh the cached status of a hash is: none where the torrent is not in the collection;
  -- otherwise the fresh one; and the last known one only if there is no fresh one and the status of
  -- some torrent was refused. (The snapshot has each hash once.)
  pub get_cached_status-refresh_status_cache :
      (h : H) (now : ℕ) (ts : List (H × D)) (s : StatusCache H S)
      → IsSnapshot ts
      → get_cached_status h (refresh_status_cache now ts s) ≡ expected h ts s.status_cache
  unfolding refresh_status_cache get_cached_status
  get_cached_status-refresh_status_cache h now ts s v =
      ground
        (arith, lookup-collect h ts [] v, lookup-keep_known h ts s.status_cache (collect ts []))
