-- ===== src/Torrents/Registry/Removal.antt =====
-- What adding and removing do to the collection, and when they fail.
use hypertube.Common.{
  ◌≡◌, refl, ◌≢◌, ◌⊎◌, inl, inr, true, false, not, ◌&&◌, ◌||◌, Option, none, some, arith, Text,
  if◌then◌else◌, if_rule, if_cases, option_rule, sum_rule, is_empty, is_some, ◌==◌, Eq, lookup,
  lookup-emplace, lookup-remove, Result, ok, duplicate, partial, starts_with, codes, ◌↔◌,
  Option-cases, sym, ◌∙◌,
}
use mathlib.Core.Bool.{false≢true}
use hypertube.Identity.{InfoHash}
use hypertube.Torrents.Registry.Calls.{Call, adds_file, adds_magnet, removes, call}
use hypertube.Torrents.Registry.{
  validate_add_paths, Registry, World, Metadata, TorrentRemovalMode, enter, after_session,
  add_known, add_torrent, add_magnet_torrent, forget, source_removal_error, remove_torrent,
  deletes_source, delete_source_torrent, delete_data_and_source_torrent,
}

module _ {H D : Type 0} ⦃k : Eq H⦄ where
  -- Paths and names are kept for torrents of the collection only.
  abbrev pub IsTidy : Registry H D → Type 0
  IsTidy s =
      (h : H)
      → lookup h s.torrents ≡ none
      → (lookup h s.torrent_file_paths ≡ none) × (lookup h s.torrent_display_names ≡ none)

  forget-IsTidy : (h : H) (s : Registry H D) → IsTidy s → IsTidy (forget h s)
  unfolding forget
  forget-IsTidy h s v g e = ground (
    arith,
    lookup-remove h g s.torrents,
    lookup-remove h g s.torrent_file_paths,
    lookup-remove h g s.torrent_display_names,
    v g,
  )

  enter-IsTidy :
      (d : D) (h : H) (p : Option Text) (n : Text) (s : Registry H D)
      → IsTidy s
      → IsTidy (enter d h p n s)
  unfolding enter
  enter-IsTidy d h none n s v g e =
      ground
        (arith, v g, lookup-emplace h g d s.torrents, lookup-emplace h g n s.torrent_display_names)
  enter-IsTidy d h (some p) n s v g e = ground (
    arith,
    v g,
    lookup-emplace h g d s.torrents,
    lookup-emplace h g p s.torrent_file_paths,
    lookup-emplace h g n s.torrent_display_names,
  )

module _ {H D : Type 0} ⦃k : Eq H⦄ ⦃i : InfoHash H⦄ (w : World H D) where
  -- The .torrent file was to be removed, its path is known, and it could not be removed.
  abbrev pub IsSourceLeft : H → TorrentRemovalMode → Registry H D → Type 0
  IsSourceLeft h mode s =
      ((mode ≡ delete_source_torrent) ⊎ (mode ≡ delete_data_and_source_torrent))
      × ((path : Text) × (lookup h s.torrent_file_paths ≡ some path)
          × (is_empty path ≡ false)
          × (is_empty (w.remove_file path) ≡ false))

  source_removal_error-IsSourceLeft :
      (h : H) (mode : TorrentRemovalMode) (s : Registry H D)
      → (is_empty (source_removal_error w h mode s) ≡ false) ↔ IsSourceLeft h mode s
  unfolding source_removal_error deletes_source
  source_removal_error-IsSourceLeft h mode s = elim (Option-cases (lookup h s.torrent_file_paths)) [
    | inl no_path ↦ ground (arith, no_path)
    | inr (path, found) ↦ (
      λ e. (ground (arith, found), (path, found, ground (arith, found), ground (arith, found))),
      λ (asked, (p, e, f, g)). ground (arith, found),
    )
  ]

  abbrev pub Removed : H → TorrentRemovalMode → Registry H D → Result × Registry H D → Type 0
  Removed h mode s r =
      ((d : D) × (lookup h s.torrents ≡ some d)
        × (w.is_valid d ≡ true)
        × ((g : H) → lookup g r.1.torrents ≡ (if h == g then none else lookup g s.torrents))
        × (((r.0.success ≡ true) × ¬ IsSourceLeft h mode s)
            ⊎ ((r.0.success ≡ false) × (r.0.code ≡ partial) × IsSourceLeft h mode s)))
      ⊎ ((r.0.success ≡ false)
          × (r.0.code ≢ partial)
          × (r.1 ≡ s)
          × ((d : D) → lookup h s.torrents ≡ some d → w.is_valid d ≡ false))

  -- A removal of a torrent with a valid handle takes it out of the collection, and no other; it fails
  -- as partial where its .torrent file was to be removed, is known, and could not be removed, and is a
  -- success otherwise. Every other removal fails, not as partial, and changes nothing; the torrent was
  -- not there or its handle was not valid.
  pub remove_torrent-Removed :
      (h : H) (mode : TorrentRemovalMode) (s : Registry H D)
      → Removed h mode s (remove_torrent w h mode s)
  unfolding remove_torrent
  remove_torrent-Removed h mode s =
      let (left, none_left) = source_removal_error-IsSourceLeft h mode s in
      option_rule (Removed h mode s) (lookup h s.torrents) _ _
        (λ absent. inr (refl, λ e. cc, refl, λ d e. cc))
        λ d there.
          if_cases (Removed h mode s) (not (w.is_valid d)) _ _
            (λ bad. inr (refl, λ e. cc, refl, λ d' e. ground arith))
            λ good. inl (
              d,
              there,
              ground arith,
              unfold forget in λ g. lookup-remove h g s.torrents,
              if_cases {A = Result}
                  (λ r.
                    ((r.success ≡ true) × ¬ IsSourceLeft h mode s)
                    ⊎ ((r.success ≡ false) × (r.code ≡ partial) × IsSourceLeft h mode s))
                  (is_empty (source_removal_error w h mode s)) ok _
                  (λ gone. inl (refl, λ l. absurd (false≢true (sym (none_left l) ∙ gone))))
                  (λ stays. inr (refl, refl, left stays)),
            )

  session-IsTidy :
      (a : Text ⊎ (D × H)) (p : Option Text) (n : Text) (s : Registry H D)
      → IsTidy s
      → IsTidy (after_session w a p n s).1
  unfolding after_session
  session-IsTidy (inl what) p n s v = v
  session-IsTidy (inr (d, h)) p n s v =
      option_rule {C = Result × Registry H D} (λ r. IsTidy r.1) (w.status_error d) _ _
        (λ _. enter-IsTidy d h p n s v) (λ what _. enter-IsTidy d h p n s v)

  abbrev TidyResult : Result × Registry H D → Type 0
  TidyResult r = IsTidy r.1

  add_known-IsTidy :
      (m : Metadata H) (p : Option Text) (s : Registry H D)
      → IsTidy s
      → TidyResult (add_known w m p s)
  unfolding add_known
  add_known-IsTidy m p s v =
      if_rule TidyResult
        ((i.has_v1 m.info_hashes || i.has_v2 m.info_hashes)
          && is_some (lookup m.info_hashes s.torrents))
        _ (after_session w (w.add_torrent m.info_hashes) p m.name s) v
        (session-IsTidy (w.add_torrent m.info_hashes) p m.name s v)

  -- Where paths and names are kept for torrents of the collection only, they are so after a call.
  pub call-IsTidy : (s : Registry H D) (c : Call w) → IsTidy s → IsTidy (call w s c).1
  unfolding call
  call-IsTidy s (adds_file path save) v =
      unfold add_torrent in
      sum_rule TidyResult (validate_add_paths w save (some path)) _ _ (λ r. v)
        λ resolved.
          sum_rule TidyResult (w.torrent_info path) _ _ (λ what. v)
            (λ m. add_known-IsTidy m (some path) s v)
  call-IsTidy s (adds_magnet uri save) v =
      unfold add_magnet_torrent in
      sum_rule TidyResult (validate_add_paths w save none) _ _ (λ r. v)
        λ resolved. if_rule TidyResult (not (starts_with (codes "magnet:?") uri)) _ _ v (
          sum_rule TidyResult (w.parse_magnet_uri uri) _ _ (λ what. v)
            λ m.
              if_rule TidyResult (not (i.has_v1 m.info_hashes) && not (i.has_v2 m.info_hashes)) _ _
                v (add_known-IsTidy m none s v))
  call-IsTidy s (removes h mode) v =
      unfold remove_torrent in
      option_rule TidyResult (lookup h s.torrents) _ _ (λ _. v)
        λ d _. if_rule TidyResult (not (w.is_valid d)) _ _ v (forget-IsTidy h s v)

  -- Where the paths pass and the file is read, and its torrent has a hash and is in the collection
  -- already, the addition is refused as a duplicate and changes nothing.
  pub add_torrent-duplicate :
      (path save resolved : Text) (m : Metadata H) (s : Registry H D)
      → validate_add_paths w save (some path) ≡ inr resolved
      → w.torrent_info path ≡ inr m
      → (i.has_v1 m.info_hashes || i.has_v2 m.info_hashes) ≡ true
      → is_some (lookup m.info_hashes s.torrents) ≡ true
      → ((add_torrent w path save s).0.code ≡ duplicate) × ((add_torrent w path save s).1 ≡ s)
  unfolding add_torrent add_known
  add_torrent-duplicate path save resolved m s v t f there = ground arith
