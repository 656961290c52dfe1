-- ===== src/Torrents/Registry/Revision.antt =====
-- The revision tells of every change of the collection.
use hypertube.Common.{
  ◌^◌, ◌≡◌, refl, ◌<◌, ◌⊎◌, inl, inr, not, ◌&&◌, ◌||◌, Option, none, some, arith, Text, if_rule,
  is_some, Eq, lookup, lookup-emplace, lookup-remove, Result, Option-cases, sum_rule, option_rule,
  starts_with, codes,
}
use hypertube.Identity.{InfoHash}
use hypertube.Torrents.Registry.Calls.{Call, adds_file, adds_magnet, removes, call}
use hypertube.Torrents.Registry.{
  Registry, World, Metadata, validate_add_paths, bump, enter, after_session, add_known, add_torrent,
  add_magnet_torrent, forget, remove_torrent,
}

module _ {H D : Type 0} ⦃k : Eq H⦄ where
  -- The same torrents are there, with the same handles.
  abbrev pub SameTorrents : Registry H D → Registry H D → Type 0
  SameTorrents s t = (h : H) → lookup h t.torrents ≡ lookup h s.torrents

  -- The revision stands still and so do the torrents, or it moves on.
  abbrev pub Tracks : Registry H D → Registry H D → Type 0
  Tracks s t =
      (SameTorrents s t × (t.torrent_collection_revision ≡ s.torrent_collection_revision))
      ⊎ (t.torrent_collection_revision ≡ bump s.torrent_collection_revision)

  enter-Tracks :
      (d : D) (h : H) (p : Option Text) (n : Text) (s : Registry H D) → Tracks s (enter d h p n s)
  unfolding enter
  enter-Tracks d h p n s = elim (Option-cases (lookup h s.torrents)) [
    | inl new ↦ inr (rw new)
    | inr (old, there) ↦
        inl (λ g. ground (arith, lookup-emplace h g d s.torrents, k.beq_iff h g), rw there)
  ]

  forget-Tracks : (h : H) (s : Registry H D) → Tracks s (forget h s)
  unfolding forget
  forget-Tracks h s = elim (Option-cases (lookup h s.torrents)) [
    | inl absent ↦ inl (λ g. ground (arith, lookup-remove h g s.torrents, k.beq_iff h g), rw absent)
    | inr (old, there) ↦ inr (rw there)
  ]

module _ {H D : Type 0} ⦃k : Eq H⦄ ⦃i : InfoHash H⦄ (w : World H D) where
  abbrev TracksResult : Registry H D → Result × Registry H D → Type 0
  TracksResult s r = Tracks s r.1

  after_session-Tracks :
      (a : Text ⊎ (D × H)) (p : Option Text) (n : Text) (s : Registry H D)
      → TracksResult s (after_session w a p n s)
  unfolding after_session
  after_session-Tracks (inl what) p n s = inl (λ g. refl, refl)
  after_session-Tracks (inr (d, h)) p n s =
      option_rule (TracksResult s) (w.status_error d) _ _ (λ _. enter-Tracks d h p n s)
        (λ what _. enter-Tracks d h p n s)

  add_known-Tracks :
      (m : Metadata H) (p : Option Text) (s : Registry H D) → TracksResult s (add_known w m p s)
  unfolding add_known
  add_known-Tracks m p s =
      if_rule (TracksResult s)
        ((i.has_v1 m.info_hashes || i.has_v2 m.info_hashes)
          && is_some (lookup m.info_hashes s.torrents))
        _ (after_session w (w.add_torrent m.info_hashes) p m.name s) (inl (λ g. refl, refl))
        (after_session-Tracks (w.add_torrent m.info_hashes) p m.name s)

  call-Tracks : (s : Registry H D) (c : Call w) → TracksResult s (call w s c)
  unfolding call
  call-Tracks s (adds_file path save) =
      unfold add_torrent in
      sum_rule (TracksResult s) (validate_add_paths w save (some path)) _ _
        (λ r. inl (λ g. refl, refl))
        λ resolved.
          sum_rule (TracksResult s) (w.torrent_info path) _ _ (λ what. inl (λ g. refl, refl))
            (λ m. add_known-Tracks m (some path) s)
  call-Tracks s (adds_magnet uri save) =
      unfold add_magnet_torrent in
      sum_rule (TracksResult s) (validate_add_paths w save none) _ _ (λ r. inl (λ g. refl, refl))
        λ resolved.
          if_rule (TracksResult s) (not (starts_with (codes "magnet:?") uri)) _ _
            (inl (λ g. refl, refl))
            (sum_rule (TracksResult s) (w.parse_magnet_uri uri) _ _ (λ what. inl (λ g. refl, refl))
              λ m.
                if_rule (TracksResult s)
                  (not (i.has_v1 m.info_hashes) && not (i.has_v2 m.info_hashes)) _ _
                  (inl (λ g. refl, refl)) (add_known-Tracks m none s))
  call-Tracks s (removes h mode) =
      unfold remove_torrent in
      option_rule (TracksResult s) (lookup h s.torrents) _ _ (λ _. inl (λ g. refl, refl))
        λ d _.
          if_rule (TracksResult s) (not (w.is_valid d)) _ _ (inl (λ g. refl, refl))
            (forget-Tracks h s)

  -- A call that leaves the revision (a number of 64 bits) as it was leaves the torrents of the
  -- collection and their handles as they were.
  pub call-revision :
      (s : Registry H D) (c : Call w)
      → s.torrent_collection_revision < 2 ^ 64
      → (call w s c).1.torrent_collection_revision ≡ s.torrent_collection_revision
      → SameTorrents s (call w s c).1
  call-revision s c h e = elim (call-Tracks s c) [
    | inl same ↦ same.0
    | inr moved ↦ absurd (omega arith)
  ]
