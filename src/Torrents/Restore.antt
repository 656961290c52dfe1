-- ===== src/Torrents/Restore.antt =====
-- `addTorrentsFromConfig` of src/app/TorrentManager.cpp: the torrents of the last session are added
-- again, from their resume data or from their source.
use hypertube.Common.{
  ◌≡◌, refl, ◌⊎◌, inl, inr, Bool, true, false, not, ◌&&◌, ◌||◌, List, [], ◌∷◌, Option, none, some,
  arith, Text, if◌then◌else◌, if_rule, option_rule, sum_rule, is_empty, is_some, ◌++◌, Option-cases,
  Eq, lookup, lookup-emplace, Result, starts_with, codes, All,
}
use hypertube.Identity.{InfoHash}
use hypertube.Torrents.Registry.{
  Registry, World, Metadata, validate_add_paths, enter, after_session, add_known, add_torrent,
  add_magnet_torrent,
}

-- `TorrentConfigData`
pub record TorrentConfigData : Type 0 where
  pub magnet_uri : Text
  pub save_path : Text
  pub torrent_file_path : Text
  pub resume_data : Text

-- What libtorrent makes of resume data, added to the session under a path; the left is the text of
-- an exception.
abbrev pub Resume : Type 0 → Type 0 → Type 0
Resume H D = Text → Text → Text ⊎ (D × H)

module _ {H D : Type 0} ⦃k : Eq H⦄ ⦃i : InfoHash H⦄ (w : World H D) (resume : Resume H D)
    (exists : Text → Option Bool) where
  -- The last resort: the magnet link.
  add_link : TorrentConfigData → Registry H D → Registry H D
  add_link torrent s =
      if not (is_empty torrent.magnet_uri)
      then (add_magnet_torrent w torrent.magnet_uri torrent.save_path s).1
      else s

  -- Behind the `continue`: the file, or the magnet link. The first part tells whether it returns;
  -- `std::filesystem::exists` throws where it has no answer, and nobody catches that.
  add_source : TorrentConfigData → Registry H D → Bool × Registry H D
  unfolding add_link
  add_source torrent s =
      if is_empty torrent.torrent_file_path
      then (true, add_link torrent s)
      else elim (exists torrent.torrent_file_path) [
        | none ↦ (false, s)
        | some there ↦
            if there
            then (true, (add_torrent w torrent.torrent_file_path torrent.save_path s).1)
            else (true, add_link torrent s)
      ]

  add_resumed : Text ⊎ (D × H) → TorrentConfigData → Registry H D → Bool × Registry H D
  unfolding add_source enter
  add_resumed (inl what) torrent s = add_source torrent s
  add_resumed (inr (handle, hash)) torrent s = (
    true,
    enter handle hash
        (if is_empty torrent.torrent_file_path then none else some torrent.torrent_file_path) [] s,
  )

  restore : TorrentConfigData → Registry H D → Bool × Registry H D
  unfolding add_source add_resumed
  restore torrent s =
      if is_empty torrent.resume_data
      then add_source torrent s
      else add_resumed
          (resume torrent.resume_data
            (if is_empty torrent.save_path then [] else w.expand_user_path torrent.save_path))
          torrent s

  -- An exception ends the loop.
  unfoldable pub add_torrents_from_config :
      List TorrentConfigData → Registry H D → Bool × Registry H D
  unfolding restore
  add_torrents_from_config [] s = (true, s)
  add_torrents_from_config (torrent ∷ rest) s =
      let (returns, t) = restore torrent s in
      let following = add_torrents_from_config rest t in if returns then following else (false, t)

  -- The torrents of the first state are in the second, under the same handles.
  abbrev pub Extends : Registry H D → Registry H D → Type 0
  Extends s t = (h : H) (d : D) → lookup h s.torrents ≡ some d → lookup h t.torrents ≡ some d

  enter-Extends :
      (handle : D) (hash : H) (p : Option Text) (n : Text) (s : Registry H D)
      → Extends s (enter handle hash p n s)
  unfolding enter
  enter-Extends handle hash p n s h d e = ground (arith, lookup-emplace hash h handle s.torrents)

  abbrev ExtendsResult : Registry H D → Result × Registry H D → Type 0
  ExtendsResult s r = Extends s r.1

  session-Extends :
      (a : Text ⊎ (D × H)) (p : Option Text) (n : Text) (s : Registry H D)
      → ExtendsResult s (after_session w a p n s)
  unfolding after_session
  session-Extends (inl what) p n s = λ h d e. e
  session-Extends (inr (d, h)) p n s =
      option_rule (ExtendsResult s) (w.status_error d) _ _ (λ _. enter-Extends d h p n s)
        (λ what _. enter-Extends d h p n s)

  add_known-Extends :
      (m : Metadata H) (p : Option Text) (s : Registry H D) → ExtendsResult s (add_known w m p s)
  unfolding add_known
  add_known-Extends m p s =
      if_rule (ExtendsResult s)
        ((i.has_v1 m.info_hashes || i.has_v2 m.info_hashes)
          && is_some (lookup m.info_hashes s.torrents))
        _ (after_session w (w.add_torrent m.info_hashes) p m.name s) (λ h d e. e)
        (session-Extends (w.add_torrent m.info_hashes) p m.name s)

  add_torrent-Extends :
      (path save : Text) (s : Registry H D) → ExtendsResult s (add_torrent w path save s)
  unfolding add_torrent
  add_torrent-Extends path save s =
      sum_rule (ExtendsResult s) (validate_add_paths w save (some path)) _ _ (λ r h d e. e)
        λ resolved.
          sum_rule (ExtendsResult s) (w.torrent_info path) _ _ (λ what h d e. e)
            (λ m. add_known-Extends m (some path) s)

  add_magnet_torrent-Extends :
      (uri save : Text) (s : Registry H D) → ExtendsResult s (add_magnet_torrent w uri save s)
  unfolding add_magnet_torrent
  add_magnet_torrent-Extends uri save s =
      sum_rule (ExtendsResult s) (validate_add_paths w save none) _ _ (λ r h d e. e)
        λ resolved.
          if_rule (ExtendsResult s) (not (starts_with (codes "magnet:?") uri)) _ _ (λ h d e. e)
            (sum_rule (ExtendsResult s) (w.parse_magnet_uri uri) _ _ (λ what h d e. e)
              λ m.
                if_rule (ExtendsResult s)
                  (not (i.has_v1 m.info_hashes) && not (i.has_v2 m.info_hashes)) _ _ (λ h d e. e)
                  (add_known-Extends m none s))

  abbrev ExtendsRun : Registry H D → Bool × Registry H D → Type 0
  ExtendsRun s r = Extends s r.1

  add_link-Extends :
      (torrent : TorrentConfigData) (s : Registry H D) → Extends s (add_link torrent s)
  unfolding add_link
  add_link-Extends torrent s =
      if_rule (Extends s) (not (is_empty torrent.magnet_uri)) _ _
        (add_magnet_torrent-Extends torrent.magnet_uri torrent.save_path s) (λ h d e. e)

  add_source-Extends :
      (torrent : TorrentConfigData) (s : Registry H D) → ExtendsRun s (add_source torrent s)
  unfolding add_source
  add_source-Extends torrent s =
      if_rule (ExtendsRun s) (is_empty torrent.torrent_file_path) _ _ (add_link-Extends torrent s) (
        option_rule (ExtendsRun s) (exists torrent.torrent_file_path) _ _ (λ _ h d e. e)
          λ there _.
            if_rule (ExtendsRun s) there _ _
              (add_torrent-Extends torrent.torrent_file_path torrent.save_path s)
              (add_link-Extends torrent s))

  add_resumed-Extends :
      (a : Text ⊎ (D × H)) (torrent : TorrentConfigData) (s : Registry H D)
      → ExtendsRun s (add_resumed a torrent s)
  unfolding add_resumed
  add_resumed-Extends (inl what) torrent s = add_source-Extends torrent s
  add_resumed-Extends (inr (handle, hash)) torrent s =
      enter-Extends handle hash
        (if is_empty torrent.torrent_file_path then none else some torrent.torrent_file_path) [] s

  restore-Extends :
      (torrent : TorrentConfigData) (s : Registry H D) → ExtendsRun s (restore torrent s)
  unfolding restore
  restore-Extends torrent s =
      if_rule (ExtendsRun s) (is_empty torrent.resume_data) _ _ (add_source-Extends torrent s) (
        add_resumed-Extends
          (resume torrent.resume_data
            (if is_empty torrent.save_path then [] else w.expand_user_path torrent.save_path))
          torrent s)

  -- A torrent of the collection is there, under the same handle, after a session is restored.
  pub add_torrents_from_config-Extends :
      (torrents : List TorrentConfigData) (s : Registry H D)
      → Extends s (add_torrents_from_config torrents s).1
  unfolding add_torrents_from_config
  add_torrents_from_config-Extends [] s = λ h d e. e
  add_torrents_from_config-Extends (torrent ∷ rest) s =
      let t = restore torrent s in
      if_rule (ExtendsRun s) t.0 (add_torrents_from_config rest t.1) (false, t.1)
        (λ h d e. add_torrents_from_config-Extends rest t.1 h d (restore-Extends torrent s h d e))
        (restore-Extends torrent s)

  -- The resume data of the torrent are accepted, for the torrent with the hash.
  abbrev pub IsResumed : TorrentConfigData → H → Type 0
  IsResumed torrent hash =
      (is_empty torrent.resume_data ≡ false)
      × ((d : D) × (resume torrent.resume_data
              (if is_empty torrent.save_path then [] else w.expand_user_path torrent.save_path)
            ≡ inr (d, hash)))

  -- The question for the .torrent file, if there is one, has an answer.
  abbrev pub IsExamined : TorrentConfigData → Type 0
  IsExamined torrent =
      (is_empty torrent.torrent_file_path ≡ true)
      ⊎ (is_some (exists torrent.torrent_file_path) ≡ true)

  add_source_returns :
      (torrent : TorrentConfigData) (s : Registry H D)
      → IsExamined torrent
      → (add_source torrent s).0 ≡ true
  unfolding add_source
  add_source_returns torrent s h = ground arith

  add_resumed_returns :
      (a : Text ⊎ (D × H)) (torrent : TorrentConfigData) (s : Registry H D)
      → IsExamined torrent
      → (add_resumed a torrent s).0 ≡ true
  unfolding add_resumed
  add_resumed_returns (inl what) torrent s h = add_source_returns torrent s h
  add_resumed_returns (inr (handle, hash)) torrent s h = refl

  restore_returns :
      (torrent : TorrentConfigData) (s : Registry H D)
      → IsExamined torrent
      → (restore torrent s).0 ≡ true
  unfolding restore
  restore_returns torrent s h =
      if_rule {A = Bool × Registry H D} (λ r. r.0 ≡ true) (is_empty torrent.resume_data) _ _
        (add_source_returns torrent s h) (add_resumed_returns _ torrent s h)

  restore_resumed :
      (torrent : TorrentConfigData) (hash : H) (s : Registry H D)
      → IsResumed torrent hash
      → ((restore torrent s).0 ≡ true)
        × (is_some (lookup hash (restore torrent s).1.torrents) ≡ true)
  unfolding restore add_resumed enter
  restore_resumed torrent hash s (kept, (d, accepted)) =
      rw (kept, accepted)
        (refl, ground (arith, lookup-emplace hash hash d s.torrents, k.beq_iff hash hash))

  -- A torrent whose resume data are accepted is in the collection after the restoration, if every
  -- torrent before it has no path to a .torrent file or one of which it can be told whether the file
  -- exists; whatever is restored before it and after it, and also where an exception ends the
  -- restoration after it.
  pub add_torrents_from_config_resumed :
      (before after : List TorrentConfigData) (torrent : TorrentConfigData) (hash : H)
      (s : Registry H D)
      → All IsExamined before
      → IsResumed torrent hash
      → is_some (lookup hash (add_torrents_from_config (before ++ torrent ∷ after) s).1.torrents)
        ≡ true
  unfolding add_torrents_from_config
  add_torrents_from_config_resumed [] after torrent hash s _ h =
      let (returns, there) = restore_resumed torrent hash s h in
      rw returns (elim (Option-cases (lookup hash (restore torrent s).1.torrents)) [
        | inl lost ↦ cc
        | inr (d, found) ↦
            rw (add_torrents_from_config-Extends after (restore torrent s).1 hash d found) refl
      ])
  add_torrents_from_config_resumed (t ∷ before) after torrent hash s (e, es) h =
      rw (restore_returns t s e)
        (add_torrents_from_config_resumed before after torrent hash (restore t s).1 es h)
