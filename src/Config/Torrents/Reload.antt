-- ===== src/Config/Torrents/Reload.antt =====
-- Saving the torrents, writing the file, and loading it again.
use hypertube.Common.{
  pos, ◌≡◌, refl, ap, ap₂, ◌∙◌, Bool, true, List, [], ◌∷◌, map, Option, none, some, arith, Text,
  codes, text_beq_iff, text_eq, Assoc, All, is_some, ok,
}
use hypertube.Config.Json.{Json, is_object}
use hypertube.Config.Files.{Disk, FileOperations, durable_write_file, durable_write_file-Durable}
use hypertube.Torrents.Restore.{TorrentConfigData}
use hypertube.Config.Torrents.{
  Found, missing, parsed, previous_resume_data, torrent_entry, torrents_json, torrents_file,
  save_torrents, load_entries, read_torrents, load_torrents, choose, torrents_error,
}
use hypertube.Config.Torrents.RoundTrip.{
  reloaded, digits_of, IsResumeData, IsRestorable, load_entry-torrent_entry,
}

-- A file as it is found: its text is read as the value that was printed.
abbrev pub found : {J : Type 0} → Option J → Found J
found none = missing
found (some j) = parsed j

module _ (J : Type 0) ⦃o : Json J⦄ where
  load_entries-map :
      (known : Assoc Text Text) (ts : List TorrentConfigData)
      → All (λ (e : Text × Text). IsResumeData e.1) known
      → All (IsRestorable known) ts
      → load_entries (map (torrent_entry {J = J} (digits_of known)) ts) ≡ map (reloaded known) ts
  unfolding load_entries
  load_entries-map known [] b h = refl
  load_entries-map known (t ∷ ts) b (r, rs) =
      ground (arith, load_entry-torrent_entry J t known b r, load_entries-map known ts b rs)

  file_torrents : (v : J) → o.member (codes "torrents") (torrents_file v) ≡ some v
  unfolding torrents_file
  file_torrents v = ground (
    arith,
    text_beq_iff (codes "torrents") (codes "torrents"),
    o.member_put (codes "torrents") (codes "torrents") v
        (o.put (codes "version") (o.of_int (pos 2)) o.empty_object)
        (o.kind_put (codes "version") (o.of_int (pos 2)) o.empty_object),
  )

  file-object : (v : J) → is_object (torrents_file v) ≡ true
  unfolding torrents_file
  file-object v = ground (
    arith,
    o.kind_put (codes "torrents") v (o.put (codes "version") (o.of_int (pos 2)) o.empty_object),
  )

  read_torrents-file :
      (known : Assoc Text Text) (t : TorrentConfigData) (ts : List TorrentConfigData)
      → All (λ (e : Text × Text). IsResumeData e.1) known
      → All (IsRestorable known) (t ∷ ts)
      → read_torrents (torrents_file {J = J} (torrents_json (digits_of known) (t ∷ ts)))
        ≡ (ok, map (reloaded known) (t ∷ ts))
  unfolding read_torrents torrents_json
  read_torrents-file known t ts b h =
      let vs = map (torrent_entry {J = J} (digits_of known)) (t ∷ ts) in
      ground (
        arith,
        file_torrents (o.of_list vs),
        o.kind_of_list vs,
        o.items_of vs,
        load_entries-map known (t ∷ ts) b h,
      )

  accepted :
      (previous : Assoc Text Text) (t : TorrentConfigData) (ts : List TorrentConfigData)
      → torrents_error (torrents_file {J = J} (torrents_json previous (t ∷ ts))) ≡ none
  unfolding torrents_error torrents_json
  accepted previous t ts =
      let vs = map (torrent_entry {J = J} previous) (t ∷ ts) in
      ground (arith, file-object (o.of_list vs), file_torrents (o.of_list vs), o.kind_of_list vs)

  -- A list without torrents is written as null, which is not accepted.
  refused :
      (previous : Assoc Text Text)
      → is_some (torrents_error (torrents_file {J = J} (torrents_json previous []))) ≡ true
  unfolding torrents_error torrents_json
  refused previous =
      ground (arith, file-object o.null_value, file_torrents o.null_value, o.kind_null)

  load_torrents-chosen :
      (j config : J) (files : List (Found J))
      → torrents_error j ≡ none
      → load_torrents (parsed j ∷ files) config ≡ read_torrents j
  unfolding load_torrents choose
  load_torrents-chosen j config files e = ground (arith, e)

  load_torrents-second :
      (i j config : J) (files : List (Found J))
      → is_some (torrents_error i) ≡ true
      → torrents_error j ≡ none
      → load_torrents (parsed i ∷ parsed j ∷ files) config ≡ read_torrents j
  unfolding load_torrents choose
  load_torrents-second i j config files bad good = ground (arith, bad, good)

  written_file :
      (ts : List TorrentConfigData) (config : J) (previous : Assoc Text Text) (r : J × Bool × J)
      → previous_resume_data config ≡ some previous
      → save_torrents ts config ≡ some r
      → r.2 ≡ torrents_file (torrents_json previous ts)
  unfolding save_torrents
  written_file ts config previous r e saved = ground (arith, e, saved)

  -- Torrents of which each can be added again, with resume data of bytes and of at most 16777216 of
  -- them, are saved over a configuration that holds such resume data by link. The file that is saved is
  -- loaded as these torrents, byte for byte and whatever other files there are; one without resume data
  -- has those that the configuration held for its link.
  pub load_torrents-save_torrents :
      (known : Assoc Text Text) (t : TorrentConfigData) (ts : List TorrentConfigData)
      (config memory : J) (r : J × Bool × J) (files : List (Found J))
      → previous_resume_data config ≡ some (digits_of known)
      → All (λ (e : Text × Text). IsResumeData e.1) known
      → All (IsRestorable known) (t ∷ ts)
      → save_torrents (t ∷ ts) config ≡ some r
      → load_torrents (parsed r.2 ∷ files) memory ≡ (ok, map (reloaded known) (t ∷ ts))
  load_torrents-save_torrents known t ts config memory r files e b h saved =
      let previous = digits_of known in
      let file = written_file (t ∷ ts) config previous r e saved in
      load_torrents-chosen r.2 memory files (ap torrents_error file ∙ accepted previous t ts)
      ∙ ap read_torrents file
      ∙ read_torrents-file known t ts b h

  two_writes :
      (ops ops' : FileOperations J) (v w : J) (d : Disk J)
      → let d' = durable_write_file ops v d in
        let d'' = durable_write_file ops' w d'.1 in
        d'.0 ≡ true
        → d''.0 ≡ true
        → ops'.exists ≡ true
        → (d''.1.target ≡ some w) × (d''.1.backup ≡ some v)
  two_writes ops ops' v w d e e' answered =
      let first = durable_write_file-Durable ops v d in
      let second = durable_write_file-Durable ops' w (durable_write_file ops v d).1 in
      (second.written e', second.kept e' answered v (first.written e))

  -- If such torrents are saved, then a list without torrents is saved, both writes succeed, and the
  -- second was told whether the file exists, then the torrents of the first save, as they are loaded
  -- back, are what is loaded from the file and its backup.
  pub load_torrents_after_removal :
      (known : Assoc Text Text) (previous : Assoc Text Text) (t : TorrentConfigData)
      (ts : List TorrentConfigData) (config config' memory : J) (r r' : J × Bool × J)
      (ops ops' : FileOperations J) (d : Disk J)
      → previous_resume_data config ≡ some (digits_of known)
      → All (λ (e : Text × Text). IsResumeData e.1) known
      → previous_resume_data config' ≡ some previous
      → All (IsRestorable known) (t ∷ ts)
      → save_torrents (t ∷ ts) config ≡ some r
      → save_torrents [] config' ≡ some r'
      → (durable_write_file ops r.2 d).0 ≡ true
      → (durable_write_file ops' r'.2 (durable_write_file ops r.2 d).1).0 ≡ true
      → ops'.exists ≡ true
      → let d'' = (durable_write_file ops' r'.2 (durable_write_file ops r.2 d).1).1 in
        load_torrents (found d''.target ∷ found d''.backup ∷ []) memory
        ≡ (ok, map (reloaded known) (t ∷ ts))
  load_torrents_after_removal known previous t ts config config' memory r r' ops ops' d e b e' h
        saved saved' w w' answered =
      let (target, backup) = two_writes ops ops' r.2 r'.2 d w w' answered in
      let file = written_file (t ∷ ts) config (digits_of known) r e saved in
      let bare = written_file [] config' previous r' e' saved' in
      ap₂ (λ a b. load_torrents (found a ∷ found b ∷ []) memory) target backup
      ∙ load_torrents-second r'.2 r.2 memory []
          (ap (λ j. is_some (torrents_error j)) bare ∙ refused previous)
          (ap torrents_error file ∙ accepted (digits_of known) t ts)
      ∙ ap read_torrents file
      ∙ read_torrents-file known t ts b h
