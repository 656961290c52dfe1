-- ===== src/Config/Torrents.antt =====
-- `saveTorrents` and `loadTorrents` of src/app/ConfigManager.cpp.
pub mod ResumeData
pub mod RoundTrip
pub mod Reload
use hypertube.Common.{
  ℤ, pos, ◌≡◌, Bool, true, false, not, ◌&&◌, ◌||◌, List, [], ◌∷◌, map, Option, none, some, ◌>>=◌,
  Text, codes, msg, ◌==◌, text_eq, if◌then◌else◌, is_some, is_empty, get_or_else, Assoc, lookup,
  insert, Result, ok, failure, internal, ◌++◌,
}
use hypertube.Config.Json.{Json, JsonKind, string, array, object, is_object}
use hypertube.Config.Assign.{assign_all}
use hypertube.Identity.Hex.{hex}
use hypertube.Config.Torrents.ResumeData.{decode_hex}
use hypertube.Torrents.Restore.{TorrentConfigData}

-- The digits that are written for the resume data, if any.
unfoldable pub resume_digits : Assoc Text Text → TorrentConfigData → Option Text
resume_digits previous t =
    if not (is_empty t.resume_data) then some (hex t.resume_data) else lookup t.magnet_uri previous

module _ {J : Type 0} ⦃o : Json J⦄ where
  abbrev pub is_string : J → Bool
  is_string j = elim (o.kind j) [ string ↦ true | _ ↦ false ]

  abbrev pub is_array : J → Bool
  is_array j = elim (o.kind j) [ array ↦ true | _ ↦ false ]

  -- The elements that a loop over an array goes through.
  abbrev pub elements : J → List J
  elements j = get_or_else [] (o.items j)

  -- A member that is a string, else nothing.
  unfoldable pub string_member : Text → J → Option Text
  string_member key j = o.member key j >>= λ v. if is_string v then o.as_text v else none

  -- One entry of `config["torrents"]` for the map of the resume data: the first with its magnet link
  -- counts. `value` throws for a link that is no string.
  unfoldable pub note_resume_data : J → Assoc Text Text → Option (Assoc Text Text)
  unfolding string_member
  note_resume_data entry known =
      if not (is_object entry)
      then some known
      else elim (o.member (codes "magnet_uri") entry) [ none ↦ some [] | some v ↦ o.as_text v ]
        >>= λ magnet.
            if is_empty magnet || is_some (lookup magnet known)
            then some known
            else some (elim (string_member (codes "resume_data") entry) [
              | none ↦ known
              | some digits ↦ insert magnet digits known
            ])

  unfoldable pub note_all : List J → Assoc Text Text → Option (Assoc Text Text)
  unfolding note_resume_data
  note_all [] known = some known
  note_all (entry ∷ entries) known = note_resume_data entry known >>= note_all entries

  unfoldable pub previous_resume_data : J → Option (Assoc Text Text)
  unfolding note_all
  previous_resume_data config = elim (o.member (codes "torrents") config) [
    | none ↦ some []
    | some torrents ↦ if is_array torrents then note_all (elements torrents) [] else some []
  ]

  unfoldable pub put_if : Text → Option Text → J → J
  put_if key given j = elim given [ none ↦ j | some s ↦ o.put key (o.of_text s) j ]

  unfoldable pub torrent_entry : Assoc Text Text → TorrentConfigData → J
  unfolding resume_digits put_if
  torrent_entry previous t = put_if (codes "resume_data") (resume_digits previous t) (
      put_if (codes "torrent_path")
        (if is_empty t.torrent_file_path then none else some t.torrent_file_path)
        (o.put (codes "save_path") (o.of_text t.save_path)
          (o.put (codes "magnet_uri") (o.of_text t.magnet_uri) o.empty_object)))

  -- `push_back` onto a value that is null at first.
  unfoldable pub torrents_json : Assoc Text Text → List TorrentConfigData → J
  unfolding torrent_entry
  torrents_json previous [] = o.null_value
  torrents_json previous (t ∷ ts) = o.of_list (map (torrent_entry previous) (t ∷ ts))

  unfoldable pub torrents_file : J → J
  torrents_file torrents =
      o.put (codes "torrents") torrents (o.put (codes "version") (o.of_int (pos 2)) o.empty_object)

  -- The configuration, whether nothing threw in the assignment, and the file that is to be written.
  unfoldable pub save_torrents : List TorrentConfigData → J → Option (J × Bool × J)
  unfolding previous_resume_data torrents_json torrents_file
  save_torrents ts config = previous_resume_data config >>= λ previous.
      let torrents = torrents_json previous ts in
      let (config', done) = assign_all ((codes "torrents" ∷ [], torrents) ∷ []) config in
      some (config', done, torrents_file torrents)

-- A file of the configuration, as it is found.
pub data Found (J : Type 0) : Type 0 where
  missing : Found J
  unreadable : Text → Found J
  parsed : J → Found J

-- What the loop over a file and its backup comes to.
pub data Choice (J : Type 0) : Type 0 where
  chosen : J → Choice J
  no_file : Choice J
  no_use : Text → Choice J

module _ {J : Type 0} ⦃o : Json J⦄ where
  -- The error of a file that is not accepted, if it is not.
  unfoldable pub torrents_error : J → Option Text
  torrents_error j =
      if not (is_object j)
      then some (msg "Invalid torrents configuration: root must be an object")
      else elim (o.member (codes "torrents") j) [
        | none ↦ none
        | some torrents ↦
            if is_array torrents
            then none
            else some (msg "Invalid torrents configuration: 'torrents' must be an array")
      ]

  -- The loop over the files, with what it came to so far.
  unfoldable pub choose : List (Found J) → Choice J → Choice J
  unfolding torrents_error
  choose [] so_far = so_far
  choose (missing ∷ files) so_far = choose files so_far
  choose (unreadable error ∷ files) so_far = choose files (no_use error)
  choose (parsed j ∷ files) so_far = elim (torrents_error j) [
    | none ↦ chosen j
    | some error ↦ choose files (no_use error)
  ]

  unfoldable pub load_entry : J → Option TorrentConfigData
  unfolding string_member
  load_entry entry =
      if not (is_object entry)
      then none
      else let magnet = get_or_else [] (string_member (codes "magnet_uri") entry) in
        let path = get_or_else [] (string_member (codes "save_path") entry) in
        let file = get_or_else [] (string_member (codes "torrent_path") entry) in
        let bytes = get_or_else [] (string_member (codes "resume_data") entry >>= decode_hex) in
        if is_empty path || (is_empty magnet && (is_empty file && is_empty bytes))
        then none
        else some record {
          magnet_uri = magnet;
          save_path = path;
          torrent_file_path = file;
          resume_data = bytes;
        }

  unfoldable pub load_entries : List J → List TorrentConfigData
  unfolding load_entry
  load_entries [] = []
  load_entries (entry ∷ entries) =
      let rest = load_entries entries in elim (load_entry entry) [ none ↦ rest | some t ↦ t ∷ rest ]

  unfoldable pub read_torrents : J → Result × List TorrentConfigData
  unfolding load_entries
  read_torrents source = elim (o.member (codes "torrents") source) [
    | none ↦ (ok, [])
    | some torrents ↦
        if not (is_array torrents)
        then (
          failure (msg "Invalid torrents configuration: 'torrents' must be an array") internal,
          [],
        )
        else (ok, load_entries (elements torrents))
  ]

  -- `files` are the file and its backup; without either the configuration in memory is read.
  unfoldable pub load_torrents : List (Found J) → J → Result × List TorrentConfigData
  unfolding choose read_torrents
  load_torrents files config = elim (choose files no_file) [
    | chosen source ↦ read_torrents source
    | no_file ↦ read_torrents config
    | no_use error ↦ (
      failure (if is_empty error then msg "Unable to load torrents configuration" else error)
          internal,
      [],
    )
  ]
