-- ===== src/Config/Torrents/RoundTrip.antt =====
-- The torrents that are saved are those that are loaded.
use hypertube.Common.{
  ◌≤◌, Bool-cases, inl, inr, not, lookup, All, length, ◌≡◌, refl, ap, ◌∙◌, true, false, ◌&&◌, [],
  ◌∷◌, Option, none, some, ◌>>=◌, arith, Text, codes, text_beq, text_beq_iff, ◌==◌, text_eq,
  if◌then◌else◌, is_empty, get_or_else, Assoc,
}
use hypertube.Config.Json.{Json, is_object, object, string}
use hypertube.Config.Torrents.ResumeData.{decode_hex, decode_hex-hex}
use hypertube.Identity.Hex.{hex, IsByte}
use hypertube.Torrents.Restore.{TorrentConfigData}
use hypertube.Config.Torrents.{string_member, resume_digits, put_if, torrent_entry, load_entry}

-- What is loaded for a torrent, where `known` are the resume data that were saved before for each link:
-- the torrent, and if it has no resume data, with those that are known for its link.
unfoldable pub reloaded : Assoc Text Text → TorrentConfigData → TorrentConfigData
reloaded known t =
    if not (is_empty t.resume_data)
    then t
    else record t { resume_data = get_or_else [] (lookup t.magnet_uri known) }

-- The digits of bytes by link.
abbrev pub digits_of : Assoc Text Text → Assoc Text Text
digits_of [] = []
digits_of ((link, bytes) ∷ known) = (link, hex bytes) ∷ digits_of known

-- Bytes, and not more than are read.
abbrev pub IsResumeData : Text → Type 0
IsResumeData bytes = All IsByte bytes × (length bytes ≤ 16777216)

lookup-digits_of :
    (link : Text) (known : Assoc Text Text)
    → All (λ (e : Text × Text). IsResumeData e.1) known
    → get_or_else [] (lookup link (digits_of known) >>= decode_hex)
      ≡ get_or_else [] (lookup link known)
unfolding lookup
lookup-digits_of link [] h = refl
lookup-digits_of link ((key, bytes) ∷ known) ((sound, short), hs) =
    elim (Bool-cases (key == link)) [
      | inl e ↦ rw (e, decode_hex-hex bytes sound short) refl
      | inr e ↦ rw e (lookup-digits_of link known hs)
    ]

-- The digits that are written for a torrent are read as the resume data that it is loaded with.
resume_digits_lem :
    (known : Assoc Text Text) (t : TorrentConfigData)
    → All (λ (e : Text × Text). IsResumeData e.1) known
    → IsResumeData t.resume_data
    → get_or_else [] (resume_digits (digits_of known) t >>= decode_hex)
      ≡ (reloaded known t).resume_data
unfolding resume_digits reloaded
resume_digits_lem known t h (sound, short) = elim (Bool-cases (not (is_empty t.resume_data))) [
  | inl e ↦ rw (e, decode_hex-hex t.resume_data sound short) refl
  | inr e ↦ rw e (lookup-digits_of t.magnet_uri known h)
]

module _ {J : Type 0} ⦃o : Json J⦄ where
  put_if-object :
      (key : Text) (given : Option Text) (j : J)
      → o.kind j ≡ object
      → o.kind (put_if key given j) ≡ object
  unfolding put_if
  put_if-object key none j h = h
  put_if-object key (some s) j h = o.kind_put key (o.of_text s) j

  string_member-put_if :
      (key : Text) (given : Option Text) (j : J)
      → o.kind j ≡ object
      → o.member key j ≡ none
      → string_member key (put_if key given j) ≡ given
  unfolding string_member put_if
  string_member-put_if key none j h absent = ground (arith, absent)
  string_member-put_if key (some s) j h absent = ground (
    arith,
    o.member_put key key (o.of_text s) j h,
    text_beq_iff key key,
    o.kind_of_text s,
    o.as_text_of s,
  )

  member-put_if :
      (key l : Text) (given : Option Text) (j : J)
      → o.kind j ≡ object
      → (key == l) ≡ false
      → o.member l (put_if key given j) ≡ o.member l j
  unfolding put_if
  member-put_if key l none j h other = refl
  member-put_if key l (some s) j h other = ground (arith, o.member_put key l (o.of_text s) j h)

  string_member-member :
      (key : Text) (i j : J)
      → o.member key i ≡ o.member key j
      → string_member key i ≡ string_member key j
  unfolding string_member
  string_member-member key i j e =
      ap
        (λ m.
          m >>= λ v. if elim (o.kind v) [ string ↦ true | _ ↦ false ] then o.as_text v else none)
        e

  string_member-put :
      (key s : Text) (j : J)
      → o.kind j ≡ object
      → string_member key (o.put key (o.of_text s) j) ≡ some s
  unfolding string_member
  string_member-put key s j h = ground (
    arith,
    o.member_put key key (o.of_text s) j h,
    text_beq_iff key key,
    o.kind_of_text s,
    o.as_text_of s,
  )

abbrev given_file : TorrentConfigData → Option Text
given_file t = if is_empty t.torrent_file_path then none else some t.torrent_file_path

given_file_lem : (t : TorrentConfigData) → get_or_else [] (given_file t) ≡ t.torrent_file_path
given_file_lem t =
    elim t.torrent_file_path as (λ s. get_or_else [] (if is_empty s then none else some s) ≡ s) [
      | [] ↦ refl
      | c ∷ cs ↦ refl
    ]

-- There is enough to add the torrent again, and its resume data are bytes, up to the greatest size.
pub record IsRestorable (known : Assoc Text Text) (t : TorrentConfigData) : Type 0 where
  pub has_path : is_empty t.save_path ≡ false
  pub has_source :
      (is_empty t.magnet_uri
        && (is_empty t.torrent_file_path && is_empty (reloaded known t).resume_data))
      ≡ false
  pub has_bytes : IsResumeData t.resume_data

module _ (J : Type 0) ⦃o : Json J⦄ (t : TorrentConfigData) where
  abbrev with_magnet : J
  with_magnet = o.put (codes "magnet_uri") (o.of_text t.magnet_uri) o.empty_object

  abbrev with_path : J
  with_path = o.put (codes "save_path") (o.of_text t.save_path) with_magnet

  abbrev with_file : J
  with_file = put_if (codes "torrent_path") (given_file t) with_path

  with_file-object : o.kind with_file ≡ object
  with_file-object =
      put_if-object (codes "torrent_path") (given_file t) with_path (o.kind_put _ _ with_magnet)

  below :
      (previous : Assoc Text Text) (key : Text)
      → (codes "resume_data" == key) ≡ false
      → (codes "torrent_path" == key) ≡ false
      → string_member key (torrent_entry {J = J} previous t) ≡ string_member key with_path
  unfolding torrent_entry
  below previous key h h' = string_member-member key _ _ (
      member-put_if (codes "resume_data") key (resume_digits previous t) with_file with_file-object
        h
      ∙ member-put_if (codes "torrent_path") key (given_file t) with_path
          (o.kind_put _ _ with_magnet) h')

  entry_magnet :
      (previous : Assoc Text Text)
      → string_member (codes "magnet_uri") (torrent_entry {J = J} previous t) ≡ some t.magnet_uri
  unfolding text_beq
  entry_magnet previous =
      below previous (codes "magnet_uri") refl refl
      ∙ string_member-member (codes "magnet_uri") with_path with_magnet (
          o.member_put (codes "save_path") (codes "magnet_uri") (o.of_text t.save_path) with_magnet
            (o.kind_put _ _ o.empty_object))
      ∙ string_member-put (codes "magnet_uri") t.magnet_uri o.empty_object o.kind_empty

  entry_path :
      (previous : Assoc Text Text)
      → string_member (codes "save_path") (torrent_entry {J = J} previous t) ≡ some t.save_path
  unfolding text_beq
  entry_path previous =
      below previous (codes "save_path") refl refl
      ∙ string_member-put (codes "save_path") t.save_path with_magnet
          (o.kind_put _ _ o.empty_object)

  -- A key that is not there before the last two members.
  none_below :
      (key : Text)
      → (codes "save_path" == key) ≡ false
      → (codes "magnet_uri" == key) ≡ false
      → o.member key with_path ≡ none
  none_below key h h' =
      o.member_put (codes "save_path") key (o.of_text t.save_path) with_magnet
        (o.kind_put _ _ o.empty_object)
      ∙ ap (λ b. if b then some (o.of_text t.save_path) else o.member key with_magnet) h
      ∙ o.member_put (codes "magnet_uri") key (o.of_text t.magnet_uri) o.empty_object o.kind_empty
      ∙ ap (λ b. if b then some (o.of_text t.magnet_uri) else o.member key o.empty_object) h'
      ∙ o.member_empty key

  entry_file :
      (previous : Assoc Text Text)
      → string_member (codes "torrent_path") (torrent_entry {J = J} previous t) ≡ (given_file t)
  unfolding text_beq torrent_entry
  entry_file previous =
      string_member-member (codes "torrent_path") _ _ (
        member-put_if (codes "resume_data") (codes "torrent_path") (resume_digits previous t)
          with_file with_file-object refl)
      ∙ string_member-put_if (codes "torrent_path") (given_file t) with_path
          (o.kind_put _ _ with_magnet) (none_below (codes "torrent_path") refl refl)

  entry_data :
      (previous : Assoc Text Text)
      → string_member (codes "resume_data") (torrent_entry {J = J} previous t)
        ≡ resume_digits previous t
  unfolding text_beq torrent_entry
  entry_data previous =
      string_member-put_if (codes "resume_data") (resume_digits previous t) with_file
        with_file-object
        (member-put_if (codes "torrent_path") (codes "resume_data") (given_file t) with_path
            (o.kind_put _ _ with_magnet) refl
          ∙ none_below (codes "resume_data") refl refl)

  entry-object : (previous : Assoc Text Text) → is_object (torrent_entry {J = J} previous t) ≡ true
  unfolding torrent_entry
  entry-object previous =
      ap (λ k. elim k [ object ↦ true | _ ↦ false ])
        (put_if-object (codes "resume_data") (resume_digits previous t) with_file with_file-object)

  pub load_entry-torrent_entry :
      (known : Assoc Text Text)
      → All (λ (e : Text × Text). IsResumeData e.1) known
      → IsRestorable known t
      → load_entry (torrent_entry {J = J} (digits_of known) t) ≡ some (reloaded known t)
  unfolding load_entry
  load_entry-torrent_entry known h r =
      let previous = digits_of known in
      let e1 = ap (get_or_else []) (entry_magnet previous) in
      let e2 = ap (get_or_else []) (entry_path previous) in
      let e3 = ap (get_or_else []) (entry_file previous) ∙ given_file_lem t in
      let e4 =
        ap (λ d. get_or_else [] (d >>= decode_hex)) (entry_data previous)
        ∙ resume_digits_lem known t h r.has_bytes in
      unfold reloaded in
      ground (arith, entry-object previous, e1, e2, e3, e4, r.has_path, r.has_source)
