-- ===== src/Adding.antt =====
-- include/presentation/TorrentAddFlow.hpp, to which include/presentation/TorrentAddController.hpp
-- forwards.
use hypertube.Common.{
  ◌≡◌, Bool, true, false, not, ◌&&◌, List, [], ◌∷◌, Option, none, some, arith, Text, is_some,
  is_empty, if◌then◌else◌,
}
use hypertube.Search.Types.{TorrentSearchResult}

pub data TorrentAddSource : Type 0 where
  torrent_file magnet search_result : TorrentAddSource

pub record TorrentAddRequest : Type 0 where
  pub source : TorrentAddSource
  pub value : Text

pub record TorrentAddFlow : Type 0 where
  pub pending_add : Option TorrentAddRequest
  pub dialog_opened : Bool

abbrev pub cancel_add : TorrentAddFlow → TorrentAddFlow
cancel_add f = record { pending_add = none; dialog_opened = false }

-- An empty value is no request.
abbrev pub begin_add : TorrentAddSource → Text → TorrentAddFlow → TorrentAddFlow
begin_add source value f =
    if not (is_empty value)
    then record (cancel_add f) { pending_add = some record { source = source; value = value } }
    else cancel_add f

abbrev pub begin_file : Text → TorrentAddFlow → TorrentAddFlow
begin_file = begin_add torrent_file

abbrev pub begin_magnet : Text → TorrentAddFlow → TorrentAddFlow
begin_magnet = begin_add magnet

abbrev pub begin_search_result : TorrentSearchResult → TorrentAddFlow → TorrentAddFlow
begin_search_result r = begin_add search_result r.magnet_uri

abbrev pub needs_destination_dialog : TorrentAddFlow → Bool
needs_destination_dialog f = is_some f.pending_add && not f.dialog_opened

abbrev pub mark_destination_dialog_opened : TorrentAddFlow → TorrentAddFlow
mark_destination_dialog_opened f = record f { dialog_opened = is_some f.pending_add }

abbrev pub has_pending_request : TorrentAddFlow → Bool
has_pending_request f = is_some f.pending_add

abbrev pub take_add : TorrentAddFlow → Option TorrentAddRequest × TorrentAddFlow
take_add f = (f.pending_add, cancel_add f)

pub data AddEvent : Type 0 where
  begun : TorrentAddSource → Text → AddEvent
  opened_dialog taken_request cancelled_add : AddEvent

unfoldable pub add_run : List AddEvent → TorrentAddFlow → TorrentAddFlow
add_run [] f = f
add_run (begun source value ∷ es) f = add_run es (begin_add source value f)
add_run (opened_dialog ∷ es) f = add_run es (mark_destination_dialog_opened f)
add_run (taken_request ∷ es) f = add_run es (take_add f).1
add_run (cancelled_add ∷ es) f = add_run es (cancel_add f)

-- The dialog is open only for a request that is there.
pub IsOpenFor : TorrentAddFlow → Type 0
IsOpenFor f = f.dialog_opened ≡ true → is_some f.pending_add ≡ true

begin_add-IsOpenFor :
    (source : TorrentAddSource) (value : Text) (f : TorrentAddFlow)
    → IsOpenFor (begin_add source value f)
unfolding IsOpenFor
begin_add-IsOpenFor source value f = λ h. ground arith

add_run-IsOpenFor :
    (es : List AddEvent) (f : TorrentAddFlow) → IsOpenFor f → IsOpenFor (add_run es f)
unfolding add_run IsOpenFor
add_run-IsOpenFor [] f v = v
add_run-IsOpenFor (begun source value ∷ es) f v =
    add_run-IsOpenFor es _ (begin_add-IsOpenFor source value f)
add_run-IsOpenFor (opened_dialog ∷ es) f v =
    add_run-IsOpenFor es (mark_destination_dialog_opened f) (λ h. h)
add_run-IsOpenFor (taken_request ∷ es) f v = add_run-IsOpenFor es (cancel_add f) (λ h. ground arith)
add_run-IsOpenFor (cancelled_add ∷ es) f v = add_run-IsOpenFor es (cancel_add f) (λ h. ground arith)
