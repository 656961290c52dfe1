-- ===== src/Torrents/Commands.antt =====
-- `executeCommand` of src/app/TorrentManager.cpp: which calls of the torrent's handle a command
-- makes, and what it reports.
use hypertube.Common.{
  ◌≡◌, refl, true, not, List, [], ◌∷◌, ◌++◌, Option, none, some, Text, msg, if◌then◌else◌, if_rule,
  option_rule, Eq, lookup, Result, ok, failure, not_found, unavailable, internal,
}
use hypertube.Torrents.Registry.{Registry, World}

pub data TorrentCommand : Type 0 where
  pause resume force_start force_recheck move_queue_up move_queue_down force_reannounce
        enable_sequential disable_sequential :
      TorrentCommand

pub data TorrentFlag : Type 0 where
  paused auto_managed sequential_download : TorrentFlag

-- The members of `lt::torrent_handle` that commands call.
pub data HandleCall : Type 0 where
  set_flags unset_flags : List TorrentFlag → HandleCall
  recheck queue_position_up queue_position_down reannounce : HandleCall

-- The `switch`: the calls in their order.
unfoldable pub calls_of : TorrentCommand → List HandleCall
calls_of pause = set_flags (paused ∷ []) ∷ []
calls_of resume = set_flags (auto_managed ∷ []) ∷ unset_flags (paused ∷ []) ∷ []
calls_of force_start = unset_flags (auto_managed ∷ paused ∷ []) ∷ []
calls_of force_recheck = recheck ∷ []
calls_of move_queue_up = queue_position_up ∷ []
calls_of move_queue_down = queue_position_down ∷ []
calls_of force_reannounce = reannounce ∷ []
calls_of enable_sequential = set_flags (sequential_download ∷ []) ∷ []
calls_of disable_sequential = unset_flags (sequential_download ∷ []) ∷ []

-- The calls one after the other, up to the first that throws; `none` if none does.
unfoldable pub issue : (HandleCall → Option Text) → List HandleCall → Option Text
issue perform [] = none
issue perform (call ∷ calls) = elim (perform call) [
  | some what ↦ some what
  | none ↦ issue perform calls
]

module _ {H D : Type 0} ⦃k : Eq H⦄ (w : World H D) (perform : D → HandleCall → Option Text) where
  unfoldable pub execute_command : H → TorrentCommand → Registry H D → Result × Registry H D
  unfolding calls_of issue
  execute_command hash command s = elim (lookup hash s.torrents) [
    | none ↦ (failure (msg "Torrent not found") not_found, s)
    | some handle ↦
        if not (w.is_valid handle)
        then (failure (msg "Torrent handle is invalid") unavailable, s)
        else elim (issue (perform handle) (calls_of command)) [
          | none ↦ (ok, record s { cache_stale = true })
          | some what ↦ (failure (msg "Torrent command failed: " ++ what) internal, s)
        ]
  ]

  -- A command changes no torrent, path or name of the collection, and not its revision.
  pub execute_command_same :
      (hash : H) (command : TorrentCommand) (s : Registry H D)
      → let t = (execute_command hash command s).1 in record t { cache_stale = s.cache_stale } ≡ s
  unfolding execute_command
  execute_command_same hash command s =
      let P = λ (r : Result × Registry H D). record r.1 { cache_stale = s.cache_stale } ≡ s in
      option_rule P (lookup hash s.torrents) _ _ (λ absent. refl)
        λ d there. if_rule P (not (w.is_valid d)) _ _ refl (
          option_rule P (issue (perform d) (calls_of command)) _ _ (λ fine. refl)
            (λ what thrown. refl))
