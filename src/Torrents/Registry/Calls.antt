-- ===== src/Torrents/Registry/Calls.antt =====
-- The calls that change the collection, as one function over a type of calls.
use hypertube.Common.{Text, Eq, Result}
use hypertube.Identity.{InfoHash}
use hypertube.Torrents.Registry.{
  Registry, World, TorrentRemovalMode, add_torrent, add_magnet_torrent, remove_torrent,
}

module _ {H D : Type 0} ⦃k : Eq H⦄ ⦃i : InfoHash H⦄ (w : World H D) where
  pub data Call : Type 0 where
    adds_file adds_magnet : Text → Text → Call
    removes : H → TorrentRemovalMode → Call

  unfoldable pub call : Registry H D → Call → Result × Registry H D
  call s (adds_file path save) = add_torrent w path save s
  call s (adds_magnet uri save) = add_magnet_torrent w uri save s
  call s (removes h mode) = remove_torrent w h mode s
