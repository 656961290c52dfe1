-- ===== src/Torrents.antt =====
-- src/app/TorrentManager.cpp: the torrents of the session, and what is known of them.
pub mod Registry
pub mod Session
pub mod Status
pub mod Restore
pub mod Commands
pub mod Details
