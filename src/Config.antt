-- ===== src/Config.antt =====
-- src/app/ConfigManager.cpp: the configuration, its files and the thread that writes them.
pub mod Json
pub mod Assign
pub mod Preferences
pub mod Options
pub mod Validate
pub mod Files
pub mod Torrents
pub mod Defaults
pub mod Load
pub mod Saves
