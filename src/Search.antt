-- ===== src/Search.antt =====
-- src/app/SearchEngine.cpp, a module for each group of members.
pub mod Types
pub mod History
pub mod Favorites
pub mod Http
pub mod Providers
pub mod Cache
pub mod Worker
pub mod Settings
