-- ===== src/Tests.antt =====
-- Runs of the theorems at concrete inputs, by component.
mod Encoding
mod Identity
mod Requests
mod Engine
mod Pages
mod Torrents
mod Views
mod Values
mod Config
mod Preferences
mod Logs
