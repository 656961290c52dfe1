-- ===== src/Preferences.antt =====
-- Saving the preferences: src/presentation/PreferencesController.cpp and
-- src/presentation/UiStateController.cpp.
pub mod Runtime
pub mod Credentials
pub mod Controller
pub mod Reapplied
pub mod Atomic
pub mod Runs
pub mod Accepted
pub mod UiState
