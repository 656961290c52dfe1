-- ===== src/Lib.antt =====
-- Hypertube: a desktop client for BitTorrent with a search for torrents.
--
-- The program. `SearchEngine` (include/app/SearchEngine.hpp, src/app/SearchEngine.cpp) runs searches
-- on a thread of its own: a call puts a task in a slot, the thread asks the active provider or the
-- built-in service, and leaves a completion that a page takes. It also keeps the favorites and the
-- history of searches. `SearchPresenter` (src/presentation/SearchPresenter.cpp) is the page over it.
-- `TorrentManager` (src/app/TorrentManager.cpp) holds the torrents of a libtorrent session, and
-- `TorrentListPresenter` (src/presentation/TorrentListPresenter.cpp) lists them.
-- `ConfigManager` (src/app/ConfigManager.cpp) holds the configuration and writes its files;
-- `PreferencesController` saves and applies the preferences through it, with the credential store, and
-- `UiStateController` saves the layout through that.
-- `Utils` (src/utils, include/utils) has the encodings and the identifiers of torrents.
--
-- The files, with the code that each is about:
--   Common          names of the libraries, tests on numbers and texts, lists, association lists, and
--                   include/Result.hpp in Common/Outcome
--   Encoding        src/utils/StringUtils.cpp: `urlEncode` (Percent), `formatMagnetUri` (Magnet),
--                   `sanitizeUtf8` (Utf8, with RFC 3629 in Utf8/Scalars)
--   Identity        include/utils/TorrentIdentity.hpp: `hex`, `id`, `matches`, `isValid`; and
--                   `normalizeInfoHash` of src/app/SearchEngine.cpp (Normalize)
--   Search/Types    the structures of include/app/SearchEngine.hpp
--   Search/History  `addToSearchHistory`
--   Search/Favorites `addToFavorites`, `removeFromFavorites`, `isFavorite`, `loadFavoritesAndHistory`
--   Search/Http     `WriteCallback`, `ProgressCallback`, `makeHttpRequest`
--   Search/Providers `registerSearchProvider`, `setActiveSearchProvider`, `getSearchProviders`,
--                   `validateTorznabConfig`, `validateProxyConfig`, `configureTorznabProvider`
--   Search/Settings `setApiUrl`, `setTimeout`, `setMaxRetries`, `setProxyConfig`, `buildSearchUrl`
--   Search/Cache    `performSearch`
--   Search/Worker   `startSearch`, `tryStartSearch`, `finishSearch`, `cancelCurrentSearch`,
--                   `takeCompletedSearch`, `shutdown`, `workerLoop`, `clearSearchHistory`
--   SearchView      `SearchPresenter`: `startSearch`, `loadMore`, `cancel`, `update`, `mergeUnique`,
--                   `addFavorite`, `removeFavorite`
--   Torrents        src/app/TorrentManager.cpp: `validateAddPaths`, `addTorrent`, `addMagnetTorrent`,
--                   `removeTorrent` (Registry), `addTorrentsFromConfig` (Restore), `executeCommand`
--                   (Commands), `refreshStatusCache` (Status), `requestDetailsRefresh` and
--                   `detailWorkerLoop` (Details)
--   TorrentList     src/presentation/TorrentListPresenter.cpp: `hashForId`, `matchesCategory`,
--                   `matchesTextFilter`, `buildCategories`, and with
--                   src/presentation/TorrentAvailability.cpp `availabilityForId`, `executeCommand` and
--                   `removeTorrent` by identifier (Availability)
--   Torrents/Session `setDownloadSpeedLimit`, `setUploadSpeedLimit`, `configureDiscovery`, `setProxyConfig`
--   Config          src/app/ConfigManager.cpp: `applyPreferencesToJson` and `getPreferencesSettings`
--                   (Preferences), the setters and getters (Options), `validateConfig` (Validate),
--                   `createDefaultConfig` and `migrateConfigUnlocked` (Defaults), `load` (Load), the queue
--                   of saves (Saves), `saveTorrents` and `loadTorrents` (Torrents); `durableWriteFile` of
--                   src/utils/FileUtils.cpp (Files); and what is used of nlohmann::json (Json, Assign)
--   Preferences     src/presentation/PreferencesController.cpp (Runtime, Credentials, with
--                   include/utils/CredentialStore.hpp, and Controller) and
--                   src/presentation/UiStateController.cpp (UiState)
--   Logs            src/utils/Logger.cpp and src/presentation/LogsPresenter.cpp
--   Adding          include/presentation/TorrentAddFlow.hpp
--   Format          src/presentation/UiFormatters.cpp
--   Tests           runs at concrete inputs
--
-- How it is modelled. A text is the list of its bytes. A member function is a function from the state
-- and the arguments to the result and the state; an exception is a value. Members of 64 bits that count
-- wrap around at 2 ^ 64. What several threads do to the search is one list of events, and a theorem
-- about every list holds for every order of them. The events are cut finer than the calls: a start into
-- the looks at the flags with the store of `searching`, and the rest of what it does under its lock;
-- `cancelCurrentSearch` into its look and its store; `shutdown` into its two flags and its lock;
-- `searchTorrents` into its start, its end and the history behind it. A round of the thread is cut where
-- it takes the task, calls `performSearch`, publishes and finishes; its look at `cancelRequested` and what
-- follows from that, up to the history, are one event. The page's own calls run whole, and so do those of
-- the other controllers. The answers of libtorrent, of cURL, of the clock and of the file system are
-- fields of a record or functions that the definitions take, with the failures that the code passes over.
--
-- Fuel. `sanitize_utf8` gives its loop a round for each byte, and every round takes a byte at least.
-- `flush_loop` counts the rounds of `flush`, which the code does not bound: a theorem about it is for any
-- number of rounds. `make_http_request` gives its loop the number of retries, or one round where that is 0.
--
-- Not modelled: the parsers of answers (JSON and XML), the settings of the cURL handle; of the
-- torrents the gathering of details, the persistence snapshots and the alerts; of the list of torrents the
-- rows and their order; of the configuration the favorites; of the log the redaction and
-- the report; the other pages, and the user interface. Numbers of the configuration are integers that fit
-- their type, and the text that a value is printed to is read as that value. The controllers of the
-- preferences hold what `getPreferencesSettings` gives in place of the configuration, which does not throw
-- there. Memory that runs out is not modelled.
pub mod Adding
pub mod Common
pub mod Config
pub mod Encoding
pub mod Format
pub mod Identity
pub mod Logs
pub mod Preferences
pub mod Search
pub mod SearchView
pub mod Tests
pub mod TorrentList
pub mod Torrents
