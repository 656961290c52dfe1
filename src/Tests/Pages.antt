-- ===== src/Tests/Pages.antt =====
-- Runs of the search page.
use hypertube.Common.{◌≡◌, refl, true, List, [], ◌∷◌, Text, codes}
use hypertube.Search.Types.{TorrentSearchResult}
use hypertube.Search.Worker
use hypertube.Search.Worker.{Engine, Phase, waiting, Event, start_search}
use hypertube.SearchView.{SearchPresenter, initial, is_searching, start, duplicate}
use hypertube.SearchView.Unique.{IsUnique}
use hypertube.SearchView.Awaited.{searches, page_step, page_run, IsComing, page_run-IsComing}

abbrev listed : Text → TorrentSearchResult
listed hash = record {
  name = codes "film";
  magnet_uri = codes "magnet:";
  info_hash = hash;
  size_bytes = 700;
  seeders = 3;
  leechers = 1;
  date_uploaded = [];
  category = [];
  created_unix = 0;
  scraped_date = 0;
  completed = 0;
}

abbrev shown : List TorrentSearchResult
shown = listed (codes "ab") ∷ []

abbrev page : List TorrentSearchResult
page = listed (codes "ab") ∷ listed (codes "cd") ∷ []

shown-IsUnique : IsUnique shown
unfolding duplicate
shown-IsUnique = (refl, tt)

abbrev film_page : SearchPresenter
film_page = (start (codes "film") initial Worker.initial).1

abbrev film_engine : Engine
film_engine = (start (codes "film") initial Worker.initial).2

film_run :
    page_run (initial, Worker.initial) (searches (codes "film") ∷ []) ≡ (film_page, film_engine)
unfolding page_run page_step
film_run = refl

film_busy : is_searching film_page.state ≡ true
unfolding start start_search
film_busy = refl

page_run-IsComing_example : IsComing film_page.active_request_id film_engine.phase film_engine
page_run-IsComing_example =
    page_run-IsComing (searches (codes "film") ∷ []) film_page film_engine film_run film_busy
