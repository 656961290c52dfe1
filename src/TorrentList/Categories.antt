-- ===== src/TorrentList/Categories.antt =====
-- What the categories count.
use hypertube.Common.{◌+◌, ◌≤◌, ◌≡◌, refl, List, [], ◌∷◌, arith, length}
use hypertube.TorrentList.{TorrentRow, matches_category, category_count}

-- The active and the inactive torrents are together all torrents, and the four states together are
-- at most all torrents, which the first category counts.
pub category_count_partition :
    (rows : List TorrentRow)
    → (category_count 0 rows ≡ length rows)
      × (category_count 5 rows + category_count 6 rows ≡ length rows)
      × (category_count 1 rows
            + category_count 2 rows
            + category_count 3 rows
            + category_count 4 rows
          ≤ length rows)
unfolding category_count matches_category
category_count_partition [] = (refl, refl, omega arith)
category_count_partition (row ∷ rows) = ground (arith, category_count_partition rows)
