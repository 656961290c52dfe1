-- ===== src/Search/Favorites.antt =====
-- Favorites: `addToFavorites`, `removeFromFavorites`, `isFavorite` and the favorites' part of
-- `loadFavoritesAndHistory`. The set of hashes is a list without repetition.
use hypertube.Common.{
  ℕ, ◌+◌, ◌%◌, ◌^◌, ◌<◌, ◌≡◌, refl, ◌≢◌, inl, inr, Bool, false, not, ◌||◌, List, [], ◌∷◌, ◌++◌,
  arith, Text, text_beq_iff, ◌==◌, text_eq, nat_beq, if◌then◌else◌, length, elem, keep,
  length-keep_le, Bool-cases,
}
use hypertube.Search.Types.{TorrentSearchResult}

pub record Favorites : Type 0 where
  pub favorites : List TorrentSearchResult
  pub favorite_hashes : List Text
  pub favorites_revision : ℕ

-- `std::atomic<uint64_t>`
abbrev bump : ℕ → ℕ
bump r = (r + 1) % 2 ^ 64

-- `set.insert(hash)` and `set.erase(hash)`
abbrev insert_hash : Text → List Text → List Text
insert_hash a set = if elem a set then set else a ∷ set

abbrev erase_hash : Text → List Text → List Text
erase_hash a set = keep (λ x. not (x == a)) set

pub is_favorite : Favorites → Text → Bool
is_favorite s info_hash = elem info_hash s.favorite_hashes

unfoldable pub add_to_favorites : TorrentSearchResult → Favorites → Favorites
add_to_favorites result s = if elem result.info_hash s.favorite_hashes then s else record {
  favorites = s.favorites ++ result ∷ [];
  favorite_hashes = insert_hash result.info_hash s.favorite_hashes;
  favorites_revision = bump s.favorites_revision;
}

unfoldable pub remove_from_favorites : Text → Favorites → Favorites
remove_from_favorites info_hash s =
    let left = keep (λ fav. not (fav.info_hash == info_hash)) s.favorites in
    record {
      favorites = left;
      favorite_hashes = erase_hash info_hash s.favorite_hashes;
      favorites_revision =
          if nat_beq (length left) (length s.favorites)
          then s.favorites_revision
          else bump s.favorites_revision;
    }

hashes_of : List TorrentSearchResult → List Text → List Text
hashes_of [] set = set
hashes_of (fav ∷ favs) set = hashes_of favs (insert_hash fav.info_hash set)

-- `snapshot` is what the configuration holds.
unfoldable pub load_favorites : List TorrentSearchResult → Favorites → Favorites
unfolding hashes_of
load_favorites snapshot s = record {
  favorites = snapshot;
  favorite_hashes = hashes_of snapshot [];
  favorites_revision = bump s.favorites_revision;
}

-- Some favorite has the hash.
abbrev pub has_hash : Text → List TorrentSearchResult → Bool
has_hash a [] = false
has_hash a (fav ∷ favs) = (fav.info_hash == a) || has_hash a favs

-- The set of hashes is that of the favorites.
abbrev pub IsSynced : Favorites → Type 0
IsSynced s = (a : Text) → elem a s.favorite_hashes ≡ has_hash a s.favorites

has_hash-append :
    (a : Text) (xs ys : List TorrentSearchResult)
    → has_hash a (xs ++ ys) ≡ (has_hash a xs || has_hash a ys)
has_hash-append a [] ys = refl
has_hash-append a (x ∷ xs) ys = ground (arith, has_hash-append a xs ys)

elem-insert_hash :
    (a b : Text) (set : List Text) → elem b (insert_hash a set) ≡ ((a == b) || elem b set)
elem-insert_hash a b set = elim (Bool-cases (elem a set)) [
  | inl old ↦ rw old (ground (arith, text_beq_iff a b))
  | inr new ↦ rw new
]

elem-erase_hash :
    (a b : Text) (set : List Text)
    → elem b (erase_hash a set) ≡ (if a == b then false else elem b set)
elem-erase_hash a b [] = ground arith
elem-erase_hash a b (x ∷ set) =
    ground (arith, text_beq_iff x a, text_beq_iff x b, text_beq_iff a b, elem-erase_hash a b set)

has_hash-keep :
    (a b : Text) (favs : List TorrentSearchResult)
    → has_hash b (keep (λ fav. not (fav.info_hash == a)) favs)
      ≡ (if a == b then false else has_hash b favs)
has_hash-keep a b [] = ground arith
has_hash-keep a b (x ∷ favs) = ground (
  arith,
  text_beq_iff x.info_hash a,
  text_beq_iff x.info_hash b,
  text_beq_iff a b,
  has_hash-keep a b favs,
)

pub add_to_favorites-IsSynced :
    (r : TorrentSearchResult) (s : Favorites) → IsSynced s → IsSynced (add_to_favorites r s)
unfolding add_to_favorites
add_to_favorites-IsSynced r s h a = ground (
  arith,
  h a,
  elem-insert_hash r.info_hash a s.favorite_hashes,
  has_hash-append a s.favorites (r ∷ []),
)

pub remove_from_favorites-IsSynced :
    (b : Text) (s : Favorites) → IsSynced s → IsSynced (remove_from_favorites b s)
unfolding remove_from_favorites
remove_from_favorites-IsSynced b s h a =
    ground (arith, h a, elem-erase_hash b a s.favorite_hashes, has_hash-keep b a s.favorites)

elem-hashes_of :
    (a : Text) (favs : List TorrentSearchResult) (set : List Text)
    → elem a (hashes_of favs set) ≡ (has_hash a favs || elem a set)
unfolding hashes_of
elem-hashes_of a [] set = refl
elem-hashes_of a (x ∷ favs) set =
    ground (
      arith,
      elem-hashes_of a favs (insert_hash x.info_hash set),
      elem-insert_hash x.info_hash a set,
    )

pub load_favorites-IsSynced :
    (favs : List TorrentSearchResult) (s : Favorites) → IsSynced (load_favorites favs s)
unfolding load_favorites
load_favorites-IsSynced favs s a = ground (arith, elem-hashes_of a favs [])

-- The calls that change the favorites.
pub data FavoriteCall : Type 0 where
  adds : TorrentSearchResult → FavoriteCall
  removes : Text → FavoriteCall
  loads : List TorrentSearchResult → FavoriteCall

unfoldable pub favorite_step : Favorites → FavoriteCall → Favorites
favorite_step s (adds r) = add_to_favorites r s
favorite_step s (removes a) = remove_from_favorites a s
favorite_step s (loads favs) = load_favorites favs s

unfoldable pub favorite_run : Favorites → List FavoriteCall → Favorites
favorite_run s [] = s
favorite_run s (c ∷ cs) = favorite_run (favorite_step s c) cs

favorite_step-IsSynced :
    (s : Favorites) (c : FavoriteCall) → IsSynced s → IsSynced (favorite_step s c)
unfolding favorite_step
favorite_step-IsSynced s (adds r) h = add_to_favorites-IsSynced r s h
favorite_step-IsSynced s (removes a) h = remove_from_favorites-IsSynced a s h
favorite_step-IsSynced s (loads favs) h = load_favorites-IsSynced favs s

-- Where the set of hashes is that of the favorites, it is so after any calls.
pub favorite_run-IsSynced :
    (s : Favorites) (cs : List FavoriteCall) → IsSynced s → IsSynced (favorite_run s cs)
unfolding favorite_run
favorite_run-IsSynced s [] h = h
favorite_run-IsSynced s (c ∷ cs) h =
    favorite_run-IsSynced (favorite_step s c) cs (favorite_step-IsSynced s c h)

-- Which hashes are favorites after a call: the added one besides the old, the old without the
-- removed one, and the loaded ones.
abbrev favorite_after : Favorites → FavoriteCall → Text → Bool
favorite_after s (adds r) a = (r.info_hash == a) || is_favorite s a
favorite_after s (removes b) a = if b == a then false else is_favorite s a
favorite_after s (loads favs) a = has_hash a favs

-- After a call the favorites are: the added hash besides the old ones, the old ones without the
-- removed hash, or the loaded ones.
pub is_favorite-step :
    (s : Favorites) (c : FavoriteCall) (a : Text)
    → is_favorite (favorite_step s c) a ≡ favorite_after s c a
unfolding is_favorite favorite_step add_to_favorites remove_from_favorites load_favorites
is_favorite-step s (adds r) a =
    ground (arith, elem-insert_hash r.info_hash a s.favorite_hashes, text_beq_iff r.info_hash a)
is_favorite-step s (removes b) a = elem-erase_hash b a s.favorite_hashes
is_favorite-step s (loads favs) a = ground (arith, elem-hashes_of a favs [])

keep_all :
    (p : TorrentSearchResult → Bool) (xs : List TorrentSearchResult)
    → length (keep p xs) ≡ length xs
    → keep p xs ≡ xs
keep_all p [] e = refl
keep_all p (x ∷ xs) e = ground (arith, keep_all p xs, length-keep_le p xs)

bump-ne : (r : ℕ) → r < 2 ^ 64 → bump r ≢ r
bump-ne r h = omega arith

-- A call that leaves the revision (a number of 64 bits) as it was leaves the favorites as they were.
pub favorites_revision-step :
    (s : Favorites) (c : FavoriteCall)
    → s.favorites_revision < 2 ^ 64
    → (favorite_step s c).favorites_revision ≡ s.favorites_revision
    → (favorite_step s c).favorites ≡ s.favorites
unfolding favorite_step add_to_favorites remove_from_favorites load_favorites
favorites_revision-step s (adds r) h e = ground (arith, bump-ne s.favorites_revision h)
favorites_revision-step s (removes a) h e =
    ground (
      arith,
      bump-ne s.favorites_revision h,
      keep_all (λ fav. not (fav.info_hash == a)) s.favorites,
    )
favorites_revision-step s (loads favs) h e = absurd (bump-ne s.favorites_revision h e)
