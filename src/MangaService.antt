-- ===== src/MangaService.antt =====
-- internal/manga: service.go and cache.go. The hexadecimal SHA-1 of a text is the parameter
-- `digest`.
use manga_hub.Prelude.{
  ℤ, pos, String, List, [], ◌∷◌, Option, none, some, itoa, decimal, join, join_with, trim_space,
  Unicode,
}
use manga_hub.Models.{Manga, MangaQuery, CreateMangaRequest, UpdateMangaRequest}
use manga_hub.Exec.{Exec, pure, caught, ◌>>=◌, ◌>>◌}
use manga_hub.Store.Catalog.{get_manga_by_id, create_manga, update_manga_by_id, delete_manga_by_id}
use manga_hub.Store.Listing.{Sqlite, list_manga}
use manga_hub.Cache.{
  Redis, Service, Payload, a_manga, manga_list, in_store, invalidate, version, read_through,
}

abbrev pub version_key : String
version_key = "cache:v1:manga:version"

-- 2 * time.Minute
abbrev pub manga_cache_ttl : ℤ
manga_cache_ttl = pos 120000000000

abbrev read_manga : Payload → Option Manga
read_manga (a_manga m) = some m
read_manga _ = none

abbrev read_manga_list : Payload → Option (List Manga)
read_manga_list (manga_list items) = some items
read_manga_list _ = none

-- what the key of a listing is a digest of
unfoldable pub list_material : MangaQuery → String
list_material q = join (
    "q="
    ∷ trim_space q.query
    ∷ "|genres="
    ∷ join_with "," q.filters.genres
    ∷ "|status="
    ∷ trim_space q.filters.status
    ∷ "|year="
    ∷ itoa q.filters.year_range.0
    ∷ "-"
    ∷ itoa q.filters.year_range.1
    ∷ "|rating="
    ∷ decimal q.filters.rating
    ∷ "|sort="
    ∷ trim_space q.filters.sort_by
    ∷ "|limit="
    ∷ itoa q.limit
    ∷ [])

-- the row that `Update` writes
unfoldable pub revised : String → UpdateMangaRequest → Manga
revised manga_id req = record {
  id = manga_id;
  title = req.title;
  author = req.author;
  genres = req.genres;
  status = req.status;
  year = req.year;
  rating = req.rating;
  popularity = req.popularity;
  total_chapters = req.total_chapters;
  description = req.description;
  cover_url = req.cover_url;
}

module _ (r : Redis) where
  unfoldable pub detail_key : String → Exec (Service r) String
  detail_key manga_id = do
    v ← version r version_key
    pure (join ("cache:v1:manga:detail:v" ∷ itoa v ∷ ":" ∷ trim_space manga_id ∷ []))

  unfoldable pub list_key : (String → String) → MangaQuery → Exec (Service r) String
  unfolding list_material
  list_key digest q = do
    v ← version r version_key
    pure (join ("cache:v1:manga:list:v" ∷ itoa v ∷ ":" ∷ digest (list_material q) ∷ []))

  unfoldable pub list :
      ⦃u : Unicode⦄ → Sqlite → (String → String) → MangaQuery → Exec (Service r) (List Manga)
  unfolding list_key
  list sql digest q =
      read_through r read_manga_list manga_list manga_cache_ttl (list_key digest q)
        (in_store r (list_manga sql q))

  unfoldable pub get_by_id : String → Exec (Service r) Manga
  unfolding detail_key
  get_by_id manga_id =
      read_through r read_manga a_manga manga_cache_ttl (detail_key manga_id)
        (in_store r (get_manga_by_id manga_id))

  unfoldable pub create : CreateMangaRequest → Exec (Service r) Manga
  create req = do item ← in_store r (create_manga req); caught (invalidate r version_key); pure item

  unfoldable pub update : String → UpdateMangaRequest → Exec (Service r) Manga
  unfolding revised
  update manga_id req = do
    item ← in_store r (update_manga_by_id manga_id (revised manga_id req))
    caught (invalidate r version_key)
    pure item

  unfoldable pub delete : String → Exec (Service r) (Unit {0})
  delete manga_id = do
    in_store r (delete_manga_by_id manga_id)
    caught (invalidate r version_key)
    pure tt
