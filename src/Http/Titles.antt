-- ===== src/Http/Titles.antt =====
-- The handlers of manga_handler.go. `digest` is the hexadecimal SHA-1 of a text, `quote` the verb %q;
-- `hundredths` is strconv.ParseFloat, in hundredths, with 0 where it fails.
pub mod Laws
use manga_hub.Prelude.{
  ℤ, pos, String, List, [], ◌∷◌, ◌++◌, ◌==◌, if◌then◌else◌, Option, none, some, Result, ok, err,
  Error, Unicode, trim_space, atoi, split_comma,
}
use manga_hub.Models.{Manga, MangaQuery, CreateMangaRequest, UpdateMangaRequest}
use manga_hub.Store.Listing.{Sqlite}
use manga_hub.Cache.{Redis, Service}
use manga_hub.MangaService
use manga_hub.Http.Requests.{
  Request, Response, Body, error_body, message_body, manga_body, manga_items_body, reply, refuse,
  answer, error_text, mentions, missing_or,
}
use manga_hub.Http.Limits.{or_empty}

abbrev pub or_default : String → Option String → String
or_default fallback none = fallback
or_default fallback (some s) = s

-- the genres that are not blank, trimmed
unfoldable pub named_genres : List String → List String
named_genres [] = []
named_genres (genre ∷ genres) =
    let rest = named_genres genres in
    if trim_space genre == "" then rest else trim_space genre ∷ rest

-- `genres` split at the commas, and `genre`
unfoldable pub query_genres : Request → List String
unfolding named_genres split_comma
query_genres c =
    let several = trim_space (or_empty (c.query "genres")) in
    let one = trim_space (or_empty (c.query "genre")) in
    (if several == "" then [] else named_genres (split_comma several))
    ++ (if one == "" then [] else one ∷ [])

unfoldable pub manga_query : (String → ℤ) → Request → MangaQuery
unfolding query_genres atoi
manga_query hundredths c = record {
  query = or_empty (c.query "q");
  filters = record {
    genres = query_genres c;
    status = or_empty (c.query "status");
    year_range = (
      (atoi (or_default "0" (c.query "year_min"))).0,
      (atoi (or_default "0" (c.query "year_max"))).0,
    );
    rating = hundredths (or_default "0" (c.query "rating_min"));
    sort_by = or_empty (c.query "sort");
  };
  limit = (atoi (or_default "20" (c.query "limit"))).0;
  page = (atoi (or_default "1" (c.query "page"))).0;
}

module _ (quote : String → String) ⦃u : Unicode⦄ (r : Redis) where
  abbrev listed : Result (List Manga) → Response
  listed (ok items) = reply 200 (manga_items_body items)
  listed (err e) = refuse 500 "failed to fetch manga"

  unfoldable pub list_manga :
      (String → ℤ) → Sqlite → (String → String) → Request → Service r → Response × Service r
  unfolding manga_query
  list_manga hundredths sql digest c s =
      answer (MangaService.list r sql digest (manga_query hundredths c)) listed s

  abbrev shown : Result Manga → Response
  shown (ok item) = reply 200 (manga_body item)
  shown (err e) = missing_or quote "manga not found" "failed to fetch manga" e

  unfoldable pub get_manga : Request → Service r → Response × Service r
  unfolding missing_or
  get_manga c s = answer (MangaService.get_by_id r (c.param "id")) shown s

  abbrev created : Result Manga → Response
  created (ok item) = reply 201 (manga_body item)
  created (err e) =
      if mentions quote "unique" e
      then refuse 409 "manga id already exists"
      else refuse 500 "failed to create manga"

  unfoldable pub create_manga : Result CreateMangaRequest → Service r → Response × Service r
  unfolding mentions error_text
  create_manga (err e) s = (refuse 400 (error_text quote e), s)
  create_manga (ok req) s = answer (MangaService.create r req) created s

  abbrev changed : Result Manga → Response
  changed (ok item) = reply 200 (manga_body item)
  changed (err e) = missing_or quote "manga not found" "failed to update manga" e

  unfoldable pub update_manga :
      Request → Result UpdateMangaRequest → Service r → Response × Service r
  unfolding missing_or error_text
  update_manga c (err e) s = (refuse 400 (error_text quote e), s)
  update_manga c (ok req) s = answer (MangaService.update r (c.param "id") req) changed s

  abbrev deleted : Result (Unit {0}) → Response
  deleted (ok _) = reply 200 (message_body "manga deleted")
  deleted (err e) = missing_or quote "manga not found" "failed to delete manga" e

  unfoldable pub delete_manga : Request → Service r → Response × Service r
  unfolding missing_or
  delete_manga c s = answer (MangaService.delete r (c.param "id")) deleted s
