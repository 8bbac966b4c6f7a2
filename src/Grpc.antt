-- ===== src/Grpc.antt =====
-- internal/grpc/service.go. The messages of the generated code are records of the fields that the
-- handlers read and set; an `int32` is the integer that it stands for. `format` is
-- Format("2006-01-02T15:04:05Z").
pub mod Laws
use manga_hub.Prelude.{
  ℕ, suc, ◌+◌, ◌-◌, ◌%◌, ltb, ℤ, pos, negsuc, le_ℤ, String, List, [], ◌∷◌, map, Bool, ◌==◌, ◌&&◌,
  ◌||◌, if◌then◌else◌, Result, ok, err, Error, Unicode, trim_space,
}
use manga_hub.Models.{
  User, Manga, LibraryEntry, ProgressUpdateResult, UpdateProgressRequest, MangaQuery, Time,
}
use manga_hub.Store.Listing.{Sqlite}
use manga_hub.Cache.{Redis, Service}
use manga_hub.Http.Requests.{error_text}
use manga_hub.MangaService
use manga_hub.User

pub data Code : Type 0 where
  invalid_argument not_found internal : Code

-- a message, or a status
pub data Reply (A : Type 0) : Type 0 where
  message : A → Reply A
  status : Code → String → Reply A

-- the low 32 bits, as a signed number
abbrev pub signed32 : ℕ → ℤ
signed32 n = if ltb n 2147483648 then pos n else negsuc (4294967295 - n)

-- int32(n)
unfoldable pub int32 : ℤ → ℤ
int32 (pos n) = signed32 (n % 4294967296)
int32 (negsuc n) = signed32 (4294967295 - n % 4294967296)

pub record PbManga : Type 0 where
  pub id : String
  pub title : String
  pub author : String
  pub genres : List String
  pub status : String
  pub total_chapters : ℤ
  pub description : String
  pub cover_url : String

pub record PbLibraryEntry : Type 0 where
  pub user_id : String
  pub manga_id : String
  pub title : String
  pub current_chapter : ℤ
  pub current_volume : ℤ
  pub status : String
  pub rating : ℤ
  pub notes : String

pub record PbProgressResult : Type 0 where
  pub entry : PbLibraryEntry
  pub previous_chapter : ℤ
  pub previous_volume : ℤ
  pub total_chapters : ℤ
  pub manga_title : String

pub record PbUser : Type 0 where
  pub id : String
  pub username : String
  pub email : String
  pub created_at : String

pub record ProgressRequest : Type 0 where
  pub user_id : String
  pub manga_id : String
  pub chapter : ℤ
  pub volume : ℤ
  pub notes : String
  pub force : Bool

unfoldable pub map_manga : Manga → PbManga
unfolding int32
map_manga m = record {
  id = m.id;
  title = m.title;
  author = m.author;
  genres = m.genres;
  status = m.status;
  total_chapters = int32 m.total_chapters;
  description = m.description;
  cover_url = m.cover_url;
}

unfoldable pub map_library_entry : LibraryEntry → PbLibraryEntry
unfolding int32
map_library_entry e = record {
  user_id = e.user_id;
  manga_id = e.manga_id;
  title = e.title;
  current_chapter = int32 e.current_chapter;
  current_volume = int32 e.current_volume;
  status = e.status;
  rating = int32 e.rating;
  notes = e.notes;
}

unfoldable pub map_progress_result : ProgressUpdateResult → PbProgressResult
unfolding map_library_entry int32
map_progress_result result = record {
  entry = map_library_entry result.entry;
  previous_chapter = int32 result.previous_chapter;
  previous_volume = int32 result.previous_volume;
  total_chapters = int32 result.total_chapters;
  manga_title = result.manga_title;
}

unfoldable pub map_user : (Time → String) → User → PbUser
map_user format u = record {
  id = u.id;
  username = u.username;
  email = u.email;
  created_at = format u.created_at;
}

-- the request that the user service gets; its `status` is empty
unfoldable pub progress_request : ProgressRequest → UpdateProgressRequest
progress_request req = record {
  manga_id = trim_space req.manga_id;
  current_chapter = req.chapter;
  current_volume = req.volume;
  status = "";
  notes = req.notes;
  force = req.force;
}

unfoldable pub search_query : String → ℤ → MangaQuery
search_query query limit = record {
  query = query;
  filters = record {
    genres = [];
    status = "";
    year_range = (pos 0, pos 0);
    rating = pos 0;
    sort_by = "";
  };
  limit = if le_ℤ limit (pos 0) then pos 20 else limit;
  page = pos 0;
}

abbrev pub respond : {A B S : Type 0} → (A → B) → (Error → Reply B) → Result A × S → Reply B × S
respond shown failed (ok a, s) = (message (shown a), s)
respond shown failed (err e, s) = (failed e, s)

module _ (quote : String → String) ⦃u : Unicode⦄ (r : Redis) where
  unfoldable pub get_manga : String → Service r → Reply PbManga × Service r
  unfolding map_manga
  get_manga id s =
      if trim_space id == ""
      then (status invalid_argument "id is required", s)
      else respond map_manga (λ e. status not_found "manga not found")
          (MangaService.get_by_id r (trim_space id) s)

  unfoldable pub search_manga :
      Sqlite → (String → String) → String → ℤ → Service r → Reply (List PbManga) × Service r
  unfolding map_manga search_query
  search_manga sql digest query limit s =
      if trim_space query == ""
      then (status invalid_argument "query is required", s)
      else respond (map map_manga) (λ e. status internal "search failed")
          (MangaService.list r sql digest (search_query (trim_space query) limit) s)

  unfoldable pub update_progress : ProgressRequest → Service r → Reply PbProgressResult × Service r
  unfolding map_progress_result progress_request error_text
  update_progress req s =
      if trim_space req.user_id == "" || (trim_space req.manga_id == "" || le_ℤ req.chapter (pos 0))
      then (status invalid_argument "user_id, manga_id, and chapter are required", s)
      else respond map_progress_result (λ e. status invalid_argument (error_text quote e))
          (User.update_progress r (trim_space req.user_id) (progress_request req) s)

  abbrev looked_up : String → String → Service r → Result User × Service r
  looked_up user_id username s =
      if user_id == ""
      then User.get_user_by_username r username s
      else User.get_user_by_id r user_id s

  unfoldable pub get_user : (Time → String) → String → String → Service r → Reply PbUser × Service r
  unfolding map_user
  get_user format user_id username s =
      if trim_space user_id == "" && trim_space username == ""
      then (status invalid_argument "user_id or username is required", s)
      else respond (map_user format) (λ e. status not_found "user not found")
          (looked_up (trim_space user_id) (trim_space username) s)

  unfoldable pub get_library : String → Service r → Reply (List PbLibraryEntry) × Service r
  unfolding map_library_entry
  get_library user_id s =
      if trim_space user_id == ""
      then (status invalid_argument "user_id is required", s)
      else respond (map map_library_entry) (λ e. status internal "library lookup failed")
          (User.get_library r (trim_space user_id) s)
