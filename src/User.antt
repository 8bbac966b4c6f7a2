-- ===== src/User.antt =====
-- internal/user: service.go and cache.go.
pub mod Guards
pub mod Progress
pub mod Forward
pub mod Overlap
use Prim.Native.String.{◌++◌ as str_append}
use manga_hub.Prelude.{
  ℤ, pos, lt_ℤ, String, List, [], ◌∷◌, Bool, not, ◌==◌, ◌&&◌, if◌then◌else◌, Option, none, some,
  Result, ok, err, Error, new, join, not_in_library, chapter_exceeds, chapter_behind, volume_behind,
  itoa, trim_space, to_lower, Unicode,
}
use manga_hub.Models.{
  User, Manga, LibraryEntry, blank_entry, zero_time, AddLibraryRequest, UpdateProgressRequest,
  UpdateLibraryRequest, ProgressHistoryEntry, ProgressUpdateResult,
}
use manga_hub.Exec.{Exec, pure, raise, lift, caught, or_raise, continue, ◌>>=◌, ◌>>◌}
use manga_hub.Store.Catalog.{get_manga_by_id}
use manga_hub.Store.Users
use manga_hub.Store.Library.{upsert_library_entry, delete_library_entry, find_entry}
use manga_hub.Store.Library
use manga_hub.Store.History
use manga_hub.Store.History.{insert_progress_history}
use manga_hub.Cache.{
  Redis, Service, Payload, a_user, library, history, in_store, invalidate, version, read_through,
}

abbrev pub version_key : String
version_key = "cache:v1:user:version"

-- the constants of cache.go, which are passed as a `time.Duration`: nanoseconds
abbrev pub user_cache_ttl : ℤ
user_cache_ttl = pos 300

abbrev pub user_lookup_cache_ttl : ℤ
user_lookup_cache_ttl = pos 300

abbrev pub user_library_cache_ttl : ℤ
user_library_cache_ttl = pos 120

abbrev pub user_history_cache_ttl : ℤ
user_history_cache_ttl = pos 120

abbrev read_user : Payload → Option User
read_user (a_user u) = some u
read_user _ = none

abbrev read_library : Payload → Option (List LibraryEntry)
read_library (library items) = some items
read_library _ = none

abbrev read_history : Payload → Option (List ProgressHistoryEntry)
read_history (history items) = some items
read_history _ = none

-- the three guards of `UpdateProgress` on the chapter and the volume, in its order
unfoldable pub check_total : Manga → UpdateProgressRequest → Result (Unit {0})
check_total manga req =
    if lt_ℤ (pos 0) manga.total_chapters && lt_ℤ manga.total_chapters req.current_chapter
    then err (chapter_exceeds req.current_chapter manga.total_chapters)
    else ok tt

unfoldable pub check_behind : LibraryEntry → UpdateProgressRequest → Result (Unit {0})
check_behind entry req =
    if lt_ℤ req.current_chapter entry.current_chapter && not req.force
    then err (chapter_behind req.current_chapter entry.current_chapter)
    else ok tt

unfoldable pub new_volume : LibraryEntry → UpdateProgressRequest → Result ℤ
new_volume entry req =
    if lt_ℤ (pos 0) req.current_volume
    then (if lt_ℤ req.current_volume entry.current_volume && not req.force
        then err (volume_behind req.current_volume entry.current_volume)
        else ok req.current_volume)
    else ok entry.current_volume

abbrev pub new_notes : LibraryEntry → UpdateProgressRequest → String
new_notes entry req = if req.notes == "" then entry.notes else req.notes

abbrev pub new_status : UpdateProgressRequest → String
new_status req = if req.status == "" then "reading" else req.status

-- the entry that `UpdateProgress` writes; the other fields keep their zero values
unfoldable pub progressed : LibraryEntry → UpdateProgressRequest → ℤ → LibraryEntry
progressed entry req volume = record blank_entry {
  manga_id = req.manga_id;
  current_chapter = req.current_chapter;
  current_volume = volume;
  status = new_status req;
  notes = new_notes entry req;
}

abbrev pub progress_record :
    String → LibraryEntry → UpdateProgressRequest → ℤ → ProgressHistoryEntry
progress_record user_id entry req volume = record {
  id = pos 0;
  user_id = user_id;
  manga_id = req.manga_id;
  previous_chapter = entry.current_chapter;
  current_chapter = req.current_chapter;
  previous_volume = entry.current_volume;
  current_volume = volume;
  notes = req.notes;
  created_at = zero_time;
}

unfoldable pub added : AddLibraryRequest → LibraryEntry
added req = record blank_entry {
  manga_id = req.manga_id;
  current_chapter = req.current_chapter;
  current_volume = req.current_volume;
  status = req.status;
  rating = req.rating;
  notes = req.notes;
}

-- `if req.Status != ""` and `if req.Rating > 0`
unfoldable pub relabelled : LibraryEntry → UpdateLibraryRequest → LibraryEntry
relabelled entry req = record entry {
  status = if req.status == "" then entry.status else req.status;
  rating = if lt_ℤ (pos 0) req.rating then req.rating else entry.rating;
}

module _ (r : Redis) where
  unfoldable pub add_to_library : String → AddLibraryRequest → Exec (Service r) LibraryEntry
  unfolding added
  add_to_library user_id req = do
    in_store r (get_manga_by_id req.manga_id)
    in_store r (upsert_library_entry user_id (added req))

  -- the two reads of `UpdateProgress`, each with an error of its own
  unfoldable pub require_manga : String → Exec (Service r) Manga
  require_manga manga_id = or_raise (in_store r (get_manga_by_id manga_id)) (new "manga not found")

  unfoldable pub require_entry : String → String → Exec (Service r) LibraryEntry
  require_entry user_id manga_id =
      or_raise (in_store r (Library.get_library_entry user_id manga_id)) (not_in_library manga_id)

  -- everything after the guards of `UpdateProgress`
  unfoldable pub save_progress :
      String
      → UpdateProgressRequest
      → Manga
      → LibraryEntry
      → ℤ
      → Exec (Service r) ProgressUpdateResult
  save_progress user_id req manga entry volume = do
    updated ← in_store r (upsert_library_entry user_id (progressed entry req volume))
    caught (invalidate r version_key)
    caught (in_store r (insert_progress_history (progress_record user_id entry req volume)))
    pure (record {
      entry = updated;
      previous_chapter = entry.current_chapter;
      previous_volume = entry.current_volume;
      total_chapters = manga.total_chapters;
      manga_title = manga.title;
    })

  unfoldable pub update_progress :
      String → UpdateProgressRequest → Exec (Service r) ProgressUpdateResult
  update_progress user_id req = do
    manga ← require_manga req.manga_id
    entry ← require_entry user_id req.manga_id
    lift (check_total manga req)
    lift (check_behind entry req)
    volume ← lift (new_volume entry req)
    save_progress user_id req manga entry volume

  unfoldable pub remove_from_library : String → String → Exec (Service r) (Unit {0})
  remove_from_library user_id manga_id = do
    in_store r (delete_library_entry user_id manga_id)
    caught (invalidate r version_key)
    pure tt

  abbrev pub relabel :
      String → UpdateLibraryRequest → Option LibraryEntry → Exec (Service r) LibraryEntry
  relabel user_id req none = raise (new "library entry not found")
  relabel user_id req (some entry) = do
    updated ← in_store r (upsert_library_entry user_id (relabelled entry req))
    caught (invalidate r version_key)
    pure updated

  -- the loop takes the first entry of the manga
  unfoldable pub update_library :
      String → String → UpdateLibraryRequest → Exec (Service r) LibraryEntry
  update_library user_id manga_id req = do
    items ← in_store r (Library.get_user_library user_id)
    relabel user_id req (find_entry manga_id items)

  unfoldable pub get_library_entry : String → String → Exec (Service r) LibraryEntry
  get_library_entry user_id manga_id = in_store r (Library.get_library_entry user_id manga_id)

  -- fmt.Sprintf("%s:KIND:v%d:%s", …)
  unfoldable pub versioned_key : String → List String → Exec (Service r) String
  versioned_key kind parts = do
    v ← version r version_key
    pure (join ("cache:v1:user:" ∷ kind ∷ ":v" ∷ itoa v ∷ parts))

  unfoldable pub user_key : String → Exec (Service r) String
  unfolding versioned_key
  user_key user_id = versioned_key "detail" (":" ∷ trim_space user_id ∷ [])

  unfoldable pub username_key : ⦃u : Unicode⦄ → String → String
  username_key name = str_append "cache:v1:user:username:" (to_lower (trim_space name))

  unfoldable pub library_key : String → Exec (Service r) String
  unfolding versioned_key
  library_key user_id = versioned_key "library" (":" ∷ trim_space user_id ∷ [])

  unfoldable pub history_key : String → String → Exec (Service r) String
  unfolding versioned_key
  history_key user_id manga_id =
      versioned_key "history" (":" ∷ trim_space user_id ∷ ":" ∷ trim_space manga_id ∷ [])

  unfoldable pub get_library : String → Exec (Service r) (List LibraryEntry)
  unfolding library_key
  get_library user_id =
      read_through r read_library library user_library_cache_ttl (library_key user_id)
        (in_store r (Library.get_user_library user_id))

  unfoldable pub get_progress_history :
      String → String → Exec (Service r) (List ProgressHistoryEntry)
  unfolding history_key
  get_progress_history user_id manga_id =
      read_through r read_history history user_history_cache_ttl (history_key user_id manga_id)
        (in_store r (History.get_progress_history user_id manga_id))

  unfoldable pub get_user_by_id : String → Exec (Service r) User
  unfolding user_key
  get_user_by_id user_id =
      read_through r read_user a_user user_cache_ttl (user_key user_id)
        (in_store r (Users.get_user_by_id user_id))

  unfoldable pub get_user_by_username : ⦃u : Unicode⦄ → String → Exec (Service r) User
  unfolding username_key
  get_user_by_username name =
      read_through r read_user a_user user_lookup_cache_ttl (pure (username_key name))
        (in_store r (Users.get_user_by_username name))
