-- ===== src/Http/Members.antt =====
-- The handlers of user_handler.go on a user's profile, library and progress. `now` is
-- time.Now().Unix() where an update is published.
pub mod Laws
use manga_hub.Prelude.{
  ℕ, String, List, Bool, ◌==◌, ◌||◌, if◌then◌else◌, Option, none, some, Result, ok, err, Error,
  Unicode, trim_space,
}
use manga_hub.Models.{
  User, LibraryEntry, ProgressHistoryEntry, ProgressUpdate, ProgressUpdateResult, AddLibraryRequest,
  UpdateProgressRequest, UpdateLibraryRequest, Time,
}
use manga_hub.Cache.{Redis, Service}
use manga_hub.User
use manga_hub.Http.Requests.{
  Request, Response, Body, error_body, message_body, user_body, entry_body, library_body,
  history_body, progress_body, ProgressReply, reply, refuse, answer, current_user_id, error_text,
  missing_status, absent_status,
}
use manga_hub.Http.Limits.{or_empty}
use manga_hub.Http.Lists.{build_reading_lists}

-- what `UpdateProgress` shows of the service's result
unfoldable pub progress_reply : ProgressUpdateResult → ProgressReply
progress_reply result = record {
  manga_id = result.entry.manga_id;
  title = result.manga_title;
  previous_chapter = result.previous_chapter;
  current_chapter = result.entry.current_chapter;
  previous_volume = result.previous_volume;
  current_volume = result.entry.current_volume;
  updated_at = result.entry.updated_at;
  total_chapters = result.total_chapters;
  notes = result.entry.notes;
  status = result.entry.status;
}

-- what it publishes
unfoldable pub progress_update : Time → String → ProgressUpdateResult → ProgressUpdate
progress_update now user_id result = record {
  user_id = user_id;
  manga_id = result.entry.manga_id;
  chapter = result.entry.current_chapter;
  timestamp = now;
}

module _ (quote : String → String) ⦃u : Unicode⦄ (r : Redis) where
  abbrev me : Result User → Response
  me (ok user) = reply 200 (user_body user)
  me (err e) = refuse 404 "user not found"

  unfoldable pub get_me : Request → Service r → Response × Service r
  unfolding current_user_id
  get_me c s =
      if current_user_id c == ""
      then (refuse 401 "missing user id", s)
      else answer (User.get_user_by_id r (current_user_id c)) me s

  abbrev added : Result LibraryEntry → Response
  added (ok entry) = reply 201 (entry_body entry)
  added (err e) = refuse (missing_status quote e) (error_text quote e)

  unfoldable pub add_to_library :
      Request → Result AddLibraryRequest → Service r → Response × Service r
  unfolding missing_status error_text current_user_id
  add_to_library c (err e) s = (refuse 400 (error_text quote e), s)
  add_to_library c (ok req) s = answer (User.add_to_library r (current_user_id c) req) added s

  abbrev library : Result (List LibraryEntry) → Response
  library (ok items) = reply 200 (library_body items (build_reading_lists items))
  library (err e) = refuse 500 "failed to fetch library"

  unfoldable pub get_library : Request → Service r → Response × Service r
  unfolding build_reading_lists current_user_id
  get_library c s = answer (User.get_library r (current_user_id c)) library s

  abbrev progressed : Result ProgressUpdateResult → Response
  progressed (ok result) = reply 200 (progress_body (progress_reply result))
  progressed (err e) = refuse 400 (error_text quote e)

  abbrev published : Bool → Time → String → Result ProgressUpdateResult → Option ProgressUpdate
  published broadcaster now user_id (ok result) =
      if broadcaster then some (progress_update now user_id result) else none
  published broadcaster now user_id (err e) = none

  -- with what goes to the broadcaster, where there is one
  unfoldable pub update_progress :
      Bool
      → Time
      → Request
      → Result UpdateProgressRequest
      → Service r
      → Response × Option ProgressUpdate × Service r
  unfolding progress_reply progress_update error_text current_user_id
  update_progress broadcaster now c (err e) s = (refuse 400 (error_text quote e), none, s)
  update_progress broadcaster now c (ok req) s =
      let (result, s') = User.update_progress r (current_user_id c) req s in
      (progressed result, published broadcaster now (current_user_id c) result, s')

  abbrev history : Result (List ProgressHistoryEntry) → Response
  history (ok items) = reply 200 (history_body items)
  history (err e) = refuse 500 (error_text quote e)

  unfoldable pub get_progress_history : Request → Service r → Response × Service r
  unfolding error_text current_user_id
  get_progress_history c s =
      answer
        (User.get_progress_history r (current_user_id c)
          (trim_space (or_empty (c.query "manga_id"))))
        history s

  abbrev removed : Result (Unit {0}) → Response
  removed (ok _) = reply 200 (message_body "removed")
  removed (err e) = refuse (absent_status quote e) (error_text quote e)

  unfoldable pub remove_from_library : Request → Service r → Response × Service r
  unfolding absent_status error_text current_user_id
  remove_from_library c s =
      if trim_space (c.param "id") == ""
      then (refuse 400 "manga id required", s)
      else answer (User.remove_from_library r (current_user_id c) (c.param "id")) removed s

  abbrev relabelled : Result LibraryEntry → Response
  relabelled (ok entry) = reply 200 (entry_body entry)
  relabelled (err e) = refuse (absent_status quote e) (error_text quote e)

  abbrev pub relabel : Request → Result UpdateLibraryRequest → Service r → Response × Service r
  relabel c (err e) s = (refuse 400 (error_text quote e), s)
  relabel c (ok req) s =
      answer (User.update_library r (current_user_id c) (c.param "id") req) relabelled s

  unfoldable pub update_library :
      Request → Result UpdateLibraryRequest → Service r → Response × Service r
  unfolding absent_status error_text current_user_id
  update_library c body s =
      if trim_space (c.param "id") == ""
      then (refuse 400 "manga id required", s)
      else relabel c body s
