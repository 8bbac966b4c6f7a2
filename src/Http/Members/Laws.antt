-- ===== src/Http/Members/Laws.antt =====
-- What the handlers on a library and its progress answer.
use manga_hub.Prelude.{
  String, true, false, ◌==◌, ◌≡◌, refl, ◌⊎◌, inl, inr, if◌then◌else◌, none, some, any, Result, ok,
  err, Error, Unicode, Bool-cases, trim_space, contains, to_lower,
}
use manga_hub.Models.{
  ProgressUpdate, ProgressUpdateResult, LibraryEntry, UpdateProgressRequest, Time,
}
use manga_hub.Store.Schema.{IsValid}
use manga_hub.User.Progress.{Updated, update_progress_sound}
use manga_hub.Store.Tables.{statement}
use manga_hub.Store.Library.{is_key, delete_library_entry}
use manga_hub.Cache.{Redis, Service, in_store}
use manga_hub.User
use manga_hub.Http.Requests.{
  Request, reply, refuse, progress_body, message_body, ProgressReply, current_user_id, error_text,
  mentions, is_not_found, absent_status,
}
use manga_hub.Http.Members.{progress_reply, progress_update, update_progress, remove_from_library}

-- the answer to a change, and what is published
abbrev pub shown : ProgressUpdateResult → ProgressReply
shown result = record {
  manga_id = result.entry.manga_id;
  title = result.manga_title;
  previous_chapter = result.previous_chapter;
  current_chapter = result.entry.current_chapter;
  previous_volume = result.previous_volume;
  current_volume = result.entry.current_volume;
  updated_at = result.entry.updated_at;
  total_chapters = result.total_chapters;
  notes = result.entry.notes;
  status = result.entry.status;
}

abbrev pub announced : Time → String → LibraryEntry → ProgressUpdate
announced now user_id entry = record {
  user_id = user_id;
  manga_id = entry.manga_id;
  chapter = entry.current_chapter;
  timestamp = now;
}

module _ (quote : String → String) ⦃u : Unicode⦄ (r : Redis) where
  -- In valid tables, and with a broadcaster: where UpdateProgress succeeds for the request's user, it
  -- has changed the tables as `Updated` describes, and the answer is 200 with the entry that they
  -- then hold, whose manga and chapter are published for that user; where it fails, the answer is 400
  -- with its error, and nothing is published. The handler leaves the state that UpdateProgress left.
  pub update_progress-published :
      (now : Time) (c : Request) (req : UpdateProgressRequest) (s : Service r)
      → IsValid s.store.tables
      → ((result : ProgressUpdateResult) × (s' : Service r) × (User.update_progress r
              (current_user_id c)
              req
              s
            ≡ (ok result, s'))
          × Updated (current_user_id c) req s.store.tables s'.store.tables result
          × (update_progress quote r true now c (ok req) s ≡ (
            reply 200 (progress_body (shown result)),
            some (announced now (current_user_id c) result.entry),
            s',
          )))
        ⊎ ((e : Error) × (s' : Service r) × (User.update_progress r (current_user_id c) req s
              ≡ (err e, s'))
            × (update_progress quote r true now c (ok req) s
                ≡ (refuse 400 (error_text quote e), none, s')))
  unfolding update_progress progress_reply progress_update
  update_progress-published now c req s valid =
      outcome (User.update_progress r (current_user_id c) req s) refl
    where
      outcome :
          (x : Result ProgressUpdateResult × Service r)
          → User.update_progress r (current_user_id c) req s ≡ x
          → ((result : ProgressUpdateResult) × (s' : Service r) × (User.update_progress r
                  (current_user_id c)
                  req
                  s
                ≡ (ok result, s'))
              × Updated (current_user_id c) req s.store.tables s'.store.tables result
              × (update_progress quote r true now c (ok req) s ≡ (
                reply 200 (progress_body (shown result)),
                some (announced now (current_user_id c) result.entry),
                s',
              )))
            ⊎ ((e : Error) × (s' : Service r) × (User.update_progress r (current_user_id c) req s
                  ≡ (err e, s'))
                × (update_progress quote r true now c (ok req) s
                    ≡ (refuse 400 (error_text quote e), none, s')))
      outcome (ok result, s') done = inl (
        result,
        s',
        done,
        update_progress_sound r (current_user_id c) req s s' result valid done,
        rw (done, update_progress) refl,
      )
      outcome (err e, s') failed = inr (e, s', failed, rw (failed, update_progress) refl)

  -- Where the database answers, taking a manga out of the library is answered 200 if the library had
  -- it and 404 otherwise.
  pub remove_from_library-status :
      (c : Request) (s : Service r)
      → (trim_space (c.param "id") == "") ≡ false
      → (s.store.driver 0).fails ≡ false
      → (remove_from_library quote r c s).0 ≡ (
          if any (is_key (current_user_id c) (c.param "id")) s.store.tables.user_progress
          then reply 200 (message_body "removed")
          else refuse 404 "library entry not found")
  unfolding remove_from_library User.remove_from_library in_store delete_library_entry statement
      absent_status is_not_found mentions error_text contains to_lower
  remove_from_library-status c s given answers =
      elim (Bool-cases
        (any (is_key (current_user_id c) (c.param "id")) s.store.tables.user_progress)) [
          | inl held ↦ rw (given, answers, held) refl
          | inr missing ↦ rw (given, answers, missing) refl
        ]
