-- ===== src/Store/Schema/Calls.antt =====
-- The repositories as one component: any sequence of calls of its methods, under any behaviour of
-- the driver, keeps the schema.
use manga_hub.Prelude.{String, List, [], ◌∷◌, Option-cases, inl, inr, find}
use manga_hub.Exec.Keeps.{Keeps, Keeps-bind}
use manga_hub.Models.{
  Time, Manga, LibraryEntry, ProgressHistoryEntry, Review, ChatMessage, PrivateMessage,
}
use manga_hub.Store.Tables.{Tables, Store, find_manga}
use manga_hub.Store.Users.{create_user, update_user_password}
use manga_hub.Store.Library.{upsert_library_entry, delete_library_entry}
use manga_hub.Store.History.{insert_progress_history}
use manga_hub.Store.Reviews.{
  get_review, upsert_review, increment_review_helpful, increment_helpful, is_review,
}
use manga_hub.Store.Catalog.{
  get_manga_by_id, insert_manga, create_manga, update_manga_by_id, delete_manga_by_id,
}
use manga_hub.Store.Chats.{insert_chat_message, send_private_message}
use manga_hub.Store.Schema.{IsValid}
use manga_hub.Store.Schema.Rules.{
  insert_history-IsValid, insert_review-IsValid, add_helpful-IsValid,
}
use manga_hub.Store.Schema.Cascades.{
  set_manga-IsValid, delete_manga_rows-IsValid, replace_manga-IsValid, insert_chat_row-IsValid,
  insert_private_row-IsValid,
}
use manga_hub.Store.Schema.Keeps.{
  StoreValid, Keeps-statement, if-IsValid, create_user-Keeps, update_user_password-Keeps,
  upsert_library_entry-Keeps, delete_library_entry-Keeps,
}

get_manga_by_id-Keeps : (id : String) → Keeps StoreValid (get_manga_by_id id)
unfolding get_manga_by_id
get_manga_by_id-Keeps id = Keeps-statement _ _ λ now t v.
    elim (Option-cases (find_manga id t.manga)) [
      | inl missing ↦ rw missing v
      | inr (m, found) ↦ rw found v
    ]

create_manga-Keeps : (m : Manga) → Keeps StoreValid (create_manga m)
unfolding create_manga
create_manga-Keeps m =
    Keeps-bind _ _ (Keeps-statement _ _ (λ now t v. replace_manga-IsValid m t v))
      (λ _. get_manga_by_id-Keeps m.id)

update_manga_by_id-Keeps : (id : String) (m : Manga) → Keeps StoreValid (update_manga_by_id id m)
unfolding update_manga_by_id
update_manga_by_id-Keeps id m =
    Keeps-bind _ _
      (Keeps-statement _ _ (λ now t v. if-IsValid _ _ _ (set_manga-IsValid id m t v) v))
      (λ _. get_manga_by_id-Keeps id)

get_review-Keeps : (u m : String) → Keeps StoreValid (get_review u m)
unfolding get_review
get_review-Keeps u m = Keeps-statement _ _ λ now t v.
    elim (Option-cases (find (is_review u m) t.reviews)) [
      | inl missing ↦ rw missing v
      | inr (r, found) ↦ rw found v
    ]

upsert_review-Keeps : (r : Review) → Keeps StoreValid (upsert_review r)
unfolding upsert_review
upsert_review-Keeps r =
    Keeps-bind _ _ (Keeps-statement _ _ (insert_review-IsValid r))
      (λ _. get_review-Keeps r.user_id r.manga_id)

increment_helpful-IsValid :
    (u m : String) (now : Time) (t : Tables) → IsValid t → IsValid (increment_helpful u m now t).1
unfolding increment_helpful
increment_helpful-IsValid u m now t v = if-IsValid _ _ _ (add_helpful-IsValid u m t v) v

increment_review_helpful-Keeps : (u m : String) → Keeps StoreValid (increment_review_helpful u m)
unfolding increment_review_helpful
increment_review_helpful-Keeps u m =
    Keeps-bind _ _ (Keeps-statement _ _ (λ now t v. increment_helpful-IsValid u m now t v))
      (λ _. get_review-Keeps u m)

insert_manga-Keeps : (m : Manga) → Keeps StoreValid (insert_manga m)
unfolding insert_manga
insert_manga-Keeps m = Keeps-statement _ _ (λ now t w. replace_manga-IsValid m t w)

delete_manga_by_id-Keeps : (id : String) → Keeps StoreValid (delete_manga_by_id id)
unfolding delete_manga_by_id
delete_manga_by_id-Keeps id =
    Keeps-statement _ _ (λ now t w. if-IsValid _ _ _ (delete_manga_rows-IsValid id t w) w)

insert_progress_history-Keeps :
    (e : ProgressHistoryEntry) → Keeps StoreValid (insert_progress_history e)
unfolding insert_progress_history
insert_progress_history-Keeps e = Keeps-statement _ _ (insert_history-IsValid e)

insert_chat_message-Keeps :
    (nanos : String) (msg : ChatMessage) (room : String)
    → Keeps StoreValid (insert_chat_message nanos msg room)
unfolding insert_chat_message
insert_chat_message-Keeps nanos msg room = Keeps-statement _ _ (insert_chat_row-IsValid _ msg room)

send_private_message-Keeps :
    (nanos : String) (pm : PrivateMessage) → Keeps StoreValid (send_private_message nanos pm)
unfolding send_private_message
send_private_message-Keeps nanos pm = Keeps-statement _ _ (insert_private_row-IsValid _ pm)

-- a call of a method that writes; the methods that only read leave the tables as they are
pub data Call : Type 0 where
  creates_user : (id name email hash : String) → Call
  updates_password : (id hash : String) → Call
  inserts_manga creates_manga : Manga → Call
  updates_manga : String → Manga → Call
  deletes_manga : String → Call
  upserts_entry : String → LibraryEntry → Call
  deletes_entry : (user_id manga_id : String) → Call
  inserts_history : ProgressHistoryEntry → Call
  upserts_review : Review → Call
  increments_helpful : (user_id manga_id : String) → Call
  inserts_message : String → ChatMessage → String → Call
  sends_message : String → PrivateMessage → Call

-- the store that a call leaves, with its result dropped
unfoldable pub call : Call → Store → Store
call (creates_user id name email hash) s = (create_user id name email hash s).1
call (updates_password id hash) s = (update_user_password id hash s).1
call (inserts_manga m) s = (insert_manga m s).1
call (creates_manga m) s = (create_manga m s).1
call (updates_manga id m) s = (update_manga_by_id id m s).1
call (deletes_manga id) s = (delete_manga_by_id id s).1
call (upserts_entry id entry) s = (upsert_library_entry id entry s).1
call (deletes_entry u m) s = (delete_library_entry u m s).1
call (inserts_history e) s = (insert_progress_history e s).1
call (upserts_review r) s = (upsert_review r s).1
call (increments_helpful u m) s = (increment_review_helpful u m s).1
call (inserts_message nanos msg room) s = (insert_chat_message nanos msg room s).1
call (sends_message nanos pm) s = (send_private_message nanos pm s).1

unfoldable pub run : List Call → Store → Store
run [] s = s
run (c ∷ cs) s = run cs (call c s)

call-IsValid : (c : Call) (s : Store) → StoreValid s → StoreValid (call c s)
unfolding call
call-IsValid (creates_user id name email hash) s v =
    (create_user-Keeps id name email hash).after s v
call-IsValid (updates_password id hash) s v = (update_user_password-Keeps id hash).after s v
call-IsValid (inserts_manga m) s v = (insert_manga-Keeps m).after s v
call-IsValid (creates_manga m) s v = (create_manga-Keeps m).after s v
call-IsValid (updates_manga id m) s v = (update_manga_by_id-Keeps id m).after s v
call-IsValid (deletes_manga id) s v = (delete_manga_by_id-Keeps id).after s v
call-IsValid (upserts_entry id entry) s v = (upsert_library_entry-Keeps id entry).after s v
call-IsValid (deletes_entry u m) s v = (delete_library_entry-Keeps u m).after s v
call-IsValid (inserts_history e) s v = (insert_progress_history-Keeps e).after s v
call-IsValid (upserts_review r) s v = (upsert_review-Keeps r).after s v
call-IsValid (increments_helpful u m) s v = (increment_review_helpful-Keeps u m).after s v
call-IsValid (inserts_message nanos msg room) s v =
    (insert_chat_message-Keeps nanos msg room).after s v
call-IsValid (sends_message nanos pm) s v = (send_private_message-Keeps nanos pm).after s v

-- From tables that satisfy the schema's keys and references, any sequence of repository calls,
-- failing or not, under any behaviour of the driver, leaves tables that satisfy them.
pub run-IsValid : (cs : List Call) (s : Store) → IsValid s.tables → IsValid (run cs s).tables
unfolding run
run-IsValid [] s v = v
run-IsValid (c ∷ cs) s v = run-IsValid cs (call c s) (call-IsValid c s v)
