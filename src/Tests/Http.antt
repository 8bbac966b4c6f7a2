-- ===== src/Tests/Http.antt =====
-- The HTTP handlers' theorems at concrete inputs.
use mathlib.Core.List.{Perm}
use manga_hub.Prelude.{
  pos, String, [], ◌∷◌, true, false, ◌==◌, ◌≡◌, ◌≢◌, ℤ, refl, ◌⊎◌, inl, inr, if◌then◌else◌, keep,
  find, any, ok, Error, err, not, Result, ap, sym, lookup, ◌++◌, Option, none, some, ascii,
  trim_space, to_lower, arith,
}
use manga_hub.Models.{
  LibraryEntry, blank_entry, ProgressUpdateResult, UpdateProgressRequest, SendPmRequest,
}
use manga_hub.Store.Tables.{UserRow}
use manga_hub.Store.Library.{is_key, select_entry}
use manga_hub.Store.Reviews.{is_review}
use manga_hub.Cache.{Service}
use manga_hub.Auth.{AuthService, Claims, Clocks, parse_token, is_revoked, purge, revoke}
use manga_hub.Auth.Revocation.{run as run_events}
use manga_hub.Http.Requests.{
  error_text, Value, text, Request, reply, refuse, manga_body, message_body, progress_body,
  current_user_id,
}
use manga_hub.Http.Lists.{completed, build_reading_lists}
use manga_hub.Http.Lists.Laws.{all_lists, list_of, on_shelf, build_reading_lists-Perm}
use manga_hub.Store.Listing.{Sqlite}
use manga_hub.Hub.{new_hub}
use manga_hub.Http.Router.{Outside, Api, delete_manga, serve_protected}
use manga_hub.Http.Router.{update_progress as to_progress}
use manga_hub.Http.Router.Owners.{serve_protected-others}
use manga_hub.Http.Router.Laws.{serve_protected-tokenless}
use manga_hub.Http.Members.{update_progress, remove_from_library}
use manga_hub.Http.Members.Laws.{
  shown, announced, update_progress-published, remove_from_library-status,
}
use manga_hub.User
use manga_hub.User.Progress.{Updated}
use manga_hub.Http.Titles.{create_manga}
use manga_hub.Http.Titles.Laws.{create_manga-replaces}
use manga_hub.Http.Feedback.{mark_review_helpful}
use manga_hub.Http.Feedback.Laws.{mark_review_helpful-own, mark_review_helpful-missing}
use manga_hub.Http.Accounts.{split_space, with_claims, middleware}
use manga_hub.Http.Accounts.Laws.{middleware-admits, middleware-logged_out}
use manga_hub.Http.Rooms.{send_pm}
use manga_hub.Http.Rooms.Laws.{Honest, send_pm-Honest}
use manga_hub.Tests.{idle, service, shelf, shelf-IsValid, piece, ann, up}
use manga_hub.Tests.Auth.{
  claims, crypto, crypto-Lawful, out, clocks, meanwhile, events, early, parses_out,
}

abbrev quote : String → String
quote s = s

abbrev parse_hundredths : String → ℤ
parse_hundredths s = pos 0

-- a request of ann's, for the manga m1 and the reviewer u2
abbrev values : String → Option Value
values key = if key == "user_id" then some (text "u1") else none

abbrev param : String → String
param key = if key == "id" then "m1" else if key == "user_id" then "u2" else ""

abbrev anns : Request
anns = record { values = values; param = param; query = λ key. none; header = λ key. "Bearer t" }

anns_id : current_user_id anns ≡ "u1"
unfolding current_user_id
anns_id = refl

abbrev entry : LibraryEntry
entry = record blank_entry { manga_id = "m1"; status = "Completed" }

build_reading_lists-Perm_example :
    Perm (all_lists (build_reading_lists (entry ∷ blank_entry ∷ []))) (entry ∷ blank_entry ∷ [])
    × (list_of completed (build_reading_lists (entry ∷ blank_entry ∷ []))
        ≡ keep (on_shelf completed) (entry ∷ blank_entry ∷ []))
build_reading_lists-Perm_example = build_reading_lists-Perm (entry ∷ blank_entry ∷ []) completed

abbrev request : UpdateProgressRequest
request = record {
  manga_id = "m1";
  current_chapter = pos 12;
  current_volume = pos 0;
  status = "";
  notes = "";
  force = false;
}

update_progress-published_example :
    ((result : ProgressUpdateResult) × (s' : Service idle) × (User.update_progress idle
          (current_user_id anns)
          request
          service
        ≡ (ok result, s'))
      × Updated (current_user_id anns) request shelf s'.store.tables result
      × (update_progress quote idle true (pos 9) anns (ok request) service ≡ (
        reply 200 (progress_body (shown result)),
        some (announced (pos 9) (current_user_id anns) result.entry),
        s',
      )))
    ⊎ ((e : Error) × (s' : Service idle) × (User.update_progress idle
            (current_user_id anns)
            request
            service
          ≡ (err e, s'))
        × (update_progress quote idle true (pos 9) anns (ok request) service
            ≡ (refuse 400 (error_text quote e), none, s')))
update_progress-published_example =
    update_progress-published quote idle (pos 9) anns request service shelf-IsValid

m1_given : (trim_space (anns.param "id") == "") ≡ false
unfolding trim_space
m1_given = refl

remove_from_library-status_example : (remove_from_library quote idle anns service).0 ≡ (
    if any (is_key (current_user_id anns) "m1") shelf.user_progress
    then reply 200 (message_body "removed")
    else refuse 404 "library entry not found")
remove_from_library-status_example =
    remove_from_library-status quote idle anns service m1_given refl

create_manga-replaces_example :
    ((create_manga quote idle (ok piece) service).0 ≡ reply 201 (manga_body piece))
    × ((create_manga quote idle (ok piece) service).1.store.tables ≡ record shelf {
      manga = keep (λ x. not (x.id == piece.id)) shelf.manga ++ piece ∷ [];
      user_progress = keep (λ x. not (x.manga_id == piece.id)) shelf.user_progress;
      user_progress_history = keep (λ x. not (x.manga_id == piece.id)) shelf.user_progress_history;
      reviews = keep (λ x. not (x.manga_id == piece.id)) shelf.reviews;
    })
create_manga-replaces_example = create_manga-replaces quote idle piece service refl refl

mark_review_helpful-own_example :
    find
      (is_review (current_user_id anns) "m1")
      (mark_review_helpful quote idle anns service).1.store.tables.reviews
    ≡ find (is_review (current_user_id anns) "m1") shelf.reviews
mark_review_helpful-own_example = mark_review_helpful-own quote idle anns service "m1"

anns_given : (current_user_id anns == "") ≡ false
unfolding current_user_id
anns_given = refl

not_anns : (anns.param "user_id" == current_user_id anns) ≡ false
unfolding current_user_id
not_anns = refl

no_review : any (is_review "u2" "m1") shelf.reviews ≡ false
unfolding any
no_review = refl

mark_review_helpful-missing_example :
    (mark_review_helpful quote idle anns service).0 ≡ refuse 500 "failed to update helpful count"
mark_review_helpful-missing_example =
    mark_review_helpful-missing quote idle anns service anns_given refl not_anns refl no_review

abbrev accounts : AuthService
accounts = record {
  store = service.store;
  revoked =
      run_events crypto "secret" events (revoke crypto "secret" out.stored "t" claims meanwhile);
}

middleware-admits_example :
    ((why : String) × ((middleware quote crypto "secret" clocks anns accounts).0
        ≡ inl (refuse 401 why)))
    ⊎ ((scheme token : String) × (c : Claims) × (split_space "Bearer t" ≡ some (scheme, token))
        × ((parse_token crypto "secret" clocks token accounts.revoked).0 ≡ ok c)
        × ((middleware quote crypto "secret" clocks anns accounts).0
            ≡ inr (with_claims c token anns))
        × (current_user_id (with_claims c token anns) ≡ c.user_id)
        × ((to_lower scheme == "bearer") ≡ true))
middleware-admits_example = middleware-admits crypto "secret" quote clocks anns accounts

bearer : split_space "Bearer t" ≡ some ("Bearer", "t")
unfolding split_space
bearer = refl

bearer_word : (to_lower "Bearer" == "bearer") ≡ true
unfolding to_lower
bearer_word = refl

middleware-logged_out_example :
    (middleware quote crypto "secret" clocks anns accounts).0 ≡ inl (refuse 401 "invalid token")
middleware-logged_out_example =
    middleware-logged_out crypto "secret" quote out clocks (pos 100) "t" "Bearer" claims []
      meanwhile events anns accounts crypto-Lawful parses_out refl early refl refl bearer
      bearer_word

abbrev bob : UserRow
bob = record {
  user = record { id = "u2"; username = "bob"; email = "bob@example.org"; created_at = pos 2 };
  password_hash = "hash";
}

abbrev two_users : Service idle
two_users = record service {
  store = record { tables = record shelf { users = ann ∷ bob ∷ [] }; driver = up };
}

abbrev greeting : SendPmRequest
greeting = record { recipient_username = "bob"; message = " hello " }

send_pm-Honest_example :
    Honest idle "7"
      (pos 9)
      (current_user_id anns)
      greeting
      two_users
      (send_pm quote idle true true (pos 9) "7" anns (ok greeting) two_users)
send_pm-Honest_example = send_pm-Honest idle "7" quote true true (pos 9) anns greeting two_users

-- ann's token at a time when it has expired
abbrev expired : Clocks
expired = record { validated = pos 200; checked = pos 200; stored = pos 200 }

abbrev late : Outside
late = record {
  issued = (pos 200, pos 200);
  admitted = expired;
  left = expired;
  unix = pos 9;
  nanos = "7";
  salt = "salt";
  hub = new_hub;
  has_hub = true;
  has_chat = true;
  has_broadcaster = true;
}

abbrev sqlite : Sqlite
sqlite = record {
  matching = λ words. ok (λ m. true);
  lower = λ s. s;
  genres_like = λ words m. true;
}

abbrev api : Api idle
api = record { service = service; revoked = [] }

anns_expired :
    (scheme token : String) (c : Claims)
    → split_space (anns.header "Authorization") ≡ some (scheme, token)
    → (parse_token crypto "secret" expired token []).0 ≢ ok c
unfolding parse_token
anns_expired scheme token c split valid = ground arith

serve_protected-tokenless_example :
    ((why : String) × ((serve_protected idle quote crypto "secret" parse_hundredths sqlite quote
          late delete_manga anns api).0
        ≡ refuse 401 why))
    × ((serve_protected idle quote crypto "secret" parse_hundredths sqlite quote late delete_manga
          anns api).1
        ≡ none)
    × ((serve_protected idle quote crypto "secret" parse_hundredths sqlite quote late delete_manga
          anns api).2.service
        ≡ service)
serve_protected-tokenless_example =
    serve_protected-tokenless idle quote crypto "secret" parse_hundredths sqlite quote late
      delete_manga anns api anns_expired

-- ann's token while it is valid
abbrev morning : Outside
morning = record late { admitted = clocks; left = clocks }

anns_apart :
    (scheme token : String) (c : Claims)
    → split_space (anns.header "Authorization") ≡ some (scheme, token)
    → (parse_token crypto "secret" clocks token []).0 ≡ ok c
    → (c.user_id == "u2") ≡ false
unfolding parse_token is_revoked purge lookup
anns_apart scheme token c split parsed = ap (λ x. (claims_or claims x).user_id == "u2") (sym parsed)
  where
    claims_or : Claims → Result Claims → Claims
    claims_or d (ok x) = x
    claims_or d (err e) = d

serve_protected-others_example :
    select_entry "u2" "m1"
      (serve_protected idle quote crypto "secret" parse_hundredths sqlite quote morning
        (to_progress (ok request))
        anns
        api).2.service.store.tables
    ≡ select_entry "u2" "m1" shelf
serve_protected-others_example =
    serve_protected-others idle quote crypto "secret" parse_hundredths sqlite quote morning
      (to_progress (ok request)) anns api "u2" "m1" refl anns_apart
