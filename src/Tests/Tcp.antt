-- ===== src/Tests/Tcp.antt =====
-- The TCP server's theorems at concrete inputs.
use manga_hub.Prelude.{
  Error, String, List, [], ◌∷◌, ℤ, pos, false, ok, ◌≡◌, ◌↔◌, refl, none, some, find, trim_space,
}
use manga_hub.Prelude.Text.{ascii, to_lower, lower_rune}
use manga_hub.Prelude.Sorting.{sort_by, insert_by}
use manga_hub.Models.{LibraryEntry, ProgressUpdateResult}
use manga_hub.Store.Sql.{upsert}
use manga_hub.Store.Tables.{statement, find_user, find_manga}
use manga_hub.Store.Catalog.{get_manga_by_id}
use manga_hub.Store.Library.{
  nullable_int, nullable_time, excluded, overwrite, upsert_row, upsert_progress, scan_entry, joined,
  user_library, get_user_library, find_entry, returned_entry, upsert_library_entry, select_entry,
}
use manga_hub.Store.Library
use manga_hub.Cache.{Service, in_store, invalidate}
use manga_hub.User.{
  check_total, check_behind, new_volume, progressed, save_progress, update_progress, require_manga,
  require_entry, get_library_entry,
}
use manga_hub.User.Progress.{Updated}
use manga_hub.Tcp.Messages.{ClientMessage}
use manga_hub.Tcp.Rules.{
  strategy, conflict_with, conflict_of, stale_with, newer_resolution, incoming_timestamp,
  progress_request,
}
use manga_hub.Tcp.Handlers.{Server, Sockets, conflicts, updates, decide, reconcile}
use manga_hub.Tcp.Conflicts.{Accepts, conflict_iff, reconcile_conflict, reconcile_update}
use manga_hub.Tcp.Forward.{Event, connects, closes, line, run, Ahead, run-Ahead}
use manga_hub.Tests.{idle, service, shelf, shelf-IsValid}

abbrev message : ℤ → ClientMessage
message chapter = record {
  type = "progress";
  request_id = "r1";
  user_id = "u1";
  manga_id = " m1";
  chapter = chapter;
  status = "";
  timestamp = pos 600;
  device_id = "phone";
  strategy = "Merge";
  progress = none;
}

abbrev held : LibraryEntry
held = record {
  user_id = "u1";
  manga_id = "m1";
  title = "One Piece";
  current_chapter = pos 10;
  current_volume = pos 2;
  status = "reading";
  updated_at = pos 500;
  rating = pos 9;
  started_at = pos 5;
  notes = "good";
}

conflict_iff_example :
    (conflict_with "merge" (pos 400) (message (pos 11)) held ≡ none)
    ↔ Accepts "merge" (pos 400) (message (pos 11)) held
conflict_iff_example = conflict_iff "merge" (pos 400) (message (pos 11)) held

abbrev refused : Service idle
refused = (reconcile idle (pos 700) "u1" (message (pos 3)) service).1

conflict_runs :
    reconcile idle (pos 700) "u1" (message (pos 3)) service
    ≡ (ok (conflicts "server_newer"), refused)
unfolding reconcile decide conflict_of conflict_with stale_with newer_resolution strategy
    incoming_timestamp to_lower lower_rune trim_space get_library_entry in_store
    Library.get_library_entry statement select_entry find find_manga scan_entry
conflict_runs = refl

reconcile_conflict_example :
    (refused.store.tables ≡ shelf)
    × ((entry : LibraryEntry) × (select_entry "u1" (trim_space " m1") shelf ≡ some entry)
        × (Accepts
              (strategy (message (pos 3)))
              (incoming_timestamp (pos 700) (message (pos 3)))
              (message (pos 3))
              entry
            → ⊥))
reconcile_conflict_example =
    reconcile_conflict idle (pos 700) "u1" (message (pos 3)) service refused "server_newer"
      conflict_runs

abbrev after : Service idle
after = (reconcile idle (pos 700) "u1" (message (pos 11)) service).1

abbrev expected : ProgressUpdateResult
expected = record {
  entry = record {
    user_id = "u1";
    manga_id = "m1";
    title = "One Piece";
    current_chapter = pos 11;
    current_volume = pos 2;
    status = "reading";
    updated_at = pos 1000;
    rating = pos 0;
    started_at = pos 5;
    notes = "good";
  };
  previous_chapter = pos 10;
  previous_volume = pos 2;
  total_chapters = pos 1100;
  manga_title = "One Piece";
}

update_runs :
    reconcile idle (pos 700) "u1" (message (pos 11)) service ≡ (ok (updates expected), after)
unfolding reconcile decide conflict_of conflict_with strategy incoming_timestamp progress_request
    to_lower lower_rune trim_space get_library_entry update_progress require_manga require_entry
    check_total check_behind new_volume save_progress progressed in_store invalidate get_manga_by_id
    Library.get_library_entry select_entry upsert_library_entry statement upsert_progress find_user
    find_manga find upsert_row upsert excluded nullable_int nullable_time overwrite get_user_library
    user_library joined sort_by insert_by returned_entry find_entry scan_entry
update_runs = refl

reconcile_update_example :
    Updated "u1" (progress_request (message (pos 11))) shelf after.store.tables expected
    × ((entry : LibraryEntry)
        → select_entry "u1" (trim_space " m1") shelf ≡ some entry
        → false ≡ false
        → Accepts
            (strategy (message (pos 11)))
            (incoming_timestamp (pos 700) (message (pos 11)))
            (message (pos 11))
            entry)
reconcile_update_example =
    reconcile_update idle (pos 700) "u1" (message (pos 11)) service after expected shelf-IsValid
      update_runs

abbrev text : Error → String
text e = "error"

abbrev open_sockets : Sockets
open_sockets c = none

abbrev server : Server idle
server = record { users = some service; clients = ("c1", "u1") ∷ [] }

abbrev events : List Event
events =
    connects "c2"
    ∷ line open_sockets (pos 700) "1" "c2" (some (message (pos 12)))
    ∷ line open_sockets (pos 701) "2" "c1" (some (message (pos 11)))
    ∷ closes "c2"
    ∷ []

run-Ahead_example : Ahead idle (some service) (run idle text events server).users
run-Ahead_example = run-Ahead idle text events server
