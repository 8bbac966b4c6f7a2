-- ===== src/Tests/Progress.antt =====
-- The user service's theorems at concrete inputs.
use manga_hub.Prelude.{pos, ok, some, any, ◌≡◌, ◌<ℤ◌, arith, refl, find, false}
use manga_hub.Prelude.Sorting.{sort_by, insert_by}
use manga_hub.Models.{LibraryEntry, UpdateProgressRequest, ProgressUpdateResult}
use manga_hub.Store.Sql.{upsert}
use manga_hub.Store.Tables.{statement, find_user, find_manga}
use manga_hub.Store.Catalog.{get_manga_by_id}
use manga_hub.Store.Library.{
  nullable_int, nullable_time, excluded, overwrite, upsert_row, upsert_progress, scan_entry, joined,
  user_library, get_user_library, find_entry, returned_entry, upsert_library_entry, select_entry,
}
use manga_hub.Store.Library
use manga_hub.Store.History.{insert_history, insert_progress_history}
use manga_hub.Cache.{Service, in_store, invalidate}
use manga_hub.User.{
  check_total, check_behind, new_volume, progressed, save_progress, update_progress, require_manga,
  require_entry,
}
use manga_hub.User.Progress.{Updated, update_progress_sound}
use manga_hub.User.Overlap.{overlap_goes_back}
use manga_hub.Store.Schema.{IsValid}
use manga_hub.User.Forward.{Forward, update_progress-Forward}
use manga_hub.Tests.{idle, service, shelf, shelf-IsValid, piece}

abbrev request : UpdateProgressRequest
request = record {
  manga_id = "m1";
  current_chapter = pos 11;
  current_volume = pos 0;
  status = "";
  notes = "";
  force = false;
}

abbrev after : Service idle
after = (update_progress idle "u1" request service).1

abbrev expected : ProgressUpdateResult
expected = record {
  entry = record {
    user_id = "u1";
    manga_id = "m1";
    title = "One Piece";
    current_chapter = pos 11;
    current_volume = pos 2;
    status = "reading";
    updated_at = pos 1000;
    rating = pos 0;
    started_at = pos 5;
    notes = "good";
  };
  previous_chapter = pos 10;
  previous_volume = pos 2;
  total_chapters = pos 1100;
  manga_title = "One Piece";
}

update_runs : update_progress idle "u1" request service ≡ (ok expected, after)
unfolding update_progress require_manga require_entry check_total check_behind new_volume
    save_progress progressed in_store invalidate get_manga_by_id Library.get_library_entry
    select_entry upsert_library_entry statement upsert_progress find_user find_manga find upsert_row
    upsert excluded nullable_int nullable_time overwrite get_user_library user_library joined
    sort_by insert_by returned_entry find_entry scan_entry insert_progress_history
update_runs = refl

update_progress_sound_example : Updated "u1" request shelf after.store.tables expected
update_progress_sound_example =
    update_progress_sound idle "u1" request service after expected shelf-IsValid update_runs

update_progress-Forward_example : Forward shelf after.store.tables
update_progress-Forward_example = update_progress-Forward idle "u1" request service refl

-- an update to 10 whose guards have seen the chapter 10 waits while the update to 11 runs
abbrev slow : UpdateProgressRequest
slow = record request { current_chapter = pos 10 }

abbrev seen : LibraryEntry
seen = record expected.entry { current_chapter = pos 10 }

abbrev last : Service idle
last = (save_progress idle "u1" slow piece seen (pos 2) after).1

after-IsValid : IsValid after.store.tables
unfolding any update_progress require_manga require_entry check_total check_behind new_volume
    save_progress progressed in_store invalidate get_manga_by_id Library.get_library_entry
    select_entry upsert_library_entry statement upsert_progress find_user find_manga find upsert_row
    upsert excluded nullable_int nullable_time overwrite get_user_library user_library joined
    sort_by insert_by returned_entry find_entry scan_entry insert_progress_history insert_history
after-IsValid = record {
  user_ids = (refl, tt);
  usernames = (refl, tt);
  manga_ids = (refl, tt);
  progress = ((refl, tt), ((refl, refl), tt));
  history = ((refl, refl), tt);
  reviews = (tt, tt);
  chats = (tt, tt);
  privates = (tt, tt);
}

slow_result :
    (res : ProgressUpdateResult) × (save_progress idle "u1" slow piece seen (pos 2) after
      ≡ (ok res, last))
unfolding any update_progress require_manga require_entry check_total check_behind new_volume
    save_progress progressed in_store invalidate get_manga_by_id Library.get_library_entry
    select_entry upsert_library_entry statement upsert_progress find_user find_manga find upsert_row
    upsert excluded nullable_int nullable_time overwrite get_user_library user_library joined
    sort_by insert_by returned_entry find_entry scan_entry insert_progress_history insert_history
slow_result = (_, refl)

overlap_goes_back_example :
    (between final : LibraryEntry) × (select_entry "u1" "m1" after.store.tables ≡ some between)
    × (select_entry "u1" "m1" last.store.tables ≡ some final)
    × (final.current_chapter <ℤ between.current_chapter)
overlap_goes_back_example =
    overlap_goes_back idle "u1" slow request piece seen (pos 2) service after last expected
      slow_result.0 refl (omega arith) shelf-IsValid after-IsValid update_runs slow_result.1
