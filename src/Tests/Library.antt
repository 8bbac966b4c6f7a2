-- ===== src/Tests/Library.antt =====
-- The library's theorems at concrete inputs.
use manga_hub.Prelude.{
  String, true, false, eq_iff, pos, ok, ◌≡◌, ◌≢◌, refl, some, none, inl, find, [], ◌∷◌,
}
use manga_hub.Prelude.Sorting.{sort_by, insert_by}
use manga_hub.Models.{LibraryEntry, blank_entry}
use manga_hub.Store.Sql.{upsert}
use manga_hub.Store.Tables.{Store, statement, find_user, find_manga}
use manga_hub.Store.Library.{
  nullable_int, nullable_time, excluded, overwrite, upsert_row, upsert_progress, scan_entry, joined,
  user_library, get_user_library, find_entry, returned_entry, upsert_library_entry, select_entry,
}
use manga_hub.Store.Library.Contract.{upsert_reads_back, upsert_frame, upsert_succeeds}
use manga_hub.Store.Library.Upsert.{Agrees}
use manga_hub.Store.Schema.{IsValid}
use manga_hub.Store.Schema.Calls.{run, run-IsValid, upserts_entry, creates_manga, deletes_entry}
use manga_hub.Tests.{sample, shelf, shelf-IsValid, piece}

abbrev entry : LibraryEntry
entry = record blank_entry {
  manga_id = "m1";
  current_chapter = pos 20;
  status = "completed";
  rating = pos 7;
}

abbrev after : Store
after = (upsert_library_entry "u1" entry sample).1

abbrev expected : LibraryEntry
expected = record {
  user_id = "u1";
  manga_id = "m1";
  title = "One Piece";
  current_chapter = pos 20;
  current_volume = pos 0;
  status = "completed";
  updated_at = pos 1000;
  rating = pos 7;
  started_at = pos 5;
  notes = "";
}

upsert_runs : upsert_library_entry "u1" entry sample ≡ (ok expected, after)
unfolding upsert_library_entry statement upsert_progress find_user find_manga find upsert_row upsert
    excluded nullable_int nullable_time overwrite get_user_library user_library joined sort_by
    insert_by returned_entry find_entry scan_entry
upsert_runs = refl

upsert_reads_back_example :
    (select_entry "u1" "m1" after.tables ≡ some expected) × Agrees "u1" entry expected
upsert_reads_back_example =
    upsert_reads_back "u1" entry sample after expected shelf-IsValid upsert_runs

other_user : ◌≢◌ {A = String} "u2" "u1"
other_user same = let h : false ≡ true = (eq_iff "u2" "u1").1 same in cc

upsert_frame_example : select_entry "u2" "m1" after.tables ≡ select_entry "u2" "m1" shelf
upsert_frame_example = upsert_frame "u1" entry sample "u2" "m1" (inl other_user)

has_user : find_user "u1" shelf.users ≢ none
unfolding find_user find
has_user h = cc

has_manga : find_manga "m1" shelf.manga ≢ none
unfolding find_manga find
has_manga h = cc

upsert_succeeds_example : (e : LibraryEntry) × ((upsert_library_entry "u1" entry sample).0 ≡ ok e)
upsert_succeeds_example =
    upsert_succeeds "u1" entry sample shelf-IsValid has_user has_manga refl refl

run-IsValid_example :
    IsValid
      (run
        (upserts_entry "u1" entry ∷ creates_manga piece ∷ deletes_entry "u1" "m1" ∷ [])
        sample).tables
run-IsValid_example =
    run-IsValid (upserts_entry "u1" entry ∷ creates_manga piece ∷ deletes_entry "u1" "m1" ∷ [])
      sample shelf-IsValid
