-- ===== src/Store/Reads.antt =====
-- The queries: what a successful one found, and that none changes a table.
use manga_hub.Prelude.{String, ok, ◌≡◌, some, arith, Option-cases, inl, inr, Bool-cases, List}
use manga_hub.Models.{Manga, LibraryEntry, ProgressHistoryEntry, Time}
use manga_hub.Store.Tables.{Tables, Store, statement, find_manga, find_user}
use manga_hub.Store.Catalog.{get_manga_by_id}
use manga_hub.Store.Library.{get_library_entry, get_user_library, user_library, select_entry}
use manga_hub.Store.History.{insert_progress_history, insert_history}

pub get_manga_by_id-ok :
    (id : String) (s s' : Store) (m : Manga)
    → get_manga_by_id id s ≡ (ok m, s')
    → (find_manga id s.tables.manga ≡ some m) × (s'.tables ≡ s.tables)
unfolding get_manga_by_id statement
get_manga_by_id-ok id s s' m h = (ground arith, ground arith)

pub get_library_entry-ok :
    (u m : String) (s s' : Store) (e : LibraryEntry)
    → get_library_entry u m s ≡ (ok e, s')
    → (select_entry u m s.tables ≡ some e) × (s'.tables ≡ s.tables)
unfolding get_library_entry statement
get_library_entry-ok u m s s' e h = (ground arith, ground arith)

pub get_user_library-ok :
    (u : String) (s s' : Store) (items : List LibraryEntry)
    → get_user_library u s ≡ (ok items, s')
    → (items ≡ user_library u s.tables) × (s'.tables ≡ s.tables)
unfolding get_user_library statement
get_user_library-ok u s s' items h = (ground arith, ground arith)

pub get_manga_by_id-tables : (id : String) (s : Store) → (get_manga_by_id id s).1.tables ≡ s.tables
unfolding get_manga_by_id statement
get_manga_by_id-tables id s = ground arith

pub get_library_entry-tables :
    (u m : String) (s : Store) → (get_library_entry u m s).1.tables ≡ s.tables
unfolding get_library_entry statement
get_library_entry-tables u m s = ground arith

select_entry-insert_history :
    (entry : ProgressHistoryEntry) (now : Time) (t : Tables) (u m : String)
    → select_entry u m (insert_history entry now t).1 ≡ select_entry u m t
unfolding insert_history select_entry
select_entry-insert_history entry now t u m =
    elim (Option-cases (find_user entry.user_id t.users)) [
      | inl missing ↦ rw (missing, insert_history)
      | inr (x, user) ↦ elim (Option-cases (find_manga entry.manga_id t.manga)) [
        | inl missing ↦ rw (user, missing, insert_history)
        | inr (y, manga) ↦ rw (user, manga, insert_history)
      ]
    ]

-- the history table is apart from the library
pub select_entry-insert_progress_history :
    (entry : ProgressHistoryEntry) (s : Store) (u m : String)
    → select_entry u m (insert_progress_history entry s).1.tables ≡ select_entry u m s.tables
unfolding insert_progress_history statement
select_entry-insert_progress_history entry s u m = elim (Bool-cases (s.driver 0).fails) [
  | inl failed ↦ rw failed
  | inr executed ↦ rw executed (select_entry-insert_history entry (s.driver 0).time s.tables u m)
]
