-- ===== src/Store/Library.antt =====
-- pkg/database/library_repository.go
pub mod Lookup
pub mod Upsert
pub mod Contract
use manga_hub.Prelude.{
  ℤ, pos, eq_ℤ, le_ℤ, String, List, [], ◌∷◌, Bool, true, false, ◌==◌, ◌&&◌, if◌then◌else◌, Option,
  none, some, ok, err, new, no_rows, wrap, any, find, keep, not,
}
use manga_hub.Prelude.Sorting.{sort_by}
use manga_hub.Models.{Time, zero_time, Manga, LibraryEntry}
use manga_hub.Exec.{Exec, ◌>>=◌, ◌>>◌, raise, pure}
use manga_hub.Store.Sql.{upsert, delete_where}
use manga_hub.Store.Tables.{
  Tables, ProgressRow, Store, Statement, statement, foreign_key, find_user, find_manga,
}

unfoldable pub nullable_int : ℤ → Option ℤ
nullable_int v = if eq_ℤ v (pos 0) then none else some v

unfoldable pub nullable_time : Time → Option Time
nullable_time t = if eq_ℤ t zero_time then none else some t

-- COALESCE(x, y)
abbrev pub coalesce : Option Time → Time → Time
coalesce none y = y
coalesce (some x) y = x

-- the primary key (user_id, manga_id)
abbrev pub is_key : String → String → ProgressRow → Bool
is_key user_id manga_id r = r.user_id == user_id && r.manga_id == manga_id

-- the row that the INSERT would write
unfoldable pub excluded : String → LibraryEntry → Time → ProgressRow
unfolding nullable_int nullable_time
excluded user_id entry now = record {
  user_id = user_id;
  manga_id = entry.manga_id;
  current_chapter = entry.current_chapter;
  current_volume = entry.current_volume;
  status = entry.status;
  rating = nullable_int entry.rating;
  started_at = some (coalesce (nullable_time entry.started_at) now);
  notes = entry.notes;
  updated_at = now;
}

-- ON CONFLICT DO UPDATE SET: `started_at` is the column that keeps its value
unfoldable pub overwrite : ProgressRow → ProgressRow → ProgressRow
overwrite old x = record old {
  current_chapter = x.current_chapter;
  current_volume = x.current_volume;
  status = x.status;
  updated_at = x.updated_at;
  rating = x.rating;
  notes = x.notes;
}

unfoldable pub upsert_row : ProgressRow → List ProgressRow → List ProgressRow
unfolding overwrite upsert
upsert_row x = upsert (is_key x.user_id x.manga_id) (λ r. overwrite r x) x

-- user_id and manga_id reference `users` and `manga`
unfoldable pub upsert_progress : String → LibraryEntry → Statement (Unit {0})
unfolding excluded upsert_row
upsert_progress user_id entry now t = elim (find_user user_id t.users) [
  | none ↦ (err (wrap "upsert library entry" foreign_key), t)
  | some u ↦ elim (find_manga entry.manga_id t.manga) [
    | none ↦ (err (wrap "upsert library entry" foreign_key), t)
    | some m ↦ (
      ok tt,
      record t { user_progress = upsert_row (excluded user_id entry now) t.user_progress },
    )
  ]
]

-- a NULL column leaves the field at its zero value
abbrev pub scan_int : Option ℤ → ℤ
scan_int none = pos 0
scan_int (some v) = v

abbrev pub scan_time : Option Time → Time
scan_time none = zero_time
scan_time (some v) = v

unfoldable pub scan_entry : Manga → ProgressRow → LibraryEntry
scan_entry m r = record {
  user_id = r.user_id;
  manga_id = r.manga_id;
  title = m.title;
  current_chapter = r.current_chapter;
  current_volume = r.current_volume;
  status = r.status;
  updated_at = r.updated_at;
  rating = scan_int r.rating;
  started_at = scan_time r.started_at;
  notes = r.notes;
}

-- user_progress JOIN manga WHERE user_id = ?
unfoldable pub joined : String → List Manga → List ProgressRow → List LibraryEntry
unfolding scan_entry
joined user_id ms [] = []
joined user_id ms (r ∷ rs) =
    let rest = joined user_id ms rs in
    if r.user_id == user_id
    then (elim (find_manga r.manga_id ms) [ none ↦ rest | some m ↦ scan_entry m r ∷ rest ])
    else rest

-- ORDER BY updated_at DESC; SQLite may return rows of one second in any order
abbrev pub newer : LibraryEntry → LibraryEntry → Bool
newer a b = le_ℤ b.updated_at a.updated_at

unfoldable pub user_library : String → Tables → List LibraryEntry
unfolding joined
user_library user_id t = sort_by newer (joined user_id t.manga t.user_progress)

unfoldable pub get_user_library : String → Exec Store (List LibraryEntry)
get_user_library user_id = statement "get user library" (λ now t. (ok (user_library user_id t), t))

-- the loop `for _, item := range items`
unfoldable pub find_entry : String → List LibraryEntry → Option LibraryEntry
find_entry manga_id = find (λ item. item.manga_id == manga_id)

unfoldable pub returned_entry : String → List LibraryEntry → Exec Store LibraryEntry
returned_entry manga_id items s = elim (find_entry manga_id items) [
  | none ↦ (err (new "library entry not found after update"), s)
  | some item ↦ (ok item, s)
]

unfoldable pub upsert_library_entry : String → LibraryEntry → Exec Store LibraryEntry
upsert_library_entry user_id entry = do
  statement "upsert library entry" (upsert_progress user_id entry)
  items ← get_user_library user_id
  returned_entry entry.manga_id items

-- user_progress JOIN manga WHERE user_id = ? AND manga_id = ?
unfoldable pub select_entry : String → String → Tables → Option LibraryEntry
unfolding scan_entry
select_entry user_id manga_id t = elim (find (is_key user_id manga_id) t.user_progress) [
  | none ↦ none
  | some r ↦ elim (find_manga r.manga_id t.manga) [ none ↦ none | some m ↦ some (scan_entry m r) ]
]

unfoldable pub get_library_entry : String → String → Exec Store LibraryEntry
get_library_entry user_id manga_id = statement "get library entry" λ now t.
    elim (select_entry user_id manga_id t) [
      | none ↦ (err (wrap "get library entry" no_rows), t)
      | some item ↦ (ok item, t)
    ]

unfoldable pub delete_library_entry : String → String → Exec Store (Unit {0})
delete_library_entry user_id manga_id = statement "delete library entry" λ now t.
    if any (is_key user_id manga_id) t.user_progress
    then (
      ok tt,
      record t { user_progress = delete_where (is_key user_id manga_id) t.user_progress },
    )
    else (err (new "library entry not found"), t)
