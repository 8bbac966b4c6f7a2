-- ===== src/Store/Catalog.antt =====
-- pkg/database/manga_repository.go, and `InsertManga` of schema_repository.go. `ListManga` is in
-- Store.Listing. The JSON text of the `genres` column is the list that it encodes.
use manga_hub.Prelude.{
  String, List, [], ◌∷◌, ◌++◌, ◌==◌, if◌then◌else◌, none, some, ok, err, no_rows, wrap, any,
}
use manga_hub.Models.{Manga}
use manga_hub.Exec.{Exec, ◌>>◌}
use manga_hub.Store.Sql.{update_where, delete_where}
use manga_hub.Store.Tables.{Tables, Store, statement, find_manga}

unfoldable pub get_manga_by_id : String → Exec Store Manga
get_manga_by_id manga_id = statement "get manga by id" λ now t. elim (find_manga manga_id t.manga) [
  | none ↦ (err (wrap "get manga by id" no_rows), t)
  | some m ↦ (ok m, t)
]

-- deleting a row of `manga` deletes what references it (ON DELETE CASCADE)
unfoldable pub delete_manga_rows : String → Tables → Tables
unfolding delete_where
delete_manga_rows manga_id t = record t {
  manga = delete_where (λ m. m.id == manga_id) t.manga;
  user_progress = delete_where (λ r. r.manga_id == manga_id) t.user_progress;
  user_progress_history = delete_where (λ e. e.manga_id == manga_id) t.user_progress_history;
  reviews = delete_where (λ r. r.manga_id == manga_id) t.reviews;
}

-- INSERT OR REPLACE: a row of the same id is deleted first, with all that references it
unfoldable pub replace_manga : Manga → Tables → Tables
unfolding delete_manga_rows
replace_manga m t =
    let cleared = delete_manga_rows m.id t in record cleared { manga = cleared.manga ++ m ∷ [] }

unfoldable pub insert_manga : Manga → Exec Store (Unit {0})
unfolding replace_manga
insert_manga m = statement "insert manga" (λ now t. (ok tt, replace_manga m t))

unfoldable pub create_manga : Manga → Exec Store Manga
unfolding replace_manga
create_manga m = do
  statement "create manga" (λ now t. (ok tt, replace_manga m t))
  get_manga_by_id m.id

-- SET every column but the id
unfoldable pub set_manga : String → Manga → List Manga → List Manga
unfolding update_where
set_manga manga_id x = update_where (λ m. m.id == manga_id) (λ m. record x { id = m.id })

unfoldable pub update_manga_by_id : String → Manga → Exec Store Manga
unfolding set_manga
update_manga_by_id manga_id x = do
  statement "update manga" λ now t.
      if any (λ m. m.id == manga_id) t.manga
      then (ok tt, record t { manga = set_manga manga_id x t.manga })
      else (err no_rows, t)
  get_manga_by_id manga_id

unfoldable pub delete_manga_by_id : String → Exec Store (Unit {0})
unfolding delete_manga_rows
delete_manga_by_id manga_id = statement "delete manga" λ now t.
    if any (λ m. m.id == manga_id) t.manga
    then (ok tt, delete_manga_rows manga_id t)
    else (err no_rows, t)
