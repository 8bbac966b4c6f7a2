-- ===== src/Http/Titles/Laws.antt =====
-- What the handlers on manga answer.
use manga_hub.Prelude.{
  String, List, [], ◌∷◌, ◌++◌, false, not, ◌==◌, ◌≡◌, refl, ap, ◌∙◌, inl, inr, none, some, find,
  keep, ok, Unicode, Option-cases, contains, to_lower, arith, eq_refl,
}
use manga_hub.Models.{Manga, CreateMangaRequest}
use manga_hub.Store.Sql.{delete_where}
use manga_hub.Store.Tables.{Tables, Store, statement, find_manga}
use manga_hub.Store.Catalog.{get_manga_by_id, create_manga, replace_manga, delete_manga_rows}
use manga_hub.Cache.{Redis, Service, in_store, read_through}
use manga_hub.MangaService
use manga_hub.MangaService.{version_key}
use manga_hub.User.Progress.{store-invalidate}
use manga_hub.Http.Requests.{
  Request, reply, refuse, manga_body, error_text, mentions, is_not_found, missing_or,
}
use manga_hub.Http.Titles
use manga_hub.Http.Titles.{get_manga}

find-deleted_append :
    (m : Manga) (rows : List Manga)
    → find (λ x. x.id == m.id) (keep (λ x. not (x.id == m.id)) rows ++ m ∷ []) ≡ some m
unfolding find keep
find-deleted_append m [] = rw (eq_refl m.id)
find-deleted_append m (x ∷ xs) = ground (arith, find-deleted_append m xs)

replace_manga-find : (m : Manga) (t : Tables) → find_manga m.id (replace_manga m t).manga ≡ some m
unfolding find_manga replace_manga delete_manga_rows delete_where
replace_manga-find m t = find-deleted_append m t.manga

create_manga-store :
    (m : Manga) (s : Store)
    → (s.driver 0).fails ≡ false
    → (s.driver 1).fails ≡ false
    → ((create_manga m s).0 ≡ ok m) × ((create_manga m s).1.tables ≡ replace_manga m s.tables)
unfolding create_manga get_manga_by_id statement
create_manga-store m s first second = rw (first, second, replace_manga-find m s.tables) (refl, refl)

module _ (quote : String → String) ⦃u : Unicode⦄ (r : Redis) where
  -- Without a cache, and where the database answers, a manga is answered 200, or 404 where there is
  -- none of the id.
  pub get_manga-status :
      (c : Request) (s : Service r)
      → s.cache ≡ none
      → (s.store.driver 0).fails ≡ false
      → (get_manga quote r c s).0 ≡ elim (find_manga (c.param "id") s.store.tables.manga) [
        | none ↦ refuse 404 "manga not found"
        | some m ↦ reply 200 (manga_body m)
      ]
  unfolding get_manga MangaService.get_by_id read_through in_store get_manga_by_id statement
      missing_or is_not_found mentions error_text contains to_lower
  get_manga-status c s bare answers =
      elim (Option-cases (find_manga (c.param "id") s.store.tables.manga)) [
        | inl missing ↦ rw (bare, answers, missing) refl
        | inr (m, found) ↦ rw (bare, answers, found) refl
      ]

  -- Where the database answers, a manga is created with 201 also where the id is taken: of the old
  -- rows the one with the id goes, and so do the library entries, the history and the reviews of that
  -- manga; the new row comes last, and every other row stays.
  pub create_manga-replaces :
      (m : CreateMangaRequest) (s : Service r)
      → (s.store.driver 0).fails ≡ false
      → (s.store.driver 1).fails ≡ false
      → ((Titles.create_manga quote r (ok m) s).0 ≡ reply 201 (manga_body m))
        × ((Titles.create_manga quote r (ok m) s).1.store.tables ≡ record s.store.tables {
          manga = keep (λ x. not (x.id == m.id)) s.store.tables.manga ++ m ∷ [];
          user_progress = keep (λ x. not (x.manga_id == m.id)) s.store.tables.user_progress;
          user_progress_history =
              keep (λ x. not (x.manga_id == m.id)) s.store.tables.user_progress_history;
          reviews = keep (λ x. not (x.manga_id == m.id)) s.store.tables.reviews;
        })
  unfolding Titles.create_manga MangaService.create in_store replace_manga delete_manga_rows
      delete_where
  create_manga-replaces m s first second =
      let (made, stored) = create_manga-store m s.store first second in
      rw made (refl, ap (λ x. x.tables) (store-invalidate r version_key (stored_in s)) ∙ stored)
    where
      stored_in : Service r → Service r
      stored_in x = record x { store = (create_manga m x.store).1 }
