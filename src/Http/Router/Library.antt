-- ===== src/Http/Router/Library.antt =====
-- Whose library the routes under /users change.
use manga_hub.Prelude.{
  ℤ, String, List, [], ◌∷◌, false, ◌==◌, ◌≡◌, ◌≢◌, refl, sym, ap, ◌∙◌, inl, inr, Option, none, some,
  find, keep, any, Result, Bool-cases, arith, eq_iff,
}
use manga_hub.Models.{
  Manga, LibraryEntry, AddLibraryRequest, UpdateProgressRequest, UpdateLibraryRequest,
  ProgressUpdateResult,
}
use manga_hub.Exec.{Exec, pure, caught, lift}
use manga_hub.Exec.Keeps.{Keeps, Keeps-bind, Keeps-pure, Keeps-raise, Keeps-or_raise}
use manga_hub.Store.Sql.{delete_where}
use manga_hub.Store.Tables.{Tables, Store, ProgressRow}
use manga_hub.Store.Tables.Keeps.{On, Keeps-statement}
use manga_hub.Store.Catalog.{get_manga_by_id}
use manga_hub.Store.Library.{is_key, select_entry, upsert_library_entry, delete_library_entry}
use manga_hub.Store.Library
use manga_hub.Store.Library.Contract.{upsert_frame}
use manga_hub.Store.History.{insert_progress_history}
use manga_hub.Store.Reads.{
  get_manga_by_id-tables, get_library_entry-tables, select_entry-insert_progress_history,
}
use manga_hub.Cache.{Redis, Service, in_store, invalidate}
use manga_hub.Cache.Keeps.{in_store-Within, caught-Within, invalidating}
use manga_hub.User
use manga_hub.User.{
  added, progressed, relabelled, progress_record, check_total, check_behind, new_volume,
  version_key,
}

find-delete_where_ne :
    (user_id manga_id other id : String) (rows : List ProgressRow)
    → (user_id == other) ≡ false
    → find (is_key other id) (delete_where (is_key user_id manga_id) rows)
      ≡ find (is_key other id) rows
unfolding find delete_where keep
find-delete_where_ne user_id manga_id other id [] apart = refl
find-delete_where_ne user_id manga_id other id (x ∷ xs) apart = ground (
  arith,
  find-delete_where_ne user_id manga_id other id xs apart,
  eq_iff x.user_id other,
  eq_iff x.user_id user_id,
  eq_iff user_id other,
)

-- what `UpdateProgress` returns
abbrev saved : Manga → LibraryEntry → LibraryEntry → ProgressUpdateResult
saved manga old updated = record {
  entry = updated;
  previous_chapter = old.current_chapter;
  previous_volume = old.current_volume;
  total_chapters = manga.total_chapters;
  manga_title = manga.title;
}

module _ (user_id other id : String) (target : Option LibraryEntry)
    (apart : (user_id == other) ≡ false) where
  -- what the library of `other` has of a manga
  abbrev Kept : Tables → Type 0
  Kept t = select_entry other id t ≡ target

  not_same : other ≢ user_id
  not_same e = ground (arith, apart, (eq_iff user_id other).1 (sym e))

  upsert-Kept : (entry : LibraryEntry) → Keeps (On Kept) (upsert_library_entry user_id entry)
  upsert-Kept entry = record {
    after = λ s h. upsert_frame user_id entry s other id (inl not_same) ∙ h;
  }

  delete-Kept : (manga_id : String) → Keeps (On Kept) (delete_library_entry user_id manga_id)
  unfolding delete_library_entry select_entry
  delete-Kept manga_id = Keeps-statement Kept _ _ λ now t h.
      elim (Bool-cases (any (is_key user_id manga_id) t.user_progress)) [
        | inl held ↦ rw held (
            rw (find-delete_where_ne user_id manga_id other id t.user_progress apart, select_entry)
              h)
        | inr missing ↦ rw missing h
      ]

  manga-Kept : (manga_id : String) → Keeps (On Kept) (get_manga_by_id manga_id)
  manga-Kept manga_id = record {
    after = λ s h. ap (λ t. select_entry other id t) (get_manga_by_id-tables manga_id s) ∙ h;
  }

  entry-Kept : (u manga_id : String) → Keeps (On Kept) (Library.get_library_entry u manga_id)
  entry-Kept u manga_id = record {
    after = λ s h. ap (λ t. select_entry other id t) (get_library_entry-tables u manga_id s) ∙ h;
  }

  library-Kept : (u : String) → Keeps (On Kept) (Library.get_user_library u)
  unfolding Library.get_user_library
  library-Kept u = Keeps-statement Kept _ _ λ now t h. h

  module _ (r : Redis) where
    abbrev pub Untouched : Service r → Type 0
    Untouched s = Kept s.store.tables

    stored : {A : Type 0} (m : Exec Store A) → Keeps (On Kept) m → Keeps Untouched (in_store r m)
    stored m k = in_store-Within Kept r m k

    lifted : {A : Type 0} (x : Result A) → Keeps Untouched (lift x)
    lifted x = record { after = λ s h. h }

    pub add_to_library-Untouched :
        (req : AddLibraryRequest) → Keeps Untouched (User.add_to_library r user_id req)
    unfolding User.add_to_library
    add_to_library-Untouched req =
        Keeps-bind (in_store r (get_manga_by_id req.manga_id)) _
          (stored _ (manga-Kept req.manga_id)) λ m. stored _ (upsert-Kept (added req))

    history-Untouched :
        (req : UpdateProgressRequest) (old : LibraryEntry) (v : ℤ)
        → Keeps Untouched (in_store r (insert_progress_history (progress_record user_id old req v)))
    history-Untouched req old v = stored _ (record {
      after = λ s h.
          select_entry-insert_progress_history (progress_record user_id old req v) s other id ∙ h;
    })

    save_progress-Untouched :
        (req : UpdateProgressRequest) (m : Manga) (old : LibraryEntry) (v : ℤ)
        → Keeps Untouched (User.save_progress r user_id req m old v)
    unfolding User.save_progress
    save_progress-Untouched req m old v =
        Keeps-bind (in_store r (upsert_library_entry user_id (progressed old req v))) _
          (stored _ (upsert-Kept (progressed old req v)))
          λ updated.
            Keeps-bind (caught (invalidate r version_key)) _
              (record {
                after = (invalidating Kept r (pure tt) version_key (λ x. x) (Keeps-pure tt)).after;
              })
              λ _.
                Keeps-bind
                  (caught
                    (in_store r (insert_progress_history (progress_record user_id old req v))))
                  _ (caught-Within Kept r _ (history-Untouched req old v))
                  λ _. Keeps-pure (saved m old updated)

    require_manga-Untouched : (m : String) → Keeps Untouched (User.require_manga r m)
    unfolding User.require_manga
    require_manga-Untouched m = Keeps-or_raise _ _ (stored _ (manga-Kept m))

    require_entry-Untouched : (u m : String) → Keeps Untouched (User.require_entry r u m)
    unfolding User.require_entry
    require_entry-Untouched u m = Keeps-or_raise _ _ (stored _ (entry-Kept u m))

    pub update_progress-Untouched :
        (req : UpdateProgressRequest) → Keeps Untouched (User.update_progress r user_id req)
    unfolding User.update_progress
    update_progress-Untouched req =
        Keeps-bind (User.require_manga r req.manga_id) _ (require_manga-Untouched req.manga_id) λ m.
          Keeps-bind (User.require_entry r user_id req.manga_id) _
            (require_entry-Untouched user_id req.manga_id)
            λ old. Keeps-bind (lift (check_total m req)) _ (lifted (check_total m req)) λ _.
              Keeps-bind (lift (check_behind old req)) _ (lifted (check_behind old req)) λ _.
                Keeps-bind (lift (new_volume old req)) _ (lifted (new_volume old req))
                  λ v. save_progress-Untouched req m old v

    pub remove_from_library-Untouched :
        (m : String) → Keeps Untouched (User.remove_from_library r user_id m)
    unfolding User.remove_from_library
    remove_from_library-Untouched m =
        invalidating Kept r (in_store r (delete_library_entry user_id m)) version_key (λ _. tt)
          (stored _ (delete-Kept m))

    relabel-Untouched :
        (req : UpdateLibraryRequest) (found : Option LibraryEntry)
        → Keeps Untouched (User.relabel r user_id req found)
    relabel-Untouched req none = Keeps-raise _
    relabel-Untouched req (some old) =
        invalidating Kept r (in_store r (upsert_library_entry user_id (relabelled old req)))
          version_key (λ x. x) (stored _ (upsert-Kept (relabelled old req)))

    pub update_library-Untouched :
        (m : String) (req : UpdateLibraryRequest)
        → Keeps Untouched (User.update_library r user_id m req)
    unfolding User.update_library
    update_library-Untouched m req =
        Keeps-bind (in_store r (Library.get_user_library user_id)) _
          (stored _ (library-Kept user_id)) λ items. relabel-Untouched req _
