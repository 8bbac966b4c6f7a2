-- ===== src/User/Progress.antt =====
-- What a successful `UpdateProgress` has checked, written and returned.
use manga_hub.Prelude.{ℤ, pos, String, ◌≡◌, ◌∙◌, sym, ap, ok, arith, some, new, not_in_library}
use manga_hub.Exec.{Exec}
use manga_hub.Exec.Inversion.{bind-eq-ok, lift-eq-ok, or_raise-eq-ok}
use manga_hub.Models.{Manga, LibraryEntry, UpdateProgressRequest, ProgressUpdateResult}
use manga_hub.Store.Tables.{Tables, Store, find_manga}
use manga_hub.Store.Catalog.{get_manga_by_id}
use manga_hub.Store.Library.{upsert_library_entry, select_entry}
use manga_hub.Store.Library
use manga_hub.Store.Library.Upsert.{Agrees}
use manga_hub.Store.Library.Contract.{upsert_reads_back}
use manga_hub.Store.History.{insert_progress_history}
use manga_hub.Store.Reads.{
  get_manga_by_id-ok, get_library_entry-ok, select_entry-insert_progress_history,
}
use manga_hub.Store.Schema.{IsValid}
use manga_hub.Cache.{Redis, Service, in_store, invalidate}
use manga_hub.User.{
  version_key, check_total, check_behind, new_volume, require_manga, require_entry, progressed,
  progress_record, save_progress, update_progress, new_status, new_notes,
}
use manga_hub.User.Guards.{Allowed, next_volume, guards_sound}

module _ (r : Redis) where
  in_store-eq-ok :
      {A : Type 0} (m : Exec Store A) (s s' : Service r) (a : A)
      → in_store r m s ≡ (ok a, s')
      → m s.store ≡ (ok a, s'.store)
  unfolding in_store
  in_store-eq-ok m s s' a h = ground arith

  pub store-invalidate : (key : String) (s : Service r) → (invalidate r key s).1.store ≡ s.store
  unfolding invalidate
  store-invalidate key s = ground arith

  pub require_manga-ok :
      (id : String) (s s' : Service r) (m : Manga)
      → require_manga r id s ≡ (ok m, s')
      → (find_manga id s.store.tables.manga ≡ some m) × (s'.store.tables ≡ s.store.tables)
  unfolding require_manga
  require_manga-ok id s s' m h = get_manga_by_id-ok id s.store s'.store m (
      in_store-eq-ok (get_manga_by_id id) s s' m
        (or_raise-eq-ok (in_store r (get_manga_by_id id)) (new "manga not found") s h))

  pub require_entry-ok :
      (u id : String) (s s' : Service r) (e : LibraryEntry)
      → require_entry r u id s ≡ (ok e, s')
      → (select_entry u id s.store.tables ≡ some e) × (s'.store.tables ≡ s.store.tables)
  unfolding require_entry
  require_entry-ok u id s s' e h = get_library_entry-ok u id s.store s'.store e (
      in_store-eq-ok (Library.get_library_entry u id) s s' e
        (or_raise-eq-ok (in_store r (Library.get_library_entry u id)) (not_in_library id) s h))

  -- the entry that is returned is what the tables hold when the call is over
  saved :
      (user_id : String) (req : UpdateProgressRequest) (manga : Manga) (old : LibraryEntry) (v : ℤ)
      (s s' : Service r) (res : ProgressUpdateResult)
      → IsValid s.store.tables
      → save_progress r user_id req manga old v s ≡ (ok res, s')
      → (select_entry user_id req.manga_id s'.store.tables ≡ some res.entry)
        × Agrees user_id (progressed old req v) res.entry
        × (res.previous_chapter ≡ old.current_chapter)
        × (res.previous_volume ≡ old.current_volume)
        × (res.total_chapters ≡ manga.total_chapters)
        × (res.manga_title ≡ manga.title)
  unfolding save_progress in_store progressed
  saved user_id req manga old v s s' res valid h =
      let (updated, s₁, wrote, rest) =
        bind-eq-ok (in_store r (upsert_library_entry user_id (progressed old req v))) _ s h in
      let (found, agrees) =
        upsert_reads_back user_id (progressed old req v) s.store s₁.store updated valid (
          in_store-eq-ok (upsert_library_entry user_id (progressed old req v)) s s₁ updated
            wrote) in
      let s₂ : Service r = (invalidate r version_key s₁).1 in
      let same : res.entry ≡ updated = ground arith in
      let store : s'.store
          ≡ (insert_progress_history (progress_record user_id old req v) s₂.store).1 =
        ap (λ p. p.1.store) (sym rest) in
      (
        ap (λ x. select_entry user_id req.manga_id x.tables) store
            ∙ select_entry-insert_progress_history _ s₂.store user_id req.manga_id
            ∙ ap (λ x. select_entry user_id req.manga_id x.tables) (store-invalidate version_key s₁)
            ∙ found
            ∙ ap some (sym same),
        rw same agrees,
        ground arith,
        ground arith,
        ground arith,
        ground arith,
      )

  -- the write rests on nothing that the tables hold of the entry
  pub save_progress-stores :
      (user_id : String) (req : UpdateProgressRequest) (manga : Manga) (old : LibraryEntry) (v : ℤ)
      (s s' : Service r) (res : ProgressUpdateResult)
      → IsValid s.store.tables
      → save_progress r user_id req manga old v s ≡ (ok res, s')
      → (select_entry user_id req.manga_id s'.store.tables ≡ some res.entry)
        × (res.entry.current_chapter ≡ req.current_chapter)
  unfolding progressed
  save_progress-stores user_id req manga old v s s' res valid h =
      let written = saved user_id req manga old v s s' res valid h in (written.0, written.1.chapter)

-- What a successful update of `user_id` by `req` did, from `t` to `t'`: the guards held for the
-- manga and the entry that were there, and the entry that is there afterwards is the one returned,
-- with the request's chapter, volume, status and notes, and no rating.
pub record Updated (user_id : String) (req : UpdateProgressRequest) (t t' : Tables)
    (res : ProgressUpdateResult) : Type 0 where
  pub manga : Manga
  pub old : LibraryEntry
  pub catalogued : find_manga req.manga_id t.manga ≡ some manga
  pub shelved : select_entry user_id req.manga_id t ≡ some old
  pub allowed : Allowed manga old req
  pub stored : select_entry user_id req.manga_id t' ≡ some res.entry
  pub chapter : res.entry.current_chapter ≡ req.current_chapter
  pub volume : res.entry.current_volume ≡ next_volume old req
  pub status : res.entry.status ≡ new_status req
  pub notes : res.entry.notes ≡ new_notes old req
  pub rating : res.entry.rating ≡ pos 0
  pub previous_chapter : res.previous_chapter ≡ old.current_chapter
  pub previous_volume : res.previous_volume ≡ old.current_volume
  pub total_chapters : res.total_chapters ≡ manga.total_chapters

-- In valid tables a successful `UpdateProgress` passed every guard, and left and returned the entry
-- that `Updated` describes.
pub update_progress_sound :
    (r : Redis) (user_id : String) (req : UpdateProgressRequest) (s s' : Service r)
    (res : ProgressUpdateResult)
    → IsValid s.store.tables
    → update_progress r user_id req s ≡ (ok res, s')
    → Updated user_id req s.store.tables s'.store.tables res
unfolding update_progress progressed
update_progress_sound r user_id req s s' res valid h =
    let (manga, s₁, read, h₁) = bind-eq-ok (require_manga r req.manga_id) _ s h in
    let (found, same₁) = require_manga-ok r req.manga_id s s₁ manga read in
    let (old, s₂, looked, h₂) = bind-eq-ok (require_entry r user_id req.manga_id) _ s₁ h₁ in
    let (held, same₂) = require_entry-ok r user_id req.manga_id s₁ s₂ old looked in
    let (_, total, h₃) = lift-eq-ok (check_total manga req) _ s₂ h₂ in
    let (_, behind, h₄) = lift-eq-ok (check_behind old req) _ s₂ h₃ in
    let (v, volume, h₅) = lift-eq-ok (new_volume old req) _ s₂ h₄ in
    let (allowed, next) = guards_sound manga old req v total behind volume in
    let same : s₂.store.tables ≡ s.store.tables = same₂ ∙ same₁ in
    let (stored, agrees, chapter, last, chapters, title) =
      saved r user_id req manga old v s₂ s' res (rw same valid) h₅ in
    record {
      manga = manga;
      old = old;
      catalogued = found;
      shelved = ap (λ t. select_entry user_id req.manga_id t) (sym same₁) ∙ held;
      allowed = allowed;
      stored = stored;
      chapter = agrees.chapter;
      volume = agrees.volume ∙ next;
      status = agrees.status;
      notes = agrees.notes;
      rating = agrees.rating;
      previous_chapter = chapter;
      previous_volume = last;
      total_chapters = chapters;
    }
