-- ===== src/User/Forward.antt =====
-- Progress over time: no update that is not forced takes a chapter back, whatever it returns.
use manga_hub.Prelude.{
  ℤ, ◌≤ℤ◌, String, false, ◌==◌, ◌≡◌, ◌≢◌, refl, ◌∙◌, ap, ◌⊎◌, inl, inr, Result, ok, err, Error,
  some, arith, eq_iff, Bool-cases,
}
use manga_hub.Models.{Manga, LibraryEntry, UpdateProgressRequest}
use manga_hub.Exec.{Exec, continue, ◌>>=◌, ◌>>◌, lift}
use manga_hub.Store.Tables.{Tables, Store}
use manga_hub.Store.Library.{upsert_library_entry, select_entry, scan_entry}
use manga_hub.Store.Library.Upsert.{
  upsert_progress_cases, stored, select_entry-upsert_row, Agrees-stored,
}
use manga_hub.Store.Library.Contract.{upsert_tables, upsert_frame}
use manga_hub.Store.Reads.{
  get_manga_by_id-tables, get_library_entry-tables, select_entry-insert_progress_history,
}
use manga_hub.Cache.{Redis, Service, in_store, invalidate}
use manga_hub.User.{
  version_key, check_total, check_behind, new_volume, require_manga, require_entry, progressed,
  progress_record, save_progress, update_progress,
}
use manga_hub.User.Progress.{store-invalidate, require_entry-ok}

-- every library entry is still there, with a chapter that is not behind
abbrev pub Forward : Tables → Tables → Type 0
Forward t t' =
    (u m : String) (e : LibraryEntry)
    → select_entry u m t ≡ some e
    → (e' : LibraryEntry) × (select_entry u m t' ≡ some e')
      × (e.current_chapter ≤ℤ e'.current_chapter)

-- the library reads the same
abbrev pub SameLibrary : Tables → Tables → Type 0
SameLibrary t t' = (u m : String) → select_entry u m t' ≡ select_entry u m t

pub SameLibrary-Forward : (t t' : Tables) → SameLibrary t t' → Forward t t'
SameLibrary-Forward t t' same u m e held = (e, same u m ∙ held, omega arith)

pub Forward-trans : (t t' t'' : Tables) → Forward t t' → Forward t' t'' → Forward t t''
Forward-trans t t' t'' first second u m e held =
    let (e', held', step) = first u m e held in
    let (e'', held'', step') = second u m e' held' in (e'', held'', omega arith)

apart : (a b : String) → a == b ≡ false → a ≢ b
apart a b h e = ground (arith, h, (eq_iff a b).1 e)

module _ (user_id : String) (entry old : LibraryEntry) (s : Store)
    (held : select_entry user_id entry.manga_id s.tables ≡ some old)
    (ahead : old.current_chapter ≤ℤ entry.current_chapter) where
  abbrev after : Tables
  after = (upsert_library_entry user_id entry s).1.tables

  -- the entry that is upserted
  upsert-Forward_here :
      (e' : LibraryEntry) × (select_entry user_id entry.manga_id after ≡ some e')
      × (old.current_chapter ≤ℤ e'.current_chapter)
  upsert-Forward_here = elim (upsert_tables user_id entry s) [
    | inl same ↦ (old, ap (λ t. select_entry user_id entry.manga_id t) same ∙ held, omega arith)
    | inr (now, wrote) ↦ elim (upsert_progress_cases user_id entry now s.tables) [
      | inl (m, manga, done) ↦
          let e' : LibraryEntry = scan_entry m (stored user_id entry now s.tables) in
          let agrees = Agrees-stored user_id entry now s.tables m in
          (
            e',
            ap (λ t. select_entry user_id entry.manga_id t) (wrote ∙ ap (λ p. p.1) done)
                ∙ select_entry-upsert_row user_id entry now s.tables m manga,
            rw agrees.chapter ahead,
          )
      | inr (_, same, _) ↦
          (old, ap (λ t. select_entry user_id entry.manga_id t) (wrote ∙ same) ∙ held, omega arith)
    ]
  ]

  upsert-Forward_there :
      (u m : String) (e : LibraryEntry)
      → (u ≢ user_id) ⊎ (m ≢ entry.manga_id)
      → select_entry u m s.tables ≡ some e
      → (e' : LibraryEntry) × (select_entry u m after ≡ some e')
        × (e.current_chapter ≤ℤ e'.current_chapter)
  upsert-Forward_there u m e other found =
      (e, upsert_frame user_id entry s u m other ∙ found, omega arith)

  pub upsert-Forward : Forward s.tables after
  upsert-Forward u m e found = elim (Bool-cases (u == user_id)) [
    | inr other ↦ upsert-Forward_there u m e (inl (apart u user_id other)) found
    | inl mine ↦ elim (Bool-cases (m == entry.manga_id)) [
      | inr other ↦ upsert-Forward_there u m e (inr (apart m entry.manga_id other)) found
      | inl this ↦
          let u_same = (eq_iff u user_id).0 mine in
          let m_same = (eq_iff m entry.manga_id).0 this in
          let is_old : e ≡ old = ground (arith, held, (rw (u_same, m_same) at found)) in
          rw (u_same, m_same, is_old) upsert-Forward_here
    ]
  ]

-- what a chain of steps does, its first step having returned an error or a value
module _ {S A B : Type 0} (P : S → Type 0) where
  continue_after :
      (x : Result A × S) (f : A → Exec S B)
      → ((e : Error) → x ≡ (err e, x.1) → P x.1)
      → ((a : A) → x ≡ (ok a, x.1) → P (f a x.1).1)
      → P (continue x.0 f x.1).1
  continue_after (ok a, s) f stop go = go a refl
  continue_after (err e, s) f stop go = stop e refl

  bind_after :
      (m : Exec S A) (f : A → Exec S B) (s : S)
      → ((e : Error) → m s ≡ (err e, (m s).1) → P (m s).1)
      → ((a : A) → m s ≡ (ok a, (m s).1) → P (f a (m s).1).1)
      → P ((m >>= f) s).1
  bind_after m f s stop go = continue_after (m s) f stop go

  lift_after :
      (x : Result A) (f : A → Exec S B) (s : S)
      → P s
      → ((a : A) → x ≡ ok a → P (f a s).1)
      → P ((lift x >>= f) s).1
  lift_after (ok a) f s stop go = go a refl
  lift_after (err e) f s stop go = stop

module _ (r : Redis) (user_id : String) (req : UpdateProgressRequest) where
  require_manga-tables :
      (s : Service r) → (require_manga r req.manga_id s).1.store.tables ≡ s.store.tables
  unfolding require_manga in_store
  require_manga-tables s = get_manga_by_id-tables req.manga_id s.store

  require_entry-tables :
      (s : Service r) → (require_entry r user_id req.manga_id s).1.store.tables ≡ s.store.tables
  unfolding require_entry in_store
  require_entry-tables s = get_library_entry-tables user_id req.manga_id s.store

  save_progress-Forward :
      (manga : Manga) (old : LibraryEntry) (v : ℤ) (s : Service r)
      → select_entry user_id req.manga_id s.store.tables ≡ some old
      → old.current_chapter ≤ℤ req.current_chapter
      → Forward s.store.tables (save_progress r user_id req manga old v s).1.store.tables
  unfolding save_progress in_store progressed
  save_progress-Forward manga old v s held ahead =
      let wrote = upsert-Forward user_id (progressed old req v) old s.store held ahead in
      bind_after (λ s'. Forward s.store.tables s'.store.tables)
        (in_store r (upsert_library_entry user_id (progressed old req v))) _ s (λ e failed. wrote)
        (λ updated stored.
          let s₁ : Service r =
            (in_store r (upsert_library_entry user_id (progressed old req v)) s).1 in
          let s₂ : Service r = (invalidate r version_key s₁).1 in
          Forward-trans s.store.tables s₁.store.tables _ wrote (
            SameLibrary-Forward s₁.store.tables _ λ u m.
              select_entry-insert_progress_history (progress_record user_id old req v) s₂.store u m
              ∙ ap (λ x. select_entry u m x.tables) (store-invalidate r version_key s₁)))

  not_behind :
      (old : LibraryEntry)
      → req.force ≡ false
      → check_behind old req ≡ ok tt
      → old.current_chapter ≤ℤ req.current_chapter
  unfolding check_behind
  not_behind old unforced passed = ground arith

  still :
      (s s' : Service r) → s'.store.tables ≡ s.store.tables → Forward s.store.tables s'.store.tables
  still s s' same =
      SameLibrary-Forward s.store.tables s'.store.tables λ u m. ap (λ t. select_entry u m t) same

  -- the guards and the write, with the manga and the entry that were read
  guarded-Forward :
      (manga : Manga) (old : LibraryEntry) (s : Service r)
      → req.force ≡ false
      → select_entry user_id req.manga_id s.store.tables ≡ some old
      → Forward s.store.tables
          ((lift (check_total manga req)
              >> (lift (check_behind old req)
                  >> (lift (new_volume old req) >>= λ v. save_progress r user_id req manga old v)))
            s).1.store.tables
  guarded-Forward manga old s unforced held =
      let P : Service r → Type 0 = λ s'. Forward s.store.tables s'.store.tables in
      lift_after P (check_total manga req) _ s (still s s refl) λ _ total.
        lift_after P (check_behind old req) _ s (still s s refl) λ _ passed.
          lift_after P (new_volume old req) _ s (still s s refl)
            λ v volume. save_progress-Forward manga old v s held (not_behind old unforced passed)

  -- An update that is not forced, whatever it returns, takes no entry of any library away and no
  -- chapter back.
  pub update_progress-Forward :
      (s : Service r)
      → req.force ≡ false
      → Forward s.store.tables (update_progress r user_id req s).1.store.tables
  unfolding update_progress
  update_progress-Forward s unforced =
      let P : Service r → Type 0 = λ s'. Forward s.store.tables s'.store.tables in
      let s₁ : Service r = (require_manga r req.manga_id s).1 in
      let s₂ : Service r = (require_entry r user_id req.manga_id s₁).1 in
      let same₁ = require_manga-tables s in
      let same₂ = require_entry-tables s₁ in
      bind_after P (require_manga r req.manga_id) _ s (λ e failed. still s s₁ same₁)
        λ manga read.
          bind_after P (require_entry r user_id req.manga_id) _ s₁
            (λ e failed. still s s₂ (same₂ ∙ same₁))
            λ old found.
              Forward-trans s.store.tables s₂.store.tables _ (still s s₂ (same₂ ∙ same₁)) (
                guarded-Forward manga old s₂ unforced (
                  ap (λ t. select_entry user_id req.manga_id t) same₂
                  ∙ (require_entry-ok r user_id req.manga_id s₁ s₂ old found).0))
