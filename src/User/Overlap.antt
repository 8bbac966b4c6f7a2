-- ===== src/User/Overlap.antt =====
-- Two updates of one entry that overlap. `UpdateProgress` has no transaction: what it writes rests on
-- the entry that its guards read before.
use mathlib.Core.Path.{subst}
use manga_hub.Prelude.{◌<ℤ◌, String, ◌≡◌, ok, some, ℤ}
use manga_hub.Models.{Manga, LibraryEntry, UpdateProgressRequest, ProgressUpdateResult}
use manga_hub.Store.Library.{select_entry}
use manga_hub.Store.Schema.{IsValid}
use manga_hub.Cache.{Redis, Service}
use manga_hub.User.{save_progress, update_progress}
use manga_hub.User.Progress.{update_progress_sound, save_progress-stores}

-- If an update `fast` of an entry succeeds after the guards of an update `slow` of that entry, whose
-- chapter is smaller, and before its write, then the write of `slow`, when it succeeds, takes the
-- chapter back: the guards do not see what `fast` stored. The two are of one user and one manga, and
-- the tables are valid before each.
pub overlap_goes_back :
    (r : Redis) (user_id : String) (slow fast : UpdateProgressRequest) (manga : Manga)
    (old : LibraryEntry) (volume : ℤ) (s s₁ s₂ : Service r)
    (fast_result slow_result : ProgressUpdateResult)
    → slow.manga_id ≡ fast.manga_id
    → slow.current_chapter <ℤ fast.current_chapter
    → IsValid s.store.tables
    → IsValid s₁.store.tables
    → update_progress r user_id fast s ≡ (ok fast_result, s₁)
    → save_progress r user_id slow manga old volume s₁ ≡ (ok slow_result, s₂)
    → (between last : LibraryEntry) × (select_entry user_id fast.manga_id s₁.store.tables
        ≡ some between)
      × (select_entry user_id fast.manga_id s₂.store.tables ≡ some last)
      × (last.current_chapter <ℤ between.current_chapter)
overlap_goes_back r user_id slow fast manga old volume s s₁ s₂ fast_result slow_result same less
      valid valid₁ ran wrote =
    let done = update_progress_sound r user_id fast s s₁ fast_result valid ran in
    let (stored, chapter) =
      save_progress-stores r user_id slow manga old volume s₁ s₂ slow_result valid₁ wrote in
    (
      fast_result.entry,
      slow_result.entry,
      done.stored,
      subst (λ m. select_entry user_id m s₂.store.tables ≡ some slow_result.entry) same stored,
      rw (chapter, done.chapter) less,
    )
