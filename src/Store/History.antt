-- ===== src/Store/History.antt =====
-- pkg/database/progress_repository.go
use manga_hub.Prelude.{
  suc_ℤ, le_ℤ, String, List, [], ◌∷◌, ◌++◌, Bool, ◌==◌, ◌&&◌, ◌||◌, none, some, ok, err, wrap, keep,
}
use manga_hub.Prelude.Sorting.{sort_by}
use manga_hub.Models.{ProgressHistoryEntry}
use manga_hub.Exec.{Exec}
use manga_hub.Store.Tables.{Store, Statement, statement, foreign_key, find_user, find_manga}

-- `id` and `created_at` are the columns that the database fills in
unfoldable pub insert_history : ProgressHistoryEntry → Statement (Unit {0})
insert_history entry now t = elim (find_user entry.user_id t.users) [
  | none ↦ (err (wrap "insert progress history" foreign_key), t)
  | some u ↦ elim (find_manga entry.manga_id t.manga) [
    | none ↦ (err (wrap "insert progress history" foreign_key), t)
    | some m ↦ (
      ok tt,
      record t {
        user_progress_history =
            t.user_progress_history
            ++ record entry { id = suc_ℤ t.history_seq; created_at = now } ∷ [];
        history_seq = suc_ℤ t.history_seq;
      },
    )
  ]
]

unfoldable pub insert_progress_history : ProgressHistoryEntry → Exec Store (Unit {0})
insert_progress_history entry = statement "insert progress history" (insert_history entry)

-- WHERE user_id = ? [AND manga_id = ?]
abbrev pub in_history : String → String → ProgressHistoryEntry → Bool
in_history user_id manga_id e = e.user_id == user_id && (manga_id == "" || e.manga_id == manga_id)

-- ORDER BY created_at DESC
abbrev pub created_later : ProgressHistoryEntry → ProgressHistoryEntry → Bool
created_later a b = le_ℤ b.created_at a.created_at

unfoldable pub get_progress_history : String → String → Exec Store (List ProgressHistoryEntry)
get_progress_history user_id manga_id = statement "get progress history" λ now t.
    (ok (sort_by created_later (keep (in_history user_id manga_id) t.user_progress_history)), t)
