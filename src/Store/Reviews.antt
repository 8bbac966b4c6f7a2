-- ===== src/Store/Reviews.antt =====
-- pkg/database/review_repository.go
use manga_hub.Prelude.{
  ℤ, pos, pos_part, lt_ℤ, le_ℤ, eq_ℤ, suc_ℤ, String, List, Bool, ◌==◌, ◌&&◌, ◌||◌, if◌then◌else◌,
  none, some, ok, err, new, no_rows, wrap, any, find, keep, take,
}
use manga_hub.Prelude.Sorting.{sort_by}
use manga_hub.Models.{Review}
use manga_hub.Exec.{Exec, ◌>>◌}
use manga_hub.Store.Sql.{upsert, update_where}
use manga_hub.Store.Tables.{Store, Statement, statement, foreign_key, find_user, find_manga}

-- the primary key (user_id, manga_id)
abbrev pub is_review : String → String → Review → Bool
is_review user_id manga_id r = r.user_id == user_id && r.manga_id == manga_id

-- a new row has `helpful` 0; ON CONFLICT DO UPDATE SET keeps the old row's `helpful`
unfoldable pub upsert_review_row : Review → List Review → List Review
unfolding upsert
upsert_review_row x =
    upsert (is_review x.user_id x.manga_id)
      (λ r. record r { rating = x.rating; text = x.text; timestamp = x.timestamp })
      (record x { helpful = pos 0 })

unfoldable pub insert_review : Review → Statement (Unit {0})
unfolding upsert_review_row
insert_review x now t = elim (find_user x.user_id t.users) [
  | none ↦ (err (wrap "upsert review" foreign_key), t)
  | some u ↦ elim (find_manga x.manga_id t.manga) [
    | none ↦ (err (wrap "upsert review" foreign_key), t)
    | some m ↦ (ok tt, record t { reviews = upsert_review_row x t.reviews })
  ]
]

unfoldable pub get_review : String → String → Exec Store Review
get_review user_id manga_id = statement "get review" λ now t.
    elim (find (is_review user_id manga_id) t.reviews) [
      | none ↦ (err (wrap "get review" no_rows), t)
      | some r ↦ (ok r, t)
    ]

unfoldable pub upsert_review : Review → Exec Store Review
upsert_review review = do
  statement "upsert review" (insert_review review)
  get_review review.user_id review.manga_id

-- the limits of `ListReviewsByManga`
unfoldable pub review_limit : ℤ → ℤ
review_limit limit = if le_ℤ limit (pos 0) || lt_ℤ (pos 200) limit then pos 50 else limit

-- ORDER BY timestamp DESC, and ORDER BY helpful DESC, timestamp DESC
unfoldable pub review_order : String → Review → Review → Bool
review_order sort_by a b =
    if sort_by == "helpful"
    then lt_ℤ b.helpful a.helpful || (eq_ℤ a.helpful b.helpful && le_ℤ b.timestamp a.timestamp)
    else le_ℤ b.timestamp a.timestamp

unfoldable pub list_reviews_by_manga : String → ℤ → String → Exec Store (List Review)
unfolding review_limit review_order
list_reviews_by_manga manga_id limit sort = statement "list reviews" λ now t. (
  ok (
      take (pos_part (review_limit limit))
        (sort_by (review_order sort) (keep (λ r. r.manga_id == manga_id) t.reviews))),
  t,
)

unfoldable pub add_helpful : String → String → List Review → List Review
unfolding update_where
add_helpful user_id manga_id =
    update_where (is_review user_id manga_id) (λ r. record r { helpful = suc_ℤ r.helpful })

unfoldable pub increment_helpful : String → String → Statement (Unit {0})
unfolding add_helpful
increment_helpful user_id manga_id now t =
    if any (is_review user_id manga_id) t.reviews
    then (ok tt, record t { reviews = add_helpful user_id manga_id t.reviews })
    else (err (new "review not found"), t)

unfoldable pub increment_review_helpful : String → String → Exec Store Review
increment_review_helpful user_id manga_id = do
  statement "increment review helpful" (increment_helpful user_id manga_id)
  get_review user_id manga_id
