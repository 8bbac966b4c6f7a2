-- ===== src/Http/Feedback.antt =====
-- The handlers of review_handler.go.
pub mod Laws
use manga_hub.Prelude.{
  ℤ, String, List, Bool, ◌==◌, ◌||◌, if◌then◌else◌, Option, none, some, Result, ok, err, Error,
  Unicode, trim_space, to_lower,
}
use manga_hub.Models.{Review, CreateReviewRequest, Time}
use manga_hub.Cache.{Redis, Service}
use manga_hub.ReviewService
use manga_hub.Http.Requests.{
  Request, Response, Body, error_body, review_body, review_items_body, reply, refuse, answer,
  current_user_id, error_text, missing_or,
}
use manga_hub.Http.Limits.{query_limit}
use manga_hub.Http.Titles.{or_default}

-- the query's `sort`, which is "recent" where it has none
abbrev pub query_sort : ⦃u : Unicode⦄ → Request → String
query_sort c = to_lower (trim_space (or_default "recent" (c.query "sort")))

module _ (quote : String → String) ⦃u : Unicode⦄ (r : Redis) where
  abbrev listed : Result (List Review) → Response
  listed (ok items) = reply 200 (review_items_body items)
  listed (err e) = missing_or quote "manga not found" "failed to fetch reviews" e

  unfoldable pub list_reviews : (String → String) → Request → Service r → Response × Service r
  unfolding query_limit missing_or
  list_reviews digest c s = elim (query_limit c) [
    | none ↦ (refuse 400 "invalid limit", s)
    | some limit ↦
        if query_sort c == "recent" || query_sort c == "helpful"
        then answer (ReviewService.list_reviews r digest (c.param "id") limit (query_sort c)) listed
            s
        else (refuse 400 "invalid sort", s)
  ]

  abbrev saved : Result Review → Response
  saved (ok item) = reply 200 (review_body item)
  saved (err e) = missing_or quote "manga not found" "failed to save review" e

  unfoldable pub upsert_review :
      Time → Request → Result CreateReviewRequest → Service r → Response × Service r
  unfolding missing_or error_text current_user_id
  upsert_review now c (err e) s = (refuse 400 (error_text quote e), s)
  upsert_review now c (ok req) s =
      if current_user_id c == ""
      then (refuse 401 "missing user id", s)
      else answer (ReviewService.upsert_review r now (current_user_id c) (c.param "id") req) saved s

  abbrev mine : Result Review → Response
  mine (ok item) = reply 200 (review_body item)
  mine (err e) = missing_or quote "review not found" "failed to fetch review" e

  unfoldable pub get_my_review : Request → Service r → Response × Service r
  unfolding missing_or current_user_id
  get_my_review c s =
      if current_user_id c == ""
      then (refuse 401 "missing user id", s)
      else answer (ReviewService.get_review r (current_user_id c) (c.param "id")) mine s

  abbrev pub counted : Result Review → Response
  counted (ok item) = reply 200 (review_body item)
  counted (err e) = missing_or quote "review not found" "failed to update helpful count" e

  unfoldable pub mark_review_helpful : Request → Service r → Response × Service r
  unfolding missing_or current_user_id
  mark_review_helpful c s =
      if current_user_id c == ""
      then (refuse 401 "missing user id", s)
      else if c.param "user_id" == ""
      then (refuse 400 "review user id required", s)
      else if c.param "user_id" == current_user_id c
      then (refuse 400 "cannot vote helpful on your own review", s)
      else answer (ReviewService.increment_helpful r (c.param "user_id") (c.param "id")) counted s
