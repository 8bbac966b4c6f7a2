-- ===== src/ReviewService.antt =====
-- internal/review: service.go and cache.go. The hexadecimal SHA-1 of a text is the parameter
-- `digest`; `now` is time.Now().Unix().
use manga_hub.Prelude.{
  ℤ, pos, lt_ℤ, String, List, [], ◌∷◌, ◌||◌, if◌then◌else◌, Option, none, some, Result, ok, err,
  new, itoa, join, trim_space,
}
use manga_hub.Models.{Review, CreateReviewRequest, Time}
use manga_hub.Exec.{Exec, pure, caught, ◌>>=◌, ◌>>◌}
use manga_hub.Store.Catalog.{get_manga_by_id}
use manga_hub.Store.Reviews
use manga_hub.Store.Reviews.{list_reviews_by_manga, increment_review_helpful}
use manga_hub.Cache.{
  Redis, Service, Payload, a_review, review_list, in_store, invalidate, version, read_through,
}

abbrev pub version_key : String
version_key = "cache:v1:review:version"

-- 2 * 60, which is passed as a `time.Duration`: nanoseconds
abbrev pub review_cache_ttl : ℤ
review_cache_ttl = pos 120

abbrev read_review : Payload → Option Review
read_review (a_review item) = some item
read_review _ = none

abbrev read_review_list : Payload → Option (List Review)
read_review_list (review_list items) = some items
read_review_list _ = none

unfoldable pub validate_review_rating : ℤ → Result (Unit {0})
validate_review_rating rating =
    if lt_ℤ rating (pos 1) || lt_ℤ (pos 10) rating
    then err (new "rating must be between 1 and 10")
    else ok tt

-- the row that `UpsertReview` writes
unfoldable pub written : Time → String → String → CreateReviewRequest → Review
written now user_id manga_id req = record {
  user_id = user_id;
  manga_id = manga_id;
  rating = req.rating;
  text = req.text;
  timestamp = now;
  helpful = pos 0;
}

unfoldable pub list_material : String → ℤ → String → String
list_material manga_id limit sort =
    join ("manga=" ∷ trim_space manga_id ∷ "|limit=" ∷ itoa limit ∷ "|sort=" ∷ trim_space sort ∷ [])

module _ (r : Redis) where
  unfoldable pub review_key : String → String → Exec (Service r) String
  review_key user_id manga_id = do
    v ← version r version_key
    pure (
        join (
          "cache:v1:review:mine:v"
          ∷ itoa v
          ∷ ":"
          ∷ trim_space user_id
          ∷ ":"
          ∷ trim_space manga_id
          ∷ []))

  unfoldable pub list_key : (String → String) → String → ℤ → String → Exec (Service r) String
  unfolding list_material
  list_key digest manga_id limit sort = do
    v ← version r version_key
    pure (
        join (
          "cache:v1:review:list:v"
          ∷ itoa v
          ∷ ":"
          ∷ digest (list_material manga_id limit sort)
          ∷ []))

  unfoldable pub upsert_review :
      Time → String → String → CreateReviewRequest → Exec (Service r) Review
  unfolding written
  upsert_review now user_id manga_id req = do
    in_store r (get_manga_by_id manga_id)
    item ← in_store r (Reviews.upsert_review (written now user_id manga_id req))
    caught (invalidate r version_key)
    pure item

  unfoldable pub get_review : String → String → Exec (Service r) Review
  unfolding review_key
  get_review user_id manga_id =
      read_through r read_review a_review review_cache_ttl (review_key user_id manga_id)
        (in_store r (Reviews.get_review user_id manga_id))

  unfoldable pub list_reviews :
      (String → String) → String → ℤ → String → Exec (Service r) (List Review)
  unfolding list_key
  list_reviews digest manga_id limit sort = do
    in_store r (get_manga_by_id manga_id)
    read_through r read_review_list review_list review_cache_ttl
        (list_key digest manga_id limit sort)
        (in_store r (list_reviews_by_manga manga_id limit sort))

  unfoldable pub increment_helpful : String → String → Exec (Service r) Review
  increment_helpful user_id manga_id = do
    item ← in_store r (increment_review_helpful user_id manga_id)
    caught (invalidate r version_key)
    pure item
