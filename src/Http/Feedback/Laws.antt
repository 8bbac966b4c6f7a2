-- ===== src/Http/Feedback/Laws.antt =====
-- What the handlers on reviews answer, and which reviews they can change.
use manga_hub.Prelude.{
  String, List, [], ◌∷◌, false, ◌==◌, ◌≡◌, refl, ap, ◌∙◌, Option, find, any, Unicode, inl, inr,
  Bool-cases, arith, eq_iff, Option-cases, contains, to_lower,
}
use manga_hub.Models.{Review}
use manga_hub.Exec.{Exec, pure, caught}
use manga_hub.Exec.Keeps.{Keeps, Keeps-bind, Keeps-pure}
use manga_hub.Store.Sql.{update_where}
use manga_hub.Store.Tables.{Store, Tables, statement}
use manga_hub.Store.Tables.Keeps.{On, Keeps-statement}
use manga_hub.Store.Reviews.{
  is_review, add_helpful, increment_helpful, increment_review_helpful, get_review,
}
use manga_hub.Cache.{Redis, Service, in_store, invalidate}
use manga_hub.User.Progress.{store-invalidate}
use manga_hub.ReviewService
use manga_hub.ReviewService.{version_key}
use manga_hub.Http.Requests.{
  Request, refuse, current_user_id, missing_or, mentions, is_not_found, error_text,
}
use manga_hub.Http.Feedback.{mark_review_helpful}

add_helpful-other :
    (me author manga_id id : String) (rows : List Review)
    → (author == me) ≡ false
    → find (is_review me id) (add_helpful author manga_id rows) ≡ find (is_review me id) rows
unfolding add_helpful find update_where
add_helpful-other me author manga_id id [] other = refl
add_helpful-other me author manga_id id (x ∷ xs) other = ground (
  arith,
  add_helpful-other me author manga_id id xs other,
  eq_iff x.user_id me,
  eq_iff x.user_id author,
  eq_iff author me,
)

module _ (me id : String) (target : Option Review) where
  -- the review of `me` on `id` is `target`
  abbrev Stays : Tables → Type 0
  Stays t = find (is_review me id) t.reviews ≡ target

  increment_helpful-Stays :
      (author manga_id : String)
      → (author == me) ≡ false
      → Keeps (On Stays) (statement "increment review helpful" (increment_helpful author manga_id))
  unfolding increment_helpful
  increment_helpful-Stays author manga_id other = Keeps-statement Stays _ _ λ now t h.
      elim (Bool-cases (any (is_review author manga_id) t.reviews)) [
        | inl found ↦ rw found (add_helpful-other me author manga_id id t.reviews other ∙ h)
        | inr missing ↦ rw missing h
      ]

  get_review-Stays : (author manga_id : String) → Keeps (On Stays) (get_review author manga_id)
  unfolding get_review
  get_review-Stays author manga_id = Keeps-statement Stays _ _ λ now t h.
      elim (Option-cases (find (is_review author manga_id) t.reviews)) [
        | inl missing ↦ rw missing h
        | inr (x, found) ↦ rw found h
      ]

  increment_review_helpful-Stays :
      (author manga_id : String)
      → (author == me) ≡ false
      → Keeps (On Stays) (increment_review_helpful author manga_id)
  unfolding increment_review_helpful
  increment_review_helpful-Stays author manga_id other =
      Keeps-bind _ _ (increment_helpful-Stays author manga_id other)
        (λ _. get_review-Stays author manga_id)

  module _ (r : Redis) where
    abbrev Within : Service r → Type 0
    Within s = Stays s.store.tables

    in_store-Within :
        {A : Type 0} (m : Exec Store A) → Keeps (On Stays) m → Keeps Within (in_store r m)
    unfolding in_store
    in_store-Within m k = record { after = λ s h. k.after s.store h }

    invalidate-Within : (key : String) → Keeps Within (invalidate r key)
    invalidate-Within key = record {
      after =
          λ s h. ap (λ x. find (is_review me id) x.tables.reviews) (store-invalidate r key s) ∙ h;
    }

    increment_helpful-Within :
        (author manga_id : String)
        → (author == me) ≡ false
        → Keeps Within (ReviewService.increment_helpful r author manga_id)
    unfolding ReviewService.increment_helpful
    increment_helpful-Within author manga_id other =
        Keeps-bind (in_store r (increment_review_helpful author manga_id)) _
          (in_store-Within _ (increment_review_helpful-Stays author manga_id other))
          (λ item.
            Keeps-bind (caught (invalidate r version_key)) (λ _. pure item)
              (record { after = (invalidate-Within version_key).after }) (λ _. Keeps-pure item))

module _ (quote : String → String) ⦃u : Unicode⦄ (r : Redis) where
  -- Whatever a request asks, it leaves every review of the user who sends it as it is: nobody raises
  -- the helpful count of a review of their own.
  pub mark_review_helpful-own :
      (c : Request) (s : Service r) (id : String)
      → find
          (is_review (current_user_id c) id)
          (mark_review_helpful quote r c s).1.store.tables.reviews
        ≡ find (is_review (current_user_id c) id) s.store.tables.reviews
  unfolding mark_review_helpful
  mark_review_helpful-own c s id = elim (Bool-cases (current_user_id c == "")) [
    | inl nobody ↦ rw nobody refl
    | inr somebody ↦ elim (Bool-cases (c.param "user_id" == "")) [
      | inl blank ↦ rw (somebody, blank) refl
      | inr author ↦ elim (Bool-cases (c.param "user_id" == current_user_id c)) [
        | inl own ↦ rw (somebody, author, own) refl
        | inr other ↦
            rw (somebody, author, other)
              ((increment_helpful-Within (current_user_id c) id
                  (find (is_review (current_user_id c) id) s.store.tables.reviews) r
                  (c.param "user_id") (c.param "id") other).after
                s refl)
      ]
    ]
  ]

  -- Where there is no review to vote for, and the database answers, the answer is 500.
  pub mark_review_helpful-missing :
      (c : Request) (s : Service r)
      → (current_user_id c == "") ≡ false
      → (c.param "user_id" == "") ≡ false
      → (c.param "user_id" == current_user_id c) ≡ false
      → (s.store.driver 0).fails ≡ false
      → any (is_review (c.param "user_id") (c.param "id")) s.store.tables.reviews ≡ false
      → (mark_review_helpful quote r c s).0 ≡ refuse 500 "failed to update helpful count"
  unfolding mark_review_helpful ReviewService.increment_helpful in_store increment_review_helpful
      increment_helpful statement missing_or is_not_found mentions error_text contains to_lower
  mark_review_helpful-missing c s somebody author other answers missing =
      rw (somebody, author, other) (rw (answers, missing) refl)
