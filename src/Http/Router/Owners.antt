-- ===== src/Http/Router/Owners.antt =====
-- The routes that write to a library write to that of the token's user.
use manga_hub.Prelude.{
  ℤ, String, Bool, true, false, ◌==◌, ◌≡◌, refl, ap, ◌∙◌, inl, inr, some, Result, ok, err, Unicode,
  Bool-cases, trim_space, arith,
}
use manga_hub.Models.{UpdateLibraryRequest}
use manga_hub.Store.Listing.{Sqlite}
use manga_hub.Store.Library.{select_entry}
use manga_hub.Cache.{Redis, Service}
use manga_hub.Auth.{Crypto, Claims, parse_token}
use manga_hub.Http.Requests.{Request, current_user_id}
use manga_hub.Http.Members
use manga_hub.Http.Accounts.{middleware, split_space, with_claims}
use manga_hub.Http.Accounts.Laws.{middleware-admits}
use manga_hub.Http.Router.{
  Protected, Outside, Api, logout, change_password, rooms_users, room_users, room_history, get_me,
  get_library, get_progress_history, remove_from_library, send_pm, add_to_library, update_progress,
  update_library, create_manga, update_manga, delete_manga, get_my_review, mark_review_helpful,
  upsert_review, handle, serve_protected, accounts, account,
}
use manga_hub.Http.Router.Laws.{middleware-store, refused}
use manga_hub.Http.Router.Library.{
  Untouched, add_to_library-Untouched, update_progress-Untouched, remove_from_library-Untouched,
  update_library-Untouched,
}

-- the routes that write to a library
abbrev pub writes_library : Protected → Bool
writes_library remove_from_library = true
writes_library (add_to_library _) = true
writes_library (update_progress _) = true
writes_library (update_library _) = true
writes_library _ = false

module _ (quote : String → String) ⦃u : Unicode⦄ (r : Redis) (c : Request) (other id : String)
    (apart : (current_user_id c == other) ≡ false) (s : Service r) where
  -- what the library of `other` has of the manga in the state `s`
  abbrev Same : Service r → Type 0
  Same s' = Untouched (current_user_id c) other id (select_entry other id s.store.tables) apart r s'

  removing : Same (Members.remove_from_library quote r c s).1
  unfolding Members.remove_from_library
  removing = elim (Bool-cases (trim_space (c.param "id") == "")) [
    | inl blank ↦ rw (blank, Members.remove_from_library) refl
    | inr given ↦
        rw (given, Members.remove_from_library)
          ((remove_from_library-Untouched (current_user_id c) other id _ apart r
              (c.param "id")).after
            s refl)
  ]

  relabelling : (body : Result UpdateLibraryRequest) → Same (Members.relabel quote r c body s).1
  relabelling (err e) = refl
  relabelling (ok req) =
      (update_library-Untouched (current_user_id c) other id _ apart r (c.param "id") req).after s
        refl

  updating : (body : Result UpdateLibraryRequest) → Same (Members.update_library quote r c body s).1
  unfolding Members.update_library
  updating body = elim (Bool-cases (trim_space (c.param "id") == "")) [
    | inl blank ↦ rw (blank, Members.update_library) refl
    | inr given ↦ rw (given, Members.update_library) (relabelling body)
  ]

module _ (r : Redis) (quote : String → String) ⦃u : Unicode⦄ (crypto : Crypto) (secret : String)
    (hundredths : String → ℤ) (sql : Sqlite) (digest : String → String) where
  handle-others :
      (o : Outside) (call : Protected) (c : Request) (s : Api r) (other id : String)
      → writes_library call ≡ true
      → (current_user_id c == other) ≡ false
      → select_entry other id
          (handle r quote crypto secret hundredths sql digest o call c s).2.service.store.tables
        ≡ select_entry other id s.service.store.tables
  unfolding handle Members.add_to_library Members.update_progress
  handle-others o remove_from_library c s other id w apart =
      removing quote r c other id apart s.service
  handle-others o (add_to_library (err e)) c s other id w apart = refl
  handle-others o (add_to_library (ok req)) c s other id w apart =
      (add_to_library-Untouched (current_user_id c) other id _ apart r req).after s.service refl
  handle-others o (update_progress (err e)) c s other id w apart = refl
  handle-others o (update_progress (ok req)) c s other id w apart =
      (update_progress-Untouched (current_user_id c) other id _ apart r req).after s.service refl
  handle-others o (update_library body) c s other id w apart =
      updating quote r c other id apart s.service body
  handle-others o logout c s other id w apart = ground arith
  handle-others o (change_password body) c s other id w apart = ground arith
  handle-others o rooms_users c s other id w apart = ground arith
  handle-others o room_users c s other id w apart = ground arith
  handle-others o room_history c s other id w apart = ground arith
  handle-others o get_me c s other id w apart = ground arith
  handle-others o get_library c s other id w apart = ground arith
  handle-others o get_progress_history c s other id w apart = ground arith
  handle-others o (send_pm body) c s other id w apart = ground arith
  handle-others o (create_manga body) c s other id w apart = ground arith
  handle-others o (update_manga body) c s other id w apart = ground arith
  handle-others o delete_manga c s other id w apart = ground arith
  handle-others o get_my_review c s other id w apart = ground arith
  handle-others o mark_review_helpful c s other id w apart = ground arith
  handle-others o (upsert_review body) c s other id w apart = ground arith

  -- A request to one of the four routes that write to a library leaves each entry of each user's
  -- library as it is, but for the user of its token: for a user whom no valid token in its header
  -- names, nothing changes, whatever the request asks and whatever fails.
  pub serve_protected-others :
      (o : Outside) (call : Protected) (c : Request) (s : Api r) (other id : String)
      → writes_library call ≡ true
      → ((scheme token : String) (claims : Claims)
          → split_space (c.header "Authorization") ≡ some (scheme, token)
          → (parse_token crypto secret o.admitted token s.revoked).0 ≡ ok claims
          → (claims.user_id == other) ≡ false)
      → select_entry other id
          (serve_protected r quote crypto secret hundredths sql digest o call c
            s).2.service.store.tables
        ≡ select_entry other id s.service.store.tables
  unfolding serve_protected
  serve_protected-others o call c s other id w apart =
      elim (middleware-admits crypto secret quote o.admitted c (accounts r s)) [
        | inl (why, refusal) ↦
            ap (λ x. select_entry other id x.store.tables)
              (refused r quote crypto secret hundredths sql digest o call c s why refusal).2
        | inr (scheme, token, claims, split, valid, passed, user, bearer) ↦
            rw (passed, serve_protected)
              (handle-others o call (with_claims claims token c)
                  (account r (middleware quote crypto secret o.admitted c (accounts r s)).1 s) other
                  id w (ap (λ k. k == other) user ∙ apart scheme token claims split valid)
                ∙ ap (λ x. select_entry other id x.tables)
                    (middleware-store quote crypto secret o.admitted c (accounts r s)))
      ]
