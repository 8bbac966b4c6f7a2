-- ===== src/Http/Router/Laws.antt =====
-- Which calls change the store.
use manga_hub.Prelude.{
  ℤ, String, Bool, true, false, ◌==◌, ◌≡◌, ◌≢◌, refl, ap, inl, inr, none, some, ok, Unicode,
  Bool-cases, Option-cases, Result-cases,
}
use manga_hub.Exec.Keeps.{Keeps}
use manga_hub.Store.Tables.{Tables, Store}
use manga_hub.Store.Listing.{Sqlite, list_manga as query_manga}
use manga_hub.Cache.{Redis}
use manga_hub.Cache.Reads.{Reads}
use manga_hub.MangaService
use manga_hub.ReviewService
use manga_hub.Auth.{Crypto, Claims, AuthService, Clocks, login as log_in, parse_token}
use manga_hub.Http.Requests.{Request, refuse}
use manga_hub.Http.Accounts.{split_space, is_bearer, middleware}
use manga_hub.Http.Titles
use manga_hub.Http.Feedback
use manga_hub.Http.Accounts.Laws.{middleware-admits}
use manga_hub.Http.Router.{
  Public, Protected, register, login, list_manga, get_manga, list_reviews, Outside, Api, accounts,
  serve_protected,
}

module _ (t : Tables) where
  -- the tables are those of the start
  abbrev Same : Tables → Type 0
  Same x = x ≡ t

  abbrev Still : AuthService → Type 0
  Still s = s.store.tables ≡ t

abbrev pub is_registration : Public → Bool
is_registration (register _) = true
is_registration (login _) = false
is_registration list_manga = false
is_registration get_manga = false
is_registration list_reviews = false

-- the middleware does not touch the store
pub middleware-store :
    (quote : String → String) ⦃u : Unicode⦄ (crypto : Crypto) (secret : String) (now : Clocks)
    (c : Request) (s : AuthService)
    → (middleware quote crypto secret now c s).1.store ≡ s.store
unfolding middleware
middleware-store quote crypto secret now c s = elim (Bool-cases (c.header "Authorization" == "")) [
  | inl missing ↦ rw missing refl
  | inr given ↦ elim (Option-cases (split_space (c.header "Authorization"))) [
    | inl one ↦ rw (given, one) refl
    | inr ((scheme, token), split) ↦ elim (Bool-cases (is_bearer scheme)) [
      | inr basic ↦ rw (given, split, basic) refl
      | inl bearer ↦ elim (Result-cases (parse_token crypto secret now token s.revoked).0) [
        | inl (claims, valid) ↦ rw (given, split, bearer) (rw (valid, middleware) refl)
        | inr (e, invalid) ↦ rw (given, split, bearer) (rw (invalid, middleware) refl)
      ]
    ]
  ]
]

module _ (r : Redis) (quote : String → String) ⦃u : Unicode⦄ (crypto : Crypto)
    (secret : String) where
  module _ (hundredths : String → ℤ) (sql : Sqlite) (digest : String → String) where
    pub refused :
        (o : Outside) (call : Protected) (c : Request) (s : Api r) (why : String)
        → (middleware quote crypto secret o.admitted c (accounts r s)).0 ≡ inl (refuse 401 why)
        → ((serve_protected r quote crypto secret hundredths sql digest o call c s).0
            ≡ refuse 401 why)
          × ((serve_protected r quote crypto secret hundredths sql digest o call c s).1 ≡ none)
          × ((serve_protected r quote crypto secret hundredths sql digest o call c s).2.service
              ≡ s.service)
    unfolding serve_protected
    refused o call c s why h =
        rw (h, serve_protected)
          (
            refl,
            refl,
            ap (λ x. record s.service { store = x })
                (middleware-store quote crypto secret o.admitted c (accounts r s)),
          )

    -- A request whose header carries no token that is valid and not revoked changes nothing on a
    -- route behind the middleware: it is answered 401, nothing is sent, and the store and the cache
    -- stay as they are.
    pub serve_protected-tokenless :
        (o : Outside) (call : Protected) (c : Request) (s : Api r)
        → ((scheme token : String) (claims : Claims)
            → split_space (c.header "Authorization") ≡ some (scheme, token)
            → (parse_token crypto secret o.admitted token s.revoked).0 ≢ ok claims)
        → ((why : String) × ((serve_protected r quote crypto secret hundredths sql digest o call c
                s).0
              ≡ refuse 401 why))
          × ((serve_protected r quote crypto secret hundredths sql digest o call c s).1 ≡ none)
          × ((serve_protected r quote crypto secret hundredths sql digest o call c s).2.service
              ≡ s.service)
    serve_protected-tokenless o call c s none_valid =
        elim (middleware-admits crypto secret quote o.admitted c (accounts r s)) [
          | inl (why, refusal) ↦
              let (answered, unsent, kept) = refused o call c s why refusal in
              ((why, answered), unsent, kept)
          | inr (scheme, token, claims, split, valid, passed, user, bearer) ↦
              absurd (none_valid scheme token claims split valid)
        ]
