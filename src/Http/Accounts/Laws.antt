-- ===== src/Http/Accounts/Laws.antt =====
-- Which requests pass the middleware.
use manga_hub.Prelude.{
  ◌≤ℤ◌, ◌<ℤ◌, to_lower, String, List, true, false, ◌==◌, ◌≡◌, refl, ap, ◌∙◌, ◌⊎◌, inl, inr, some,
  ok, err, Error, new, Map, Unicode, All, Bool-cases, Option-cases, Result-cases,
}
use manga_hub.Models.{Time}
use manga_hub.Auth.{Crypto, Claims, AuthService, Clocks, parse_token, revoke}
use manga_hub.Auth.Revocation.{Lawful, Event, Possible, run, logout_revokes}
use manga_hub.Http.Requests.{Request, refuse, current_user_id}
use manga_hub.Http.Accounts.{split_space, with_claims, middleware, is_bearer}

module _ ⦃u : Unicode⦄ (crypto : Crypto) (secret : String) where
  middleware-refused :
      (quote : String → String) (now : Clocks) (c : Request) (s : AuthService)
      (scheme token : String) (e : Error)
      → (c.header "Authorization" == "") ≡ false
      → split_space (c.header "Authorization") ≡ some (scheme, token)
      → is_bearer scheme ≡ true
      → (parse_token crypto secret now token s.revoked).0 ≡ err e
      → (middleware quote crypto secret now c s).0 ≡ inl (refuse 401 "invalid token")
  unfolding middleware
  middleware-refused quote now c s scheme token e given split bearer invalid =
      rw (given, split, bearer) (rw (invalid, middleware) refl)

  middleware-admitted :
      (quote : String → String) (now : Clocks) (c : Request) (s : AuthService)
      (scheme token : String) (claims : Claims)
      → (c.header "Authorization" == "") ≡ false
      → split_space (c.header "Authorization") ≡ some (scheme, token)
      → is_bearer scheme ≡ true
      → (parse_token crypto secret now token s.revoked).0 ≡ ok claims
      → (middleware quote crypto secret now c s).0 ≡ inr (with_claims claims token c)
  unfolding middleware
  middleware-admitted quote now c s scheme token claims given split bearer valid =
      rw (given, split, bearer) (rw (valid, middleware) refl)

  -- A request is answered 401, or it goes on to its handler with the user of the claims of its
  -- token: the header names the scheme Bearer, in any case, and the token parses.
  pub middleware-admits :
      (quote : String → String) (now : Clocks) (c : Request) (s : AuthService)
      → ((why : String) × ((middleware quote crypto secret now c s).0 ≡ inl (refuse 401 why)))
        ⊎ ((scheme token : String) × (claims : Claims) × (split_space (c.header "Authorization")
              ≡ some (scheme, token))
            × ((parse_token crypto secret now token s.revoked).0 ≡ ok claims)
            × ((middleware quote crypto secret now c s).0 ≡ inr (with_claims claims token c))
            × (current_user_id (with_claims claims token c) ≡ claims.user_id)
            × ((to_lower scheme == "bearer") ≡ true))
  unfolding middleware current_user_id with_claims
  middleware-admits quote now c s = elim (Bool-cases (c.header "Authorization" == "")) [
    | inl missing ↦ inl ("missing authorization header", rw missing refl)
    | inr given ↦ elim (Option-cases (split_space (c.header "Authorization"))) [
      | inl one ↦ inl ("invalid authorization header", rw (given, one) refl)
      | inr ((scheme, token), split) ↦ elim (Bool-cases (is_bearer scheme)) [
        | inr basic ↦ inl ("invalid authorization header", rw (given, split, basic) refl)
        | inl bearer ↦ elim (Result-cases (parse_token crypto secret now token s.revoked).0) [
          | inr (e, invalid) ↦ inl (
            "invalid token",
            middleware-refused quote now c s scheme token e given split bearer invalid,
          )
          | inl (claims, valid) ↦ inr (
            scheme,
            token,
            claims,
            split,
            valid,
            middleware-admitted quote now c s scheme token claims given split bearer valid,
            refl,
            bearer,
          )
        ]
      ]
    ]
  ]

  -- With a JWT library that does what it documents, a request with a bearer token that has an expiry
  -- time and that a Logout has revoked is answered 401, whatever further steps were made on the
  -- revoked tokens, if the validation reads a clock that is past the expiry, or if neither its own
  -- check nor a check before it reads a clock that is.
  pub middleware-logged_out :
      (quote : String → String) (out clocks : Clocks) (exp : Time) (token scheme : String)
      (claims : Claims) (m₀ m : Map Time)
      → (es : List Event) (c : Request) (s : AuthService) → Lawful crypto secret
      → (parse_token crypto secret out token m₀).0 ≡ ok claims
      → claims.expires_at ≡ some exp
      → (exp <ℤ clocks.validated) ⊎ ((clocks.checked ≤ℤ exp) × All (Possible crypto secret exp) es)
      → s.revoked ≡ run crypto secret es (revoke crypto secret out.stored token claims m)
      → (c.header "Authorization" == "") ≡ false
      → split_space (c.header "Authorization") ≡ some (scheme, token)
      → (to_lower scheme == "bearer") ≡ true
      → (middleware quote crypto secret clocks c s).0 ≡ inl (refuse 401 "invalid token")
  middleware-logged_out quote out clocks exp token scheme claims m₀ m es c s jwt parsed expiring
        when ran given split bearer =
      middleware-refused quote clocks c s scheme token (new "invalid token") given split bearer (
        ap (λ x. (parse_token crypto secret clocks token x).0) ran
        ∙ (logout_revokes crypto secret out clocks exp token claims m₀ m es jwt parsed expiring
            when).1)
