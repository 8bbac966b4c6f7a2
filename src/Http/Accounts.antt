-- ===== src/Http/Accounts.antt =====
-- The handlers of auth_handler.go, and the middleware of internal/auth/middleware.go, which runs in
-- front of the protected routes (internal/api/router/router.go).
pub mod Laws
use Prim.Native.Char.{Char, code}
use Prim.Native.String
use manga_hub.Prelude.{
  eqb, String, List, Bool, ◌==◌, ◌&&◌, ◌||◌, ◌⊎◌, inl, inr, if◌then◌else◌, Option, none, some,
  Result, ok, err, Error, Map, Unicode, trim_space, to_lower,
}
use manga_hub.Models.{RegisterRequest, LoginRequest, ChangePasswordRequest, Time}
use manga_hub.Exec.{Exec, caught}
use manga_hub.Auth.{
  Crypto, Claims, Clocks, AuthService, AuthResponse, register, login, logout, change_password,
  parse_token,
}
use manga_hub.Http.Requests.{
  Value, text, Request, Response, Body, error_body, message_body, auth_body, reply, refuse, answer,
  as_string, error_text, mentions,
}

-- strings.SplitN(header, " ", 2): the part before the first space and the one after it, if there is
-- one
unfoldable pub split_space : String → Option (String × String)
split_space String.[] = none
split_space (String.◌∷◌ c s) =
    let rest = split_space s in
    if eqb (code c) 32
    then some ("", s)
    else elim rest [ none ↦ none | some (a, b) ↦ some (String.◌∷◌ c a, b) ]

-- strings.EqualFold on "Bearer": the simple folding of ASCII letters; of the other characters only
-- the Kelvin sign and the long s fold to ASCII, to letters that "Bearer" does not have
abbrev pub is_bearer : ⦃u : Unicode⦄ → String → Bool
is_bearer s = to_lower s == "bearer"

-- what the middleware sets in the context
unfoldable pub with_claims : Claims → String → Request → Request
with_claims claims token c = record c { values = values }
  where
    values : String → Option Value
    values key =
        if key == "user_id"
        then some (text claims.user_id)
        else if key == "username"
        then some (text claims.username)
        else if key == "token"
        then some (text token)
        else c.values key

module _ (quote : String → String) ⦃u : Unicode⦄ (crypto : Crypto) (secret : String) where
  -- the methods on the revoked tokens alone
  abbrev on_revoked : {A : Type 0} → Exec (Map Time) A → Exec AuthService A
  on_revoked m s = ((m s.revoked).0, record s { revoked = (m s.revoked).1 })

  -- a refusal, or the request that the handler gets
  unfoldable pub middleware : Clocks → Request → AuthService → (Response ⊎ Request) × AuthService
  unfolding split_space with_claims
  middleware clocks c s =
      if c.header "Authorization" == ""
      then (inl (refuse 401 "missing authorization header"), s)
      else elim (split_space (c.header "Authorization")) [
        | none ↦ (inl (refuse 401 "invalid authorization header"), s)
        | some (scheme, token) ↦
            if is_bearer scheme
            then admit token (on_revoked (parse_token crypto secret clocks token) s)
            else (inl (refuse 401 "invalid authorization header"), s)
      ]
    where
      admit : String → Result Claims × AuthService → (Response ⊎ Request) × AuthService
      admit token (err e, s') = (inl (refuse 401 "invalid token"), s')
      admit token (ok claims, s') = (inr (with_claims claims token c), s')

  abbrev registered : Result AuthResponse → Response
  registered (ok response) = reply 201 (auth_body response)
  registered (err e) =
      if mentions quote "exists" e
      then refuse 409 (error_text quote e)
      else refuse 400 (error_text quote e)

  unfoldable pub register_account :
      Time × Time → String → String → Result RegisterRequest → AuthService → Response × AuthService
  unfolding mentions error_text
  register_account now id salt (err e) s = (refuse 400 (error_text quote e), s)
  register_account now id salt (ok req) s =
      answer (register crypto secret now id salt req) registered s

  abbrev logged_in : Result AuthResponse → Response
  logged_in (ok response) = reply 200 (auth_body response)
  logged_in (err e) = refuse 401 (error_text quote e)

  unfoldable pub login_account :
      Time × Time → Result LoginRequest → AuthService → Response × AuthService
  unfolding error_text
  login_account now (err e) s = (refuse 400 (error_text quote e), s)
  login_account now (ok req) s = answer (login crypto secret now req) logged_in s

  -- a string of the context that is not blank
  unfoldable pub context_text : String → Request → Option String
  context_text key c = elim (as_string (c.values key)) [
    | none ↦ none
    | some s ↦ if trim_space s == "" then none else some s
  ]

  abbrev logged_out : Result (Unit {0}) → Response
  logged_out (ok _) = reply 200 (message_body "logged out")
  logged_out (err e) = refuse 401 "invalid token"

  unfoldable pub logout_account : Clocks → Request → AuthService → Response × AuthService
  unfolding context_text
  logout_account clocks c s = elim (context_text "token" c) [
    | none ↦ (refuse 401 "invalid token", s)
    | some token ↦ answer (on_revoked (logout crypto secret clocks token)) logged_out s
  ]

  -- once the password is changed the token is revoked, whatever comes of that
  abbrev changed : Clocks → String → Result (Unit {0}) × AuthService → Response × AuthService
  changed clocks token (ok _, s) = (
    reply 200 (message_body "password changed successfully"),
    (on_revoked (logout crypto secret clocks token) s).1,
  )
  changed clocks token (err e, s) = (
    refuse (if mentions quote "invalid current password" e then 401 else 400) (error_text quote e),
    s,
  )

  unfoldable pub change_account_password :
      Clocks
      → String
      → Request
      → Result ChangePasswordRequest
      → AuthService
      → Response × AuthService
  unfolding context_text mentions error_text
  change_account_password clocks salt c (err e) s = (refuse 400 (error_text quote e), s)
  change_account_password clocks salt c (ok req) s = elim (context_text "user_id" c) [
    | none ↦ (refuse 401 "invalid token", s)
    | some user_id ↦ elim (context_text "token" c) [
      | none ↦ (refuse 401 "invalid token", s)
      | some token ↦
          changed clocks token
            (change_password crypto secret salt user_id req.current_password req.new_password s)
    ]
  ]
