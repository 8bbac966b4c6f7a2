-- ===== src/Auth.antt =====
-- internal/auth/service.go. bcrypt and JWT are libraries: their operations are those of a `Crypto`.
-- Times are nanoseconds. The mutex of the revoked tokens makes each operation on them one step:
-- `ParseToken` makes one, and `Logout` that and then another.
pub mod Revocation
use Prim.Native.String.{◌++◌ as str_append}
use manga_hub.Prelude.{
  ℕ, suc, ◌+◌, ◌-◌, ltb, ℤ, pos, negsuc, lt_ℤ, String, List, [], ◌∷◌, Bool, true, false,
  if◌then◌else◌, Option, none, some, Result, ok, err, Error, new, wrap, Map, lookup, put, drop,
}
use manga_hub.Models.{Time, User, RegisterRequest, LoginRequest}
use manga_hub.Exec.{Exec, pure, raise, lift, caught, or_raise, continue, replace_error, ◌>>=◌, ◌>>◌}
use manga_hub.Store.Tables.{Store}
use manga_hub.Store.Users.{
  get_user_by_username_with_password, get_user_by_id_with_password, create_user,
  update_user_password,
}

pub record Claims : Type 0 where
  pub user_id : String
  pub username : String
  pub expires_at : Option Time
  pub issued_at : Option Time
  pub subject : String

-- bcrypt with its source of randomness, HS256 signing, and ParseWithClaims at a time: the claims of
-- a token that is valid then
pub record Crypto : Type 0 where
  pub generate : String → String → Result String
  pub compare : String → String → Result (Unit {0})
  pub numeric_date : Time → Time
  pub sign : String → Claims → Result String
  pub verify : String → Time → String → Result Claims

-- the clock at its reads: by ParseWithClaims, by `isRevoked` under the mutex, and by `Logout` for a
-- token without an expiry
pub record Clocks : Type 0 where
  pub validated : Time
  pub checked : Time
  pub stored : Time

-- `models.AuthResponse`
pub record AuthResponse : Type 0 where
  pub token : String
  pub user : User

pub record AuthService : Type 0 where
  pub store : Store
  pub revoked : Map Time

abbrev add_nat : ℤ → ℕ → ℤ
add_nat (pos n) k = pos (n + k)
add_nat (negsuc n) k = if ltb n k then pos (k - suc n) else negsuc (n - k)

-- 24 * time.Hour
unfoldable pub a_day_after : Time → Time
a_day_after now = add_nat now 86400000000000

abbrev in_store : {A : Type 0} → Exec Store A → Exec AuthService A
in_store m s = ((m s.store).0, record s { store = (m s.store).1 })

abbrev pub wrapped : {A : Type 0} → String → Result A → Result A
wrapped label (ok a) = ok a
wrapped label (err e) = err (wrap label e)

abbrev absent : {A : Type 0} → Result A → Result (Unit {0})
absent (ok _) = err (new "username already exists")
absent (err _) = ok tt

-- the loop of `isRevoked` over the expired tokens
unfoldable pub purge : Time → Map Time → Map Time
purge now [] = []
purge now ((token, exp) ∷ m) =
    let rest = purge now m in if lt_ℤ exp now then rest else (token, exp) ∷ rest

unfoldable pub is_revoked : Time → String → Exec (Map Time) Bool
unfolding purge
is_revoked now token revoked =
    let purged = purge now revoked in
    elim (lookup token purged) [
      | none ↦ (ok false, purged)
      | some exp ↦ if lt_ℤ exp now then (ok false, drop token purged) else (ok true, purged)
    ]

module _ (crypto : Crypto) (secret : String) where
  -- `now` is the clock at its two reads, for the expiry and for the issue
  unfoldable pub issue_token : Time × Time → User → Result String
  unfolding a_day_after
  issue_token now user = wrapped "sign token" (
      crypto.sign secret (record {
        user_id = user.id;
        username = user.username;
        expires_at = some (crypto.numeric_date (a_day_after now.0));
        issued_at = some (crypto.numeric_date now.1);
        subject = user.id;
      }))

  -- `id` is fmt.Sprintf("user-%d", time.Now().UnixNano())
  unfoldable pub register :
      Time × Time → String → String → RegisterRequest → Exec AuthService AuthResponse
  unfolding issue_token
  register now id salt req = do
    found ← caught (in_store (get_user_by_username_with_password req.username))
    lift (absent found)
    hash ← lift (wrapped "hash password" (crypto.generate salt req.password))
    user ← in_store (create_user id req.username req.email hash)
    token ← lift (issue_token now user)
    pure (record { token = token; user = user })

  unfoldable pub login : Time × Time → LoginRequest → Exec AuthService AuthResponse
  unfolding issue_token
  login now req = do
    found ←
        or_raise (in_store (get_user_by_username_with_password req.username))
          (new "account not found")
    or_raise (lift (crypto.compare found.1 req.password)) (new "invalid credentials")
    token ← lift (issue_token now found.0)
    pure (record { token = token; user = found.0 })

  unfoldable pub change_password : String → String → String → String → Exec AuthService (Unit {0})
  change_password salt user_id current_password new_password = do
    found ← or_raise (in_store (get_user_by_id_with_password user_id)) (new "user not found")
    or_raise (lift (crypto.compare found.1 current_password)) (new "invalid current password")
    hash ← lift (wrapped "hash password" (crypto.generate salt new_password))
    in_store (update_user_password found.0.id hash)

  abbrev refuse : Claims → Result Bool × Map Time → Result Claims × Map Time
  refuse claims (ok true, revoked) = (err (new "invalid token"), revoked)
  refuse claims (ok false, revoked) = (ok claims, revoked)
  refuse claims (err e, revoked) = (err e, revoked)

  -- on the revoked tokens alone, at the moment of the mutex; the validation before it reads none
  unfoldable pub parse_token : Clocks → String → Exec (Map Time) Claims
  unfolding is_revoked
  parse_token clocks token revoked = elim (crypto.verify secret clocks.validated token) [
    | err e ↦ (err (new "invalid token"), revoked)
    | ok claims ↦ refuse claims (is_revoked clocks.checked token revoked)
  ]

  abbrev pub expiry : Time → Claims → Time
  expiry now claims = elim claims.expires_at [ none ↦ a_day_after now | some exp ↦ exp ]

  -- the second half of `Logout`, which takes the mutex again
  unfoldable pub revoke : Time → String → Claims → Map Time → Map Time
  unfolding a_day_after
  revoke now token claims revoked = put token (expiry now claims) revoked

  unfoldable pub logout : Clocks → String → Exec (Map Time) (Unit {0})
  unfolding parse_token revoke
  logout clocks token revoked =
      ((parse_token clocks token) >>= λ claims revoked'.
      (ok tt, revoke clocks.stored token claims revoked'))
        revoked
