-- ===== src/Store/Users.antt =====
-- pkg/database/user_repository.go
use manga_hub.Prelude.{
  String, List, [], ◌∷◌, ◌++◌, ◌==◌, if◌then◌else◌, Option, none, some, ok, err, new, no_rows, wrap,
  any, Result,
}
use manga_hub.Models.{User}
use manga_hub.Exec.{Exec, ◌>>◌}
use manga_hub.Store.Sql.{update_where}
use manga_hub.Store.Tables.{
  Tables, UserRow, Store, Statement, statement, not_unique, find_user, find_username,
}

-- a row found, or sql.ErrNoRows
abbrev scanned : {A : Type 0} → String → (UserRow → A) → Option UserRow → Tables → Result A × Tables
scanned label f none t = (err (wrap label no_rows), t)
scanned label f (some r) t = (ok (f r), t)

unfoldable pub get_user_by_id : String → Exec Store User
get_user_by_id user_id =
    statement "get user by id"
      (λ now t. scanned "get user by id" (λ r. r.user) (find_user user_id t.users) t)

unfoldable pub get_user_by_username : String → Exec Store User
get_user_by_username username =
    statement "get user by username"
      (λ now t. scanned "get user by username" (λ r. r.user) (find_username username t.users) t)

abbrev with_password : UserRow → User × String
with_password r = (r.user, r.password_hash)

unfoldable pub get_user_by_username_with_password : String → Exec Store (User × String)
get_user_by_username_with_password username =
    statement "get user by username"
      (λ now t. scanned "get user by username" with_password (find_username username t.users) t)

unfoldable pub get_user_by_id_with_password : String → Exec Store (User × String)
get_user_by_id_with_password user_id =
    statement "get user by id"
      (λ now t. scanned "get user by id" with_password (find_user user_id t.users) t)

-- INSERT INTO users: `id` is the primary key, `username` is UNIQUE
unfoldable pub insert_user : String → String → String → String → Statement (Unit {0})
insert_user user_id username email password_hash now t =
    if any (λ r. r.user.id == user_id) t.users
    then (err (wrap "create user" (not_unique "UNIQUE constraint failed: users.id")), t)
    else if any (λ r. r.user.username == username) t.users
    then (err (wrap "create user" (not_unique "UNIQUE constraint failed: users.username")), t)
    else (ok tt, record t { users = t.users ++ row ∷ [] })
  where
    row : UserRow
    row = record {
      user = record { id = user_id; username = username; email = email; created_at = now };
      password_hash = password_hash;
    }

unfoldable pub create_user : String → String → String → String → Exec Store User
create_user user_id username email password_hash = do
  statement "create user" (insert_user user_id username email password_hash)
  get_user_by_id user_id

unfoldable pub set_password : String → String → List UserRow → List UserRow
unfolding update_where
set_password user_id hash =
    update_where (λ r. r.user.id == user_id) (λ r. record r { password_hash = hash })

-- UPDATE users SET password_hash; no row affected is an error
unfoldable pub update_user_password : String → String → Exec Store (Unit {0})
unfolding set_password
update_user_password user_id hash = statement "update user password" λ now t.
    if any (λ r. r.user.id == user_id) t.users
    then (ok tt, record t { users = set_password user_id hash t.users })
    else (err (new "update user password: no rows affected"), t)
