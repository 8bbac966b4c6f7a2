-- ===== src/Store/Schema.antt =====
-- The constraints of the schema (schema_repository.go) as an invariant of the tables: primary and
-- unique keys, and foreign keys. The children show that every repository method keeps it.
pub mod Rules
pub mod Cascades
pub mod Keeps
pub mod Calls
use manga_hub.Prelude.{String, List, Bool, true, ◌≡◌, any, All}
use manga_hub.Models.{User, Manga, Review, ProgressHistoryEntry}
use manga_hub.Store.Sql.Keys.{at, Distinct, string_eq, pair_eq}
use manga_hub.Store.Tables.{Tables, UserRow, ProgressRow, ChatRow, PrivateRow}

abbrev pub user_key : UserRow → String
user_key r = r.user.id

abbrev pub name_key : UserRow → String
name_key r = r.user.username

abbrev pub manga_key : Manga → String
manga_key m = m.id

abbrev pub progress_key : ProgressRow → String × String
progress_key r = (r.user_id, r.manga_id)

abbrev pub review_key : Review → String × String
review_key r = (r.user_id, r.manga_id)

abbrev pub chat_key : ChatRow → String
chat_key r = r.id

abbrev pub private_key : PrivateRow → String
private_key r = r.id

abbrev pub HasUser : List UserRow → String → Type 0
HasUser users id = any (at user_key id) users ≡ true

abbrev pub HasManga : List Manga → String → Type 0
HasManga ms id = any (at manga_key id) ms ≡ true

-- FOREIGN KEY (user_id) and FOREIGN KEY (manga_id)
abbrev pub RefersTo : List UserRow → List Manga → String → String → Type 0
RefersTo users ms user_id manga_id = HasUser users user_id × HasManga ms manga_id

abbrev pub ProgressValid : List UserRow → List Manga → List ProgressRow → Type 0
ProgressValid users ms rows =
    Distinct progress_key rows × All (λ r. RefersTo users ms r.user_id r.manga_id) rows

abbrev pub HistoryValid : List UserRow → List Manga → List ProgressHistoryEntry → Type 0
HistoryValid users ms rows = All (λ e. RefersTo users ms e.user_id e.manga_id) rows

abbrev pub ReviewsValid : List UserRow → List Manga → List Review → Type 0
ReviewsValid users ms rows =
    Distinct review_key rows × All (λ r. RefersTo users ms r.user_id r.manga_id) rows

abbrev pub ChatsValid : List UserRow → List ChatRow → Type 0
ChatsValid users rows = Distinct chat_key rows × All (λ r. HasUser users r.user_id) rows

abbrev pub PrivateValid : List UserRow → List PrivateRow → Type 0
PrivateValid users rows =
    Distinct private_key rows
    × All (λ r. HasUser users r.message.sender_id × HasUser users r.message.recipient_id) rows

pub record IsValid (t : Tables) : Type 0 where
  pub user_ids : Distinct user_key t.users
  pub usernames : Distinct name_key t.users
  pub manga_ids : Distinct manga_key t.manga
  pub progress : ProgressValid t.users t.manga t.user_progress
  pub history : HistoryValid t.users t.manga t.user_progress_history
  pub reviews : ReviewsValid t.users t.manga t.reviews
  pub chats : ChatsValid t.users t.chat_messages
  pub privates : PrivateValid t.users t.private_messages
