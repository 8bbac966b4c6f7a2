-- ===== src/Store/Tables.antt =====
-- pkg/database/schema_repository.go: the tables of the schema, and how a statement reaches them.
-- The SQLite driver is not the repository's: whether a statement fails in it, and what
-- CURRENT_TIMESTAMP reads, are inputs, one `Tick` for each statement.
pub mod Keeps
use manga_hub.Prelude.{
  ℤ, pos, String, List, [], Bool, ◌==◌, if◌then◌else◌, Option, ℕ, suc, err, Error, failure, wrap,
  Result, find,
}
use manga_hub.Models.{Time, User, Manga, Review, ProgressHistoryEntry, PrivateMessage}
use manga_hub.Exec.{Exec}

pub record UserRow : Type 0 where
  pub user : User
  pub password_hash : String

-- `rating` and `started_at` are nullable columns
pub record ProgressRow : Type 0 where
  pub user_id : String
  pub manga_id : String
  pub current_chapter : ℤ
  pub current_volume : ℤ
  pub status : String
  pub rating : Option ℤ
  pub started_at : Option Time
  pub notes : String
  pub updated_at : Time

pub record ChatRow : Type 0 where
  pub id : String
  pub user_id : String
  pub username : String
  pub room_id : String
  pub message : String
  pub created_at : Time

pub record PrivateRow : Type 0 where
  pub id : String
  pub message : PrivateMessage

-- Each table in the order of its row ids; `history_seq` is the history's AUTOINCREMENT counter.
pub record Tables : Type 0 where
  pub users : List UserRow
  pub manga : List Manga
  pub user_progress : List ProgressRow
  pub user_progress_history : List ProgressHistoryEntry
  pub history_seq : ℤ
  pub reviews : List Review
  pub chat_messages : List ChatRow
  pub private_messages : List PrivateRow

abbrev pub empty_tables : Tables
empty_tables = record {
  users = [];
  manga = [];
  user_progress = [];
  user_progress_history = [];
  history_seq = pos 0;
  reviews = [];
  chat_messages = [];
  private_messages = [];
}

-- What the driver does with one statement: an error with its text, or the execution at a time.
pub record Tick : Type 0 where
  pub fails : Bool
  pub why : String
  pub time : Time

pub record Store : Type 0 where
  pub tables : Tables
  pub driver : ℕ → Tick

-- the store once the driver has taken a statement
abbrev pub advance : Store → Store
advance s = record s { driver = λ n. s.driver (suc n) }

abbrev pub Statement : Type 0 → Type 0
Statement A = Time → Tables → Result A × Tables

-- A statement that the driver refuses changes nothing; its error is wrapped in `label`.
unfoldable pub statement : {A : Type 0} → String → Statement A → Exec Store A
statement label body s =
    let tick = s.driver 0 in
    if tick.fails
    then (err (wrap label (failure tick.why)), advance s)
    else ((body tick.time s.tables).0, record (advance s) { tables = (body tick.time s.tables).1 })

-- a violated `FOREIGN KEY … REFERENCES`, and a violated UNIQUE or PRIMARY KEY
abbrev pub foreign_key : Error
foreign_key = failure "FOREIGN KEY constraint failed"

abbrev pub not_unique : String → Error
not_unique column = failure column

unfoldable pub find_user : String → List UserRow → Option UserRow
find_user id = find (λ r. r.user.id == id)

unfoldable pub find_username : String → List UserRow → Option UserRow
find_username name = find (λ r. r.user.username == name)

unfoldable pub find_manga : String → List Manga → Option Manga
find_manga id = find (λ m. m.id == id)
