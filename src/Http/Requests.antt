-- ===== src/Http/Requests.antt =====
-- What the handlers of internal/api/handler ask of a request and answer to it; `isNotFound` of
-- base_handler.go, `currentUserID` of user_handler.go and pkg/utils/http.go. The verb %q is the
-- parameter `quote`.
use Prim.Native.String.{◌++◌ as str_append}
use manga_hub.Prelude.{
  ℕ, ℤ, String, List, [], ◌∷◌, Bool, ◌||◌, if◌then◌else◌, Option, none, some, Result, Error,
  no_rows, failure, new, panic, wrap, not_in_library, chapter_exceeds, chapter_behind,
  volume_behind, unsupported_type, unsupported_source, both_failed, itoa, join, contains, to_lower,
  Unicode,
}
use manga_hub.Models.{User, Manga, LibraryEntry, ProgressHistoryEntry, Review, ChatMessage, Time}
use manga_hub.Auth.{AuthResponse}
use manga_hub.Exec.{Exec}

-- a value of the context: a string, or of another type
pub data Value : Type 0 where
  text : String → Value
  other : Value

-- `c.Get`, `c.Param`, the query's first value of a key, and `c.GetHeader`
pub record Request : Type 0 where
  pub values : String → Option Value
  pub param : String → String
  pub query : String → Option String
  pub header : String → String

-- `gin.H` of `buildReadingLists`
pub record ReadingLists : Type 0 where
  pub reading : List LibraryEntry
  pub completed : List LibraryEntry
  pub plan_to_read : List LibraryEntry
  pub on_hold : List LibraryEntry
  pub dropped : List LibraryEntry

-- what the handler `UpdateProgress` answers
pub record ProgressReply : Type 0 where
  pub manga_id : String
  pub title : String
  pub previous_chapter : ℤ
  pub current_chapter : ℤ
  pub previous_volume : ℤ
  pub current_volume : ℤ
  pub updated_at : Time
  pub total_chapters : ℤ
  pub notes : String
  pub status : String

-- one room of `RoomsUsers`
pub record RoomReply : Type 0 where
  pub room : String
  pub count : ℕ
  pub users : List (String × String)

pub data Body : Type 0 where
  error_body : String → Body
  message_body : String → Body
  user_body : User → Body
  auth_body : AuthResponse → Body
  entry_body : LibraryEntry → Body
  library_body : List LibraryEntry → ReadingLists → Body
  history_body : List ProgressHistoryEntry → Body
  progress_body : ProgressReply → Body
  manga_body : Manga → Body
  manga_items_body : List Manga → Body
  review_body : Review → Body
  review_items_body : List Review → Body
  rooms_body : List RoomReply → ℕ → Body
  room_users_body : List (String × String × String) → ℕ → Body
  room_history_body : String → ℤ → List ChatMessage → Body
  sent_body : String → Body

pub record Response : Type 0 where
  pub status : ℕ
  pub body : Body

-- utils.OK and utils.Error
abbrev pub reply : ℕ → Body → Response
reply status body = record { status = status; body = body }

abbrev pub refuse : ℕ → String → Response
refuse status message = record { status = status; body = error_body message }

-- err.Error()
module _ (quote : String → String) where
  unfoldable pub error_text : Error → String
  error_text no_rows = "sql: no rows in result set"
  error_text (failure t) = t
  error_text (new t) = t
  error_text (panic t) = t
  error_text (wrap label e) = str_append label (str_append ": " (error_text e))
  error_text (not_in_library id) = join ("manga '" ∷ id ∷ "' not found in your library" ∷ [])
  error_text (chapter_exceeds chapter total) =
      join ("chapter " ∷ itoa chapter ∷ " exceeds manga's total chapters (" ∷ itoa total ∷ ")" ∷ [])
  error_text (chapter_behind chapter current) = join (
      "chapter "
      ∷ itoa chapter
      ∷ " is behind your current progress (chapter "
      ∷ itoa current
      ∷ ")"
      ∷ [])
  error_text (volume_behind volume current) = join (
      "volume "
      ∷ itoa volume
      ∷ " is behind your current progress (volume "
      ∷ itoa current
      ∷ ")"
      ∷ [])
  error_text (unsupported_type t) = str_append "unsupported message type " (quote t)
  error_text (unsupported_source t) = str_append "unsupported source " (quote t)
  error_text (both_failed e f) =
      join ("fetch mangadex: " ∷ error_text e ∷ "; fallback jikan: " ∷ error_text f ∷ [])

  module _ ⦃u : Unicode⦄ where
    -- strings.Contains(strings.ToLower(err.Error()), part)
    unfoldable pub mentions : String → Error → Bool
    unfolding error_text
    mentions part e = contains (to_lower (error_text e)) part

    -- `isNotFound`; nothing here returns http.ErrMissingFile
    unfoldable pub is_not_found : Error → Bool
    unfolding mentions
    is_not_found e = mentions "no rows" e

    -- 404 for an error that mentions no rows, 500 otherwise
    unfoldable pub missing_status : Error → ℕ
    unfolding is_not_found
    missing_status e = if is_not_found e then 404 else 500

    -- and for one that mentions "not found"
    unfoldable pub absent_status : Error → ℕ
    unfolding is_not_found mentions
    absent_status e = if is_not_found e || mentions "not found" e then 404 else 500

    -- 404 where no row was found, and 500 with a text of the handler's otherwise
    unfoldable pub missing_or : String → String → Error → Response
    unfolding is_not_found
    missing_or missing failed e = if is_not_found e then refuse 404 missing else refuse 500 failed

abbrev pub as_string : Option Value → Option String
as_string (some (text s)) = some s
as_string (some other) = none
as_string none = none

-- `c.Get("user_id")`, and `c.Get("userID")` where that is not set
unfoldable pub current_user_id : Request → String
current_user_id c = id_of (elim (c.values "user_id") [ none ↦ c.values "userID" | some v ↦ some v ])
  where
    id_of : Option Value → String
    id_of (some (text id)) = id
    id_of (some other) = ""
    id_of none = ""

-- a handler that answers the result of a service's method
abbrev pub answer {ℓ} : {S A : Type ℓ} → Exec S A → (Result A → Response) → S → Response × S
answer m respond s = (respond (m s).0, (m s).1)
