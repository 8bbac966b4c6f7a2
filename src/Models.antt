-- ===== src/Models.antt =====
-- pkg/models: the values that the services exchange. A `time.Time` is its Unix second, and the
-- zero `time.Time` is `zero_time`. A manga's `float64` rating is a number of hundredths.
use manga_hub.Prelude.{ℤ, pos, negsuc, String, List, Bool}

abbrev pub Time : Type 0
Time = ℤ

-- January 1, year 1, 00:00:00 UTC
abbrev pub zero_time : Time
zero_time = negsuc 62135596799

pub record User : Type 0 where
  pub id : String
  pub username : String
  pub email : String
  pub created_at : Time

pub record Manga : Type 0 where
  pub id : String
  pub title : String
  pub author : String
  pub genres : List String
  pub status : String
  pub year : ℤ
  pub rating : ℤ
  pub popularity : ℤ
  pub total_chapters : ℤ
  pub description : String
  pub cover_url : String

pub record LibraryEntry : Type 0 where
  pub user_id : String
  pub manga_id : String
  pub title : String
  pub current_chapter : ℤ
  pub current_volume : ℤ
  pub status : String
  pub updated_at : Time
  pub rating : ℤ
  pub started_at : Time
  pub notes : String

-- `models.LibraryEntry{}`
abbrev pub blank_entry : LibraryEntry
blank_entry = record {
  user_id = "";
  manga_id = "";
  title = "";
  current_chapter = pos 0;
  current_volume = pos 0;
  status = "";
  updated_at = zero_time;
  rating = pos 0;
  started_at = zero_time;
  notes = "";
}

pub record AddLibraryRequest : Type 0 where
  pub manga_id : String
  pub current_chapter : ℤ
  pub current_volume : ℤ
  pub status : String
  pub rating : ℤ
  pub notes : String

pub record UpdateProgressRequest : Type 0 where
  pub manga_id : String
  pub current_chapter : ℤ
  pub current_volume : ℤ
  pub status : String
  pub notes : String
  pub force : Bool

pub record UpdateLibraryRequest : Type 0 where
  pub status : String
  pub rating : ℤ

pub record ProgressHistoryEntry : Type 0 where
  pub id : ℤ
  pub user_id : String
  pub manga_id : String
  pub previous_chapter : ℤ
  pub current_chapter : ℤ
  pub previous_volume : ℤ
  pub current_volume : ℤ
  pub notes : String
  pub created_at : Time

pub record ProgressUpdateResult : Type 0 where
  pub entry : LibraryEntry
  pub previous_chapter : ℤ
  pub previous_volume : ℤ
  pub total_chapters : ℤ
  pub manga_title : String

pub record Review : Type 0 where
  pub user_id : String
  pub manga_id : String
  pub rating : ℤ
  pub text : String
  pub timestamp : ℤ
  pub helpful : ℤ

pub record CreateReviewRequest : Type 0 where
  pub rating : ℤ
  pub text : String

pub record ProgressUpdate : Type 0 where
  pub user_id : String
  pub manga_id : String
  pub chapter : ℤ
  pub timestamp : ℤ

pub record Notification : Type 0 where
  pub type : String
  pub client_id : String
  pub manga_id : String
  pub message : String
  pub timestamp : ℤ

pub record ChatMessage : Type 0 where
  pub user_id : String
  pub username : String
  pub message : String
  pub timestamp : ℤ

pub record PrivateMessage : Type 0 where
  pub sender_id : String
  pub sender_username : String
  pub recipient_id : String
  pub recipient_username : String
  pub message : String
  pub timestamp : ℤ

pub record ConflictResolution : Type 0 where
  pub strategy : String
  pub timestamp : ℤ
  pub device_id : String
  pub resolution : String

pub record RegisterRequest : Type 0 where
  pub username : String
  pub password : String
  pub email : String

pub record LoginRequest : Type 0 where
  pub username : String
  pub password : String

-- the fields of `models.Manga`, to which the code converts it
abbrev pub CreateMangaRequest : Type 0
CreateMangaRequest = Manga

pub record UpdateMangaRequest : Type 0 where
  pub title : String
  pub author : String
  pub genres : List String
  pub status : String
  pub year : ℤ
  pub rating : ℤ
  pub popularity : ℤ
  pub total_chapters : ℤ
  pub description : String
  pub cover_url : String

pub record SearchFilters : Type 0 where
  pub genres : List String
  pub status : String
  pub year_range : ℤ × ℤ
  pub rating : ℤ
  pub sort_by : String

pub record MangaQuery : Type 0 where
  pub query : String
  pub filters : SearchFilters
  pub limit : ℤ
  pub page : ℤ

pub record SendPmRequest : Type 0 where
  pub recipient_username : String
  pub message : String

pub record ChangePasswordRequest : Type 0 where
  pub current_password : String
  pub new_password : String
