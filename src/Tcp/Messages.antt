-- ===== src/Tcp/Messages.antt =====
-- internal/tcp/types.go, and the switch of handleMessage.
use manga_hub.Prelude.{
  ℤ, pos, String, ◌==◌, if◌then◌else◌, Option, none, trim_space, to_lower, Unicode,
}
use manga_hub.Models.{Time, ProgressUpdate, ConflictResolution}

pub record ClientMessage : Type 0 where
  pub type : String
  pub request_id : String
  pub user_id : String
  pub manga_id : String
  pub chapter : ℤ
  pub status : String
  pub timestamp : ℤ
  pub device_id : String
  pub strategy : String
  pub progress : Option ProgressUpdate

pub record ServerMessage : Type 0 where
  pub type : String
  pub request_id : String
  pub message : String
  pub error : String
  pub progress : Option ProgressUpdate
  pub conflict : Option ConflictResolution
  pub session_id : String
  pub username : String
  pub user_id : String
  pub devices : ℤ
  pub connected_at : ℤ
  pub timestamp : ℤ

-- `serverMessage{Type: type, Timestamp: now}`
abbrev pub blank_message : String → Time → ServerMessage
blank_message type now = record {
  type = type;
  request_id = "";
  message = "";
  error = "";
  progress = none;
  conflict = none;
  session_id = "";
  username = "";
  user_id = "";
  devices = pos 0;
  connected_at = pos 0;
  timestamp = now;
}

-- the cases of the switch on the type
pub data Kind : Type 0 where
  hello ping health progress progress_broadcast disconnect unsupported : Kind

unfoldable pub kind : ⦃u : Unicode⦄ → String → Kind
kind type =
    let t = to_lower (trim_space type) in
    if t == "hello"
    then hello
    else if t == "ping"
    then ping
    else if t == "health"
    then health
    else if t == "progress"
    then progress
    else if t == "progress_broadcast"
    then progress_broadcast
    else if t == "disconnect"
    then disconnect
    else unsupported
