-- ===== src/Tcp/Rules.antt =====
-- The rules for a progress message in internal/tcp/conn.go.
use manga_hub.Prelude.{
  ℤ, pos, lt_ℤ, eq_ℤ, String, false, not, ◌&&◌, ◌||◌, ◌==◌, if◌then◌else◌, Option, none, some,
  Result, ok, err, new, trim_space, to_lower, Unicode,
}
use manga_hub.Models.{Time, LibraryEntry, UpdateProgressRequest}
use manga_hub.Tcp.Messages.{ClientMessage, ServerMessage, blank_message}

-- the merge strategies and what a conflict is resolved to
unfoldable pub strategy : ⦃u : Unicode⦄ → ClientMessage → String
strategy msg =
    let s = to_lower (trim_space msg.strategy) in if s == "" then "last_write_wins" else s

-- a chapter behind the server's: nothing is written whatever the strategy
abbrev pub behind_resolution : String → String
behind_resolution strategy =
    if strategy == "user_choice" then "needs_user_choice" else "server_newer"

-- a server entry newer than the message
unfoldable pub newer_resolution : String → ClientMessage → LibraryEntry → String
newer_resolution strategy msg entry =
    if strategy == "merge" && lt_ℤ entry.current_chapter msg.chapter
    then "merged_forward"
    else if strategy == "merge"
    then "server_newer"
    else if strategy == "user_choice"
    then "needs_user_choice"
    else "server_newer"

-- whether that resolution is sent back
unfoldable pub stale_with : String → ClientMessage → LibraryEntry → Option String
unfolding newer_resolution
stale_with strategy msg entry =
    let resolution = newer_resolution strategy msg entry in
    if not (strategy == "merge")
      || (resolution == "server_newer" || resolution == "needs_user_choice")
    then some resolution
    else none

-- the resolution that is sent back in place of an update, if there is one
unfoldable pub conflict_with : String → ℤ → ClientMessage → LibraryEntry → Option String
unfolding stale_with
conflict_with strategy incoming msg entry =
    if lt_ℤ msg.chapter entry.current_chapter
    then some (behind_resolution strategy)
    else if lt_ℤ incoming entry.updated_at
    then stale_with strategy msg entry
    else none

-- the entry of a lookup that did not fail
unfoldable pub conflict_of : String → ℤ → ClientMessage → Result LibraryEntry → Option String
unfolding conflict_with
conflict_of strategy incoming msg (err _) = none
conflict_of strategy incoming msg (ok entry) = conflict_with strategy incoming msg entry

unfoldable pub conflict_message : String → ℤ → String → ClientMessage → Time → ServerMessage
conflict_message strategy incoming resolution msg now = record (blank_message "conflict" now) {
  request_id = msg.request_id;
  message = "conflict detected";
  conflict = some (record {
    strategy = strategy;
    timestamp = incoming;
    device_id = trim_space msg.device_id;
    resolution = resolution;
  });
}

-- the message's user, else the one that the connection said hello as
unfoldable pub progress_user : String → ClientMessage → String
progress_user greeted msg = let id = trim_space msg.user_id in if id == "" then greeted else id

unfoldable pub incoming_timestamp : Time → ClientMessage → ℤ
incoming_timestamp now msg = if eq_ℤ msg.timestamp (pos 0) then now else msg.timestamp

unfoldable pub progress_request : ClientMessage → UpdateProgressRequest
progress_request msg = record {
  manga_id = trim_space msg.manga_id;
  current_chapter = msg.chapter;
  current_volume = pos 0;
  status = (let s = trim_space msg.status in if s == "" then "reading" else s);
  notes = "";
  force = false;
}

-- the three checks of a progress message
unfoldable pub check_progress : String → ClientMessage → Result (Unit {0})
check_progress user_id msg =
    if user_id == ""
    then err (new "user_id is required")
    else if trim_space msg.manga_id == ""
    then err (new "manga_id is required")
    else if lt_ℤ msg.chapter (pos 0)
    then err (new "chapter must be >= 0")
    else ok tt
