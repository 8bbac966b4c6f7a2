-- ===== src/Chat/Laws.antt =====
-- What a chat connection puts into the hub's channels.
use manga_hub.Prelude.{String, false, ◌==◌, ◌≡◌, if◌then◌else◌, trim_space}
use manga_hub.Auth.{Claims}
use manga_hub.Store.Tables.{Store}
use manga_hub.Hub.{ClientConnection}
use manga_hub.Chat.{Call, register, unregister, broadcast, client}

-- a call that speaks for its own user in its own room, or takes its own connection out
abbrev pub Own : ClientConnection → Call → Type 0
Own client (register c) = ⊥
Own client (unregister gone) = gone ≡ client.conn
Own client (broadcast m) =
    (m.room_id ≡ client.room_id)
    × (m.message.user_id ≡ client.user_id)
    × (m.message.username ≡ client.username)
    × ((trim_space m.message.message == "") ≡ false)

-- the connection of a token's user, in the room that the query names or in "general"
abbrev pub connection : String → Claims → String → ClientConnection
connection name claims room = record {
  conn = name;
  user_id = claims.user_id;
  username = claims.username;
  room_id = if room == "" then "general" else room;
}
