-- ===== src/Chat.antt =====
-- internal/websocket/handler.go: the life of one chat connection. What the socket reads is a list of
-- results, of which the first error ends the loop; what goes to the hub's channels is a list of
-- calls. The upgrade of the connection is a parameter.
pub mod Laws
use manga_hub.Prelude.{
  ℕ, suc, String, List, [], ◌∷◌, Bool, ◌==◌, if◌then◌else◌, Option, none, some, Result, ok, err,
  Error, Map, trim_space,
}
use manga_hub.Models.{ChatMessage, Time}
use manga_hub.Auth.{Crypto, Claims, Clocks, parse_token}
use manga_hub.Store.Tables.{Store}
use manga_hub.ChatService.{save_message}
use manga_hub.Hub.{ClientConnection, RoomMessage}
use manga_hub.Http.Requests.{Request, Response, refuse}
use manga_hub.Http.Limits.{or_empty}

-- what a connection puts into the hub's channels
pub data Call : Type 0 where
  register : ClientConnection → Call
  unregister : String → Call
  broadcast : RoomMessage → Call

-- time.Now() at a message, and the clock in its id
pub record Clock : Type 0 where
  pub seconds : Time
  pub nanos : String

abbrev pub room_of : Request → String
room_of c = let room = or_empty (c.query "room") in if room == "" then "general" else room

unfoldable pub client : String → Claims → String → ClientConnection
client conn claims room = record {
  conn = conn;
  user_id = claims.user_id;
  username = claims.username;
  room_id = room;
}

unfoldable pub chat_message : Claims → Time → String → ChatMessage
chat_message claims now text = record {
  user_id = claims.user_id;
  username = claims.username;
  message = text;
  timestamp = now;
}

-- The loop over what the socket reads. `chat` says whether there is a chat service; an error of
-- `SaveMessage` is only logged. A list that runs out is a socket that waits.
unfoldable pub listen :
    Bool → Claims → String → String → (ℕ → Clock) → List (Result String) → Store → List Call × Store
unfolding chat_message
listen chat claims conn room clock [] s = ([], s)
listen chat claims conn room clock (err e ∷ reads) s = (unregister conn ∷ [], s)
listen chat claims conn room clock (ok text ∷ reads) s =
    let msg = chat_message claims (clock 0).seconds text in
    let saved = if chat then (save_message (clock 0).nanos msg room s).1 else s in
    let later : ℕ → Clock = λ n. clock (suc n) in
    let skipped = listen chat claims conn room later reads s in
    let rest = listen chat claims conn room later reads saved in
    if trim_space text == ""
    then skipped
    else (broadcast (record { room_id = room; message = msg }) ∷ rest.0, rest.1)

module _ (crypto : Crypto) (secret : String) where
  abbrev connected :
      Bool
      → Request
      → Option String
      → (ℕ → Clock)
      → List (Result String)
      → Result Claims × Map Time
      → Store
      → Option Response × List Call × Map Time × Store
  connected chat c conn clock reads (err e, revoked) s =
      (some (refuse 401 "invalid websocket token"), [], revoked, s)
  connected chat c none clock reads (ok claims, revoked) s =
      (some (refuse 400 "failed to upgrade connection"), [], revoked, s)
  connected chat c (some conn) clock reads (ok claims, revoked) s =
      let said = listen chat claims conn (room_of c) clock reads s in
      (none, register (client conn claims (room_of c)) ∷ said.0, revoked, said.1)

  -- `conn` is the upgraded connection, if the upgrade succeeds
  unfoldable pub handler :
      Clocks
      → Bool
      → Request
      → Option String
      → (ℕ → Clock)
      → List (Result String)
      → Map Time
      → Store
      → Option Response × List Call × Map Time × Store
  unfolding listen client
  handler clocks chat c conn clock reads revoked s =
      let token = or_empty (c.query "token") in
      if token == ""
      then (some (refuse 401 "missing websocket token"), [], revoked, s)
      else connected chat c conn clock reads (parse_token crypto secret clocks token revoked) s
