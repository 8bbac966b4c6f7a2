-- ===== src/Http/Rooms.antt =====
-- The handlers of user_handler.go on rooms and private messages; `GetAllRoomUsers` of
-- internal/websocket/hub.go. A private delivery is an output: it is put into the hub's channel.
pub mod Laws
use manga_hub.Prelude.{
  ℕ, zero, ◌+◌, ℤ, pos, String, List, [], ◌∷◌, map, Bool, true, false, not, ◌==◌, if◌then◌else◌,
  Option, none, some, Result, ok, err, Error, Map, length, Unicode, trim_space, text_lt,
}
use manga_hub.Prelude.Sorting.{sort_by}
use manga_hub.Models.{User, ChatMessage, PrivateMessage, SendPmRequest, Time}
use manga_hub.Store.Tables.{Store}
use manga_hub.Cache.{Redis, Service, in_store}
use manga_hub.ChatService.{get_room_history, send_private_message}
use manga_hub.User
use manga_hub.Hub.{ClientConnection, Hub, PrivateDelivery, get_room_users, members}
use manga_hub.Http.Requests.{
  Request, Response, Body, error_body, rooms_body, room_users_body, room_history_body, sent_body,
  RoomReply, reply, refuse, answer, current_user_id, error_text,
}
use manga_hub.Http.Limits.{query_limit}

abbrev listed_user : ClientConnection → String × String
listed_user c = (c.user_id, c.username)

unfoldable pub room_reply : String → List ClientConnection → RoomReply
room_reply id users = record { room = id; count = length users; users = map listed_user users }

-- the rooms of `h.Rooms` with their users, in the order of the names
unfoldable pub room_replies : Map (List ClientConnection) → List RoomReply
unfolding room_reply
room_replies rooms = map (λ p. room_reply p.0 p.1) (sort_by (λ p q. not (text_lt q.0 p.0)) rooms)

unfoldable pub total_users : List RoomReply → ℕ
total_users [] = zero
total_users (room ∷ rooms) = room.count + total_users rooms

unfoldable pub rooms_users : Hub → Response
unfolding room_replies total_users
rooms_users h = reply 200 (rooms_body (room_replies h.rooms) (total_users (room_replies h.rooms)))

abbrev placed_user : ClientConnection → String × String × String
placed_user c = (c.user_id, c.username, c.room_id)

unfoldable pub room_users : Request → Hub → Response
unfolding get_room_users
room_users c h =
    if trim_space (c.param "room") == ""
    then refuse 400 "room id required"
    else reply 200 (
        room_users_body (map placed_user (get_room_users (c.param "room") h))
          (length (get_room_users (c.param "room") h)))

abbrev loaded : String → ℤ → Result (List ChatMessage) → Response
loaded room limit (ok messages) = reply 200 (room_history_body room limit messages)
loaded room limit (err e) = refuse 500 "failed to load chat history"

-- `chat` says whether there is a chat service
unfoldable pub room_history : Bool → Request → Store → Response × Store
unfolding query_limit
room_history chat c s =
    if trim_space (c.param "room") == ""
    then (refuse 400 "room id required", s)
    else elim (query_limit c) [
      | none ↦ (refuse 400 "invalid limit", s)
      | some limit ↦
          if chat
          then answer (get_room_history (c.param "room") limit) (loaded (c.param "room") limit) s
          else (refuse 503 "chat history unavailable", s)
    ]

unfoldable pub private_message : Time → User → User → String → PrivateMessage
private_message now sender recipient message = record {
  sender_id = sender.id;
  sender_username = sender.username;
  recipient_id = recipient.id;
  recipient_username = recipient.username;
  message = trim_space message;
  timestamp = now;
}

module _ (quote : String → String) ⦃u : Unicode⦄ (r : Redis) where
  abbrev pub Sent : Type 0
  Sent = Response × Option PrivateDelivery × Service r

  -- `nanos` is the clock in the message's id; `hub` says whether there is a hub
  unfoldable pub deliver_pm : Bool → String → PrivateMessage → Service r → Sent
  deliver_pm hub nanos pm s = elim (in_store r (send_private_message nanos pm) s).0 [
    | err e ↦ (
      refuse 500 "failed to send message",
      none,
      (in_store r (send_private_message nanos pm) s).1,
    )
    | ok _ ↦ (
      reply 201 (sent_body pm.recipient_username),
      if hub then some (record { recipient_id = pm.recipient_id; message = pm }) else none,
      (in_store r (send_private_message nanos pm) s).1,
    )
  ]

  abbrev pub to_recipient : Bool → Time → String → String → User → Result User × Service r → Sent
  to_recipient hub now nanos message sender (err e, s) = (refuse 404 "recipient not found", none, s)
  to_recipient hub now nanos message sender (ok recipient, s) =
      if sender.id == recipient.id
      then (refuse 400 "cannot send message to yourself", none, s)
      else deliver_pm hub nanos (private_message now sender recipient message) s

  abbrev pub from_sender : Bool → Time → String → SendPmRequest → Result User × Service r → Sent
  from_sender hub now nanos req (err e, s) = (refuse 404 "sender not found", none, s)
  from_sender hub now nanos req (ok sender, s) =
      to_recipient hub now nanos req.message sender
        (User.get_user_by_username r req.recipient_username s)

  unfoldable pub send_pm :
      Bool → Bool → Time → String → Request → Result SendPmRequest → Service r → Sent
  unfolding deliver_pm private_message error_text current_user_id
  send_pm false hub now nanos c body s = (refuse 503 "chat service unavailable", none, s)
  send_pm true hub now nanos c (err e) s = (refuse 400 (error_text quote e), none, s)
  send_pm true hub now nanos c (ok req) s =
      if current_user_id c == ""
      then (refuse 401 "missing user id", none, s)
      else from_sender hub now nanos req (User.get_user_by_id r (current_user_id c) s)
