-- ===== src/Hub.antt =====
-- internal/websocket/hub.go. A connection is known by a name of its own, as the code's maps know it
-- by its pointer. The sockets are not modelled: a delivery returns the frames that it writes, and
-- which of its writes fail is an input, in the order of the writes.
pub mod Steps
pub mod Queue
pub mod Membership
use Prim.Native.String.{◌++◌ as str_append}
use manga_hub.Prelude.{
  ℕ, zero, suc, String, List, [], ◌∷◌, ◌++◌, Bool, true, false, ltb, ◌==◌, if◌then◌else◌, Option,
  none, some, Map, lookup, put, drop, length, keep, map,
}
use manga_hub.Models.{Time, ChatMessage, PrivateMessage}

pub record ClientConnection : Type 0 where
  pub conn : String
  pub user_id : String
  pub username : String
  pub room_id : String

pub record RoomMessage : Type 0 where
  pub room_id : String
  pub message : ChatMessage

pub record PrivateDelivery : Type 0 where
  pub recipient_id : String
  pub message : PrivateMessage

-- what is written to a connection
pub data Frame : Type 0 where
  chat : ChatMessage → Frame
  pm : (user_id username message : String) → (timestamp : Time) → Frame

-- the loop of `Run`: at its select, in a send to its own `Broadcast` channel, or returned
pub data Loop : Type 0 where
  selecting : Loop
  sending : RoomMessage → Loop
  returned : Loop

-- `broadcast` and `private` are the buffers of the channels
pub record Hub : Type 0 where
  pub clients : Map ClientConnection
  pub rooms : Map (List ClientConnection)
  pub broadcast : List RoomMessage
  pub private : List PrivateDelivery
  pub loop : Loop

-- make(chan …, 32)
abbrev pub capacity : ℕ
capacity = 32

abbrev pub new_hub : Hub
new_hub = record { clients = []; rooms = []; broadcast = []; private = []; loop = selecting }

-- h.Rooms[id], which is nil for a missing key
unfoldable pub members : String → Map (List ClientConnection) → List ClientConnection
members id rooms = elim (lookup id rooms) [ none ↦ [] | some cs ↦ cs ]

-- h.Broadcast <- msg in the loop itself: it waits where the buffer is full
unfoldable pub emit : RoomMessage → Hub → Hub
emit m h =
    if ltb (length h.broadcast) capacity
    then record h { broadcast = h.broadcast ++ m ∷ [] }
    else record h { loop = sending m }

abbrev pub announcement : Time → ClientConnection → String → RoomMessage
announcement now c text = record {
  room_id = c.room_id;
  message = record { user_id = c.user_id; username = c.username; message = text; timestamp = now };
}

unfoldable pub enter : ClientConnection → Hub → Hub
unfolding members
enter c h = record h {
  clients = put c.conn c h.clients;
  rooms = put c.room_id (members c.room_id h.rooms ++ c ∷ []) h.rooms;
}

-- case client := <-h.Register
unfoldable pub register : Time → ClientConnection → Hub → Hub
unfolding enter emit
register now c h = emit (announcement now c "joined the chat") (enter c h)

-- the loop over the room takes out the first entry of the connection
unfoldable pub remove_first : String → List ClientConnection → List ClientConnection
remove_first conn [] = []
remove_first conn (c ∷ cs) =
    let rest = remove_first conn cs in if c.conn == conn then cs else c ∷ rest

unfoldable pub leave : String → ClientConnection → Hub → Hub
unfolding members remove_first
leave conn c h = record h {
  clients = drop conn h.clients;
  rooms = put c.room_id (remove_first conn (members c.room_id h.rooms)) h.rooms;
}

-- case conn := <-h.Unregister
unfoldable pub unregister : Time → String → Hub → Hub
unfolding leave emit
unregister now conn h = elim (lookup conn h.clients) [
  | none ↦ h
  | some c ↦ emit (announcement now c "left the chat") (leave conn c h)
]

unfoldable pub frames : Frame → List ClientConnection → List (String × Frame)
frames f [] = []
frames f (c ∷ cs) = (c.conn, f) ∷ frames f cs

-- the connections whose writes failed
unfoldable pub failed : (ℕ → Bool) → List ClientConnection → List String
failed fails [] = []
failed fails (c ∷ cs) =
    let rest = failed (λ n. fails (suc n)) cs in if fails zero then c.conn ∷ rest else rest

-- `removeClient`: the rooms stay as they are
unfoldable pub remove_client : String → Hub → Hub
remove_client conn h = record h { clients = drop conn h.clients }

unfoldable pub remove_clients : List String → Hub → Hub
unfolding remove_client
remove_clients [] h = h
remove_clients (conn ∷ conns) h = remove_clients conns (remove_client conn h)

-- case msg := <-h.Broadcast
unfoldable pub deliver : (ℕ → Bool) → RoomMessage → Hub → List (String × Frame) × Hub
unfolding members frames failed remove_clients
deliver fails m h =
    let cs = members m.room_id h.rooms in
    (frames (chat m.message) cs, remove_clients (failed fails cs) h)

unfoldable pub with_user : String → Map ClientConnection → List ClientConnection
with_user user_id [] = []
with_user user_id ((_, c) ∷ m) =
    let rest = with_user user_id m in if c.user_id == user_id then c ∷ rest else rest

-- case pm := <-h.Private
unfoldable pub deliver_private : (ℕ → Bool) → PrivateDelivery → Hub → List (String × Frame) × Hub
unfolding with_user frames failed remove_clients
deliver_private fails d h =
    let cs = with_user d.recipient_id h.clients in
    let m = d.message in
    (
      frames (pm m.sender_id m.sender_username (str_append "[PM] " m.message) m.timestamp) cs,
      remove_clients (failed fails cs) h,
    )

-- case <-ctx.Done(): `closeAll`, and `Run` returns
unfoldable pub close_all : Hub → Hub
close_all h = record h { clients = []; loop = returned }

-- `GetRoomUsers`
unfoldable pub get_room_users : String → Hub → List ClientConnection
unfolding members
get_room_users id h = members id h.rooms
