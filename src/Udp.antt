-- ===== src/Udp.antt =====
-- internal/udp: conn.go, broadcast.go and types.go. The socket is not modelled: a handler returns
-- the datagrams it writes, and a write that the network refuses is only logged by the code. A
-- datagram's JSON text is the value it encodes; whether json.Marshal encodes it is a parameter.
pub mod Registry
pub mod Delivery
use manga_hub.Prelude.{
  ℤ, pos, eq_ℤ, String, List, [], ◌∷◌, ◌++◌, map, Bool, true, false, ◌==◌, ◌||◌, if◌then◌else◌,
  Option, none, some, Result, ok, err, Error, wrap, Map, lookup, put, drop, trim_space, to_lower,
  Unicode,
}
use manga_hub.Models.{Notification, Time}

-- `LastSeen` and `Connected`
pub record RegisteredClient : Type 0 where
  pub id : String
  pub addr : String
  pub last_seen : Time
  pub connected : Time

pub record ClientMessage : Type 0 where
  pub type : String
  pub client_id : String
  pub client : String
  pub manga_id : String
  pub message : String
  pub timestamp : ℤ

pub record ServerMessage : Type 0 where
  pub type : String
  pub client_id : String
  pub message : String
  pub error : String
  pub payload : Option Notification
  pub timestamp : ℤ

pub data Packet : Type 0 where
  reply : ServerMessage → Packet
  notice : Notification → Packet

-- `Server.clients`
abbrev pub Clients : Type 0
Clients = Map RegisteredClient

-- datagrams with the addresses they go to
abbrev pub Sent : Type 0
Sent = List (String × Packet)

-- the cases of the switch on the type
pub data Kind : Type 0 where
  registers notifies health unregisters tests test_broadcasts unknown : Kind

unfoldable pub kind : ⦃u : Unicode⦄ → String → Kind
kind type =
    let t = to_lower (trim_space type) in
    if t == "register" || t == "subscribe"
    then registers
    else if t == "notify"
    then notifies
    else if t == "health"
    then health
    else if t == "unsubscribe" || t == "unregister"
    then unregisters
    else if t == "test"
    then tests
    else if t == "test_broadcast"
    then test_broadcasts
    else unknown

-- `client_id`, else `client`, else the address
unfoldable pub client_id : String → ClientMessage → String
client_id addr msg =
    let id = trim_space msg.client_id in
    let id' = if id == "" then trim_space msg.client else id in if id' == "" then addr else id'

unfoldable pub is_registered : String → Clients → Bool
is_registered id clients = elim (lookup id clients) [ none ↦ false | some c ↦ true ]

unfoldable pub notification : Time → String → ClientMessage → Notification
notification now id msg = record {
  type = "notification";
  client_id = id;
  manga_id = trim_space msg.manga_id;
  message = trim_space msg.message;
  timestamp = if eq_ℤ msg.timestamp (pos 0) then now else msg.timestamp;
}

abbrev pub announcement : Time → ClientMessage → Notification
announcement now msg = record {
  type = "notification";
  client_id = "server";
  manga_id = trim_space msg.manga_id;
  message = "test broadcast received";
  timestamp = now;
}

module _ (marshal : Packet → Result (Unit {0})) where
  unfoldable pub send : String → ServerMessage → Sent
  send addr msg = elim (marshal (reply msg)) [ ok _ ↦ (addr, reply msg) ∷ [] | err _ ↦ [] ]

  -- one datagram to each registered client
  unfoldable pub deliveries : Notification → Clients → Sent
  deliveries n [] = []
  deliveries n ((_, c) ∷ clients) = (c.addr, notice n) ∷ deliveries n clients

  unfoldable pub broadcast : Notification → Clients → Result (Unit {0}) × Sent
  unfolding deliveries
  broadcast n clients = elim (marshal (notice n)) [
    | err e ↦ (err (wrap "marshal notification" e), [])
    | ok _ ↦ (ok tt, deliveries n clients)
  ]

  abbrev plain : String → String → String → String → Time → ServerMessage
  plain type id message error now = record {
    type = type;
    client_id = id;
    message = message;
    error = error;
    payload = none;
    timestamp = now;
  }

  unfoldable pub register : Time → String → ClientMessage → Clients → Clients × Sent
  unfolding client_id send
  register now addr msg clients =
      let id = client_id addr msg in
      (
        put id (record { id = id; addr = addr; last_seen = now; connected = now }) clients,
        send addr (plain "register_ack" id "client registered" "" now),
      )

  unfoldable pub notify : Time → String → ClientMessage → Clients → Sent
  unfolding client_id send broadcast is_registered notification
  notify now addr msg clients =
      let id = client_id addr msg in
      if is_registered id clients
      then (broadcast (notification now id msg) clients).1
      else send addr (plain "error" id "" "client must register before sending notifications" now)

  unfoldable pub unregister : Time → String → ClientMessage → Clients → Clients × Sent
  unfolding client_id send is_registered
  unregister now addr msg clients =
      let id = client_id addr msg in
      if is_registered id clients
      then (drop id clients, send addr (plain "unregister_ack" id "client unregistered" "" now))
      else (clients, send addr (plain "error" id "" "client not registered" now))

  unfoldable pub test : Time → String → ClientMessage → Clients → Sent
  unfolding client_id send is_registered
  test now addr msg clients =
      let id = client_id addr msg in
      if is_registered id clients
      then send addr (plain "ok" id "test received" "" now)
      else send addr (plain "error" id "" "client must be registered to test" now)

  -- err.Error()
  module _ (text : Error → String) where
    -- the answer to the sender, after the broadcast's error or nil
    abbrev pub announced : Time → Result (Unit {0}) → ServerMessage
    announced now (err e) = plain "error" "" "" (text e) now
    announced now (ok _) = plain "ok" "" "broadcast sent to all registered clients" "" now

    unfoldable pub test_broadcast : Time → String → ClientMessage → Clients → Sent
    unfolding send broadcast
    test_broadcast now addr msg clients =
        (broadcast (announcement now msg) clients).1
        ++ send addr (announced now (broadcast (announcement now msg) clients).0)

    unfoldable pub dispatch : Kind → Time → String → ClientMessage → Clients → Clients × Sent
    unfolding register notify unregister test test_broadcast
    dispatch registers now addr msg clients = register now addr msg clients
    dispatch notifies now addr msg clients = (clients, notify now addr msg clients)
    dispatch health now addr msg clients =
        (clients, send addr (plain "health_ok" "" "udp server is healthy" "" now))
    dispatch unregisters now addr msg clients = unregister now addr msg clients
    dispatch tests now addr msg clients = (clients, test now addr msg clients)
    dispatch test_broadcasts now addr msg clients = (clients, test_broadcast now addr msg clients)
    dispatch unknown now addr msg clients = (clients, [])

    unfoldable pub handle_message :
        ⦃u : Unicode⦄ → Time → String → ClientMessage → Clients → Clients × Sent
    unfolding dispatch
    handle_message now addr msg clients = dispatch (kind msg.type) now addr msg clients

    -- `none` is a payload that json.Unmarshal refuses
    unfoldable pub handle_packet :
        ⦃u : Unicode⦄ → Time → String → Option ClientMessage → Clients → Clients × Sent
    unfolding handle_message
    handle_packet now addr none clients = (clients, [])
    handle_packet now addr (some msg) clients = handle_message now addr msg clients
