-- ===== src/Tcp/Handlers.antt =====
-- internal/tcp/conn.go and broadcast.go: the handlers.
use Prim.Native.String.{◌++◌ as str_append}
use manga_hub.Prelude.{
  ℤ, pos, eq_ℤ, suc_ℤ, String, List, [], ◌∷◌, ◌++◌, ◌==◌, if◌then◌else◌, Option, none, some, Result,
  ok, err, Error, new, wrap, unsupported_type, Map, lookup, put, drop, trim_space, Unicode,
}
use manga_hub.Models.{Time, User, ProgressUpdateResult, ProgressUpdate}
use manga_hub.Exec.{Exec, caught, ◌>>=◌}
use manga_hub.Cache.{Redis, Service}
use manga_hub.User.{update_progress, get_library_entry, get_user_by_id}
use manga_hub.Tcp.Messages.{
  ClientMessage, ServerMessage, blank_message, Kind, hello, ping, health, progress,
  progress_broadcast, disconnect, unsupported, kind,
}
use manga_hub.Tcp.Rules.{
  strategy, conflict_of, conflict_message, progress_user, incoming_timestamp, progress_request,
  check_progress,
}

-- Write errors: `none` for a connection that takes what is written while the message is handled.
abbrev pub Sockets : Type 0
Sockets = String → Option Error

abbrev pub Sent : Type 0
Sent = List (String × ServerMessage)

unfoldable pub send : Sockets → String → ServerMessage → Result (Unit {0}) × Sent
send sockets c msg = elim (sockets c) [ none ↦ (ok tt, (c, msg) ∷ []) | some e ↦ (err e, []) ]

-- to every client, a failed write being logged only
unfoldable pub broadcast : Sockets → ServerMessage → Map String → Sent
unfolding send
broadcast sockets msg [] = []
broadcast sockets msg ((c, _) ∷ clients) = (send sockets c msg).1 ++ broadcast sockets msg clients

unfoldable pub publication : Time → ProgressUpdate → ServerMessage
publication now update =
    let t = if eq_ℤ update.timestamp (pos 0) then now else update.timestamp in
    record (blank_message "progress_broadcast" t) {
      progress = some (record {
        user_id = update.user_id;
        manga_id = update.manga_id;
        chapter = update.chapter;
        timestamp = t;
      });
    }

-- `PublishProgress`
unfoldable pub publish_progress : Sockets → Time → ProgressUpdate → Map String → Sent
unfolding publication broadcast
publish_progress sockets now update clients = broadcast sockets (publication now update) clients

-- what a progress message comes to: a conflict's resolution, or an update
pub data Outcome : Type 0 where
  conflicts : String → Outcome
  updates : ProgressUpdateResult → Outcome

abbrev pub finished : Result ProgressUpdateResult → Result Outcome
finished (ok res) = ok (updates res)
finished (err e) = err (wrap "update progress" e)

-- the messages of a user of each client id
unfoldable pub devices : String → Map String → ℤ
devices user_id [] = pos 0
devices user_id ((_, u) ∷ clients) =
    let rest = devices user_id clients in if u == user_id then suc_ℤ rest else rest

abbrev pub user_of : String → Map String → String
user_of c clients = elim (lookup c clients) [ none ↦ "" | some u ↦ u ]

module _ (r : Redis) where
  -- `userService` may be nil; `clients` holds the user that each connection said hello as
  pub record Server : Type 0 where
    pub users : Option (Service r)
    pub clients : Map String

  unfoldable pub decide : String → ClientMessage → Option String → Exec (Service r) Outcome
  decide user_id msg (some resolution) s = (ok (conflicts resolution), s)
  decide user_id msg none s = (
    finished (update_progress r user_id (progress_request msg) s).0,
    (update_progress r user_id (progress_request msg) s).1,
  )

  -- the lookup, the conflict rules, and the update
  unfoldable pub reconcile :
      ⦃u : Unicode⦄ → Time → String → ClientMessage → Exec (Service r) Outcome
  unfolding decide conflict_of
  reconcile now user_id msg = do
    entry ← caught (get_library_entry r user_id (trim_space msg.manga_id))
    decide user_id msg (conflict_of (strategy msg) (incoming_timestamp now msg) msg entry)

  -- the case "progress", with the messages that it writes
  unfoldable pub answer :
      ⦃u : Unicode⦄
      → Sockets
      → Time
      → String
      → String
      → ClientMessage
      → Map String
      → Result Outcome
      → Result (Unit {0}) × Sent
  answer sockets now c user_id msg clients (err e) = (err e, [])
  answer sockets now c user_id msg clients (ok (conflicts resolution)) =
      send sockets c
        (conflict_message (strategy msg) (incoming_timestamp now msg) resolution msg now)
  answer sockets now c user_id msg clients (ok (updates res)) =
      let update : ProgressUpdate = record {
        user_id = user_id;
        manga_id = res.entry.manga_id;
        chapter = res.entry.current_chapter;
        timestamp = now;
      } in
      let ack : ServerMessage = record (blank_message "ack" now) {
        request_id = msg.request_id;
        message = "progress updated";
        progress = some update;
      } in
      let (result, sent) = send sockets c ack in
      (result, publish_progress sockets now update clients ++ sent)

  unfoldable pub checked_progress :
      ⦃u : Unicode⦄
      → Sockets
      → Time
      → String
      → String
      → ClientMessage
      → Service r
      → Map String
      → Result (Unit {0})
      → (Result (Unit {0}) × Sent) × Server
  unfolding reconcile answer
  checked_progress sockets now c user_id msg s clients (err e) =
      ((err e, []), record { users = some s; clients = clients })
  checked_progress sockets now c user_id msg s clients (ok _) =
      let (outcome, s') = reconcile now user_id msg s in
      (
        answer sockets now c user_id msg clients outcome,
        record { users = some s'; clients = clients },
      )

  unfoldable pub handle_progress :
      ⦃u : Unicode⦄
      → Sockets
      → Time
      → String
      → ClientMessage
      → Server
      → (Result (Unit {0}) × Sent) × Server
  unfolding checked_progress check_progress progress_user
  handle_progress sockets now c msg server = elim server.users [
    | none ↦ ((err (new "progress service is not configured"), []), server)
    | some s ↦
        let user_id = progress_user (user_of c server.clients) msg in
        checked_progress sockets now c user_id msg s server.clients (check_progress user_id msg)
  ]

  abbrev pub username_of : String → Result User → String
  username_of user_id (ok u) = u.username
  username_of user_id (err _) = user_id

  -- the user's name, where there is a service that finds it
  unfoldable pub greeted_name : String → Option (Service r) → String × Option (Service r)
  greeted_name user_id none = (user_id, none)
  greeted_name user_id (some s) =
      let (found, s') = get_user_by_id r user_id s in (username_of user_id found, some s')

  -- the case "hello"; `session` is the number that time.Now().UnixNano() prints
  unfoldable pub handle_hello :
      Sockets
      → Time
      → String
      → String
      → ClientMessage
      → Server
      → (Result (Unit {0}) × Sent) × Server
  unfolding greeted_name devices
  handle_hello sockets now session c msg server =
      let user_id = trim_space msg.user_id in
      if user_id == ""
      then ((err (new "user_id is required for hello"), []), server)
      else (let clients = put c user_id server.clients in
          let (name, users) = greeted_name user_id server.users in
          (
            send sockets c (record (blank_message "hello_ack" now) {
              session_id = str_append "sess-" session;
              user_id = user_id;
              username = name;
              devices = devices user_id clients;
              connected_at = now;
            }),
            record { users = users; clients = clients },
          ))

  -- the case "progress_broadcast": a relay to every client
  unfoldable pub handle_relay :
      Sockets → Time → String → ClientMessage → Server → Result (Unit {0}) × Sent
  unfolding broadcast send
  handle_relay sockets now c msg server = elim msg.progress [
    | none ↦ (err (new "progress data is required for broadcast"), [])
    | some p ↦
        let relayed =
          broadcast sockets
            (record (blank_message "progress_broadcast" p.timestamp) { progress = some p })
            server.clients in
        let (result, sent) =
          send sockets c (record (blank_message "ack" now) { message = "broadcast relayed" }) in
        (result, relayed ++ sent)
  ]

  unfoldable pub dispatch :
      ⦃u : Unicode⦄
      → Kind
      → Sockets
      → Time
      → String
      → String
      → ClientMessage
      → Server
      → (Result (Unit {0}) × Sent) × Server
  unfolding handle_hello handle_progress handle_relay send
  dispatch hello sockets now session c msg server = handle_hello sockets now session c msg server
  dispatch ping sockets now session c msg server =
      (send sockets c (record (blank_message "pong" now) { request_id = msg.request_id }), server)
  dispatch health sockets now session c msg server = (
    send sockets c (record (blank_message "health_ok" now) { message = "tcp server is healthy" }),
    server,
  )
  dispatch progress sockets now session c msg server = handle_progress sockets now c msg server
  dispatch progress_broadcast sockets now session c msg server =
      (handle_relay sockets now c msg server, server)
  dispatch disconnect sockets now session c msg server =
      (send sockets c (record (blank_message "ack" now) { message = "disconnected" }), server)
  dispatch unsupported sockets now session c msg server =
      ((err (unsupported_type msg.type), []), server)

  unfoldable pub handle_message :
      ⦃u : Unicode⦄
      → Sockets
      → Time
      → String
      → String
      → ClientMessage
      → Server
      → (Result (Unit {0}) × Sent) × Server
  unfolding dispatch kind
  handle_message sockets now session c msg server =
      dispatch (kind msg.type) sockets now session c msg server

  -- A line of a connection, handled with no other handler running meanwhile; `none` is a line that
  -- json.Unmarshal refuses; an error is sent back, its text
  -- err.Error(). The result is what was written.
  unfoldable pub handle_line :
      ⦃u : Unicode⦄
      → (Error → String)
      → Sockets
      → Time
      → String
      → String
      → Option ClientMessage
      → Server
      → Sent × Server
  unfolding handle_message send
  handle_line text sockets now session c none server = (
    (send sockets c (record (blank_message "error" now) { error = "invalid json payload" })).1,
    server,
  )
  handle_line text sockets now session c (some msg) server =
      let ((result, sent), server') = handle_message sockets now session c msg server in
      (
        elim result [
          | ok _ ↦ sent
          | err e ↦
              sent
              ++ (send sockets c (record (blank_message "error" now) {
                request_id = msg.request_id;
                error = text e;
              })).1
        ],
        server',
      )

  -- Accept in server.go, and the deferred delete of handleConn
  unfoldable pub connect : String → Server → Server
  connect c server = record server { clients = put c "" server.clients }

  unfoldable pub close : String → Server → Server
  close c server = record server { clients = drop c server.clients }
