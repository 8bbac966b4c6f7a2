-- ===== src/Tcp/Forward.antt =====
-- Progress through the TCP server: no sequence of messages takes a chapter back.
use manga_hub.Prelude.{
  String, List, [], ◌∷◌, ◌==◌, ◌≡◌, refl, ap, inl, inr, Result, ok, err, Error, Option, none, some,
  Unicode, Map, Bool-cases, Option-cases, trim_space,
}
use manga_hub.Models.{Time}
use manga_hub.Store.Tables.{statement, find_user}
use manga_hub.Store.Library.{select_entry}
use manga_hub.Store.Users
use manga_hub.Store.Reads.{get_library_entry-tables}
use manga_hub.Cache.{Redis, Service, in_store, version}
use manga_hub.Cache.Reads.{Reads, bind-Reads, version-Reads, read_through-Reads}
use manga_hub.User.{get_library_entry, get_user_by_id, user_key, versioned_key, version_key}
use manga_hub.User.Forward.{Forward, Forward-trans, SameLibrary-Forward, update_progress-Forward}
use manga_hub.Tcp.Messages.{
  ClientMessage, Kind, hello, ping, health, progress, progress_broadcast, disconnect, unsupported,
  kind,
}
use manga_hub.Tcp.Rules.{progress_request}
use manga_hub.Tcp.Handlers.{
  Server, Sockets, decide, reconcile, checked_progress, handle_progress, greeted_name, handle_hello,
  dispatch, handle_message, handle_line, connect, close,
}

module _ (r : Redis) where
  still :
      (s s' : Service r) → s'.store.tables ≡ s.store.tables → Forward s.store.tables s'.store.tables
  still s s' same =
      SameLibrary-Forward s.store.tables s'.store.tables λ u m. ap (λ t. select_entry u m t) same

  -- between two states of the server's user service, which may be nil
  abbrev pub Ahead : Option (Service r) → Option (Service r) → Type 0
  Ahead none users = Unit
  Ahead (some s) none = ⊥
  Ahead (some s) (some s') = Forward s.store.tables s'.store.tables

  Ahead-refl : (x : Option (Service r)) → Ahead x x
  Ahead-refl none = tt
  Ahead-refl (some s) = still s s refl

  Ahead-trans : (x y z : Option (Service r)) → Ahead x y → Ahead y z → Ahead x z
  Ahead-trans none y z h k = tt
  Ahead-trans (some s) none z h k = absurd h
  Ahead-trans (some s) (some s') none h k = k
  Ahead-trans (some s) (some s') (some s'') h k =
      Forward-trans s.store.tables s'.store.tables s''.store.tables h k

  versioned_key-Reads : (what : String) (parts : List String) → Reads r (versioned_key r what parts)
  unfolding versioned_key
  versioned_key-Reads what parts =
      bind-Reads r (version r version_key) _ (version-Reads r version_key) λ v s. refl

  find_user-Reads : (id : String) → Reads r (in_store r (Users.get_user_by_id id))
  unfolding in_store Users.get_user_by_id statement
  find_user-Reads id s = elim (Bool-cases (s.store.driver 0).fails) [
    | inl failed ↦ rw failed refl
    | inr executed ↦ elim (Option-cases (find_user id s.store.tables.users)) [
      | inl missing ↦ rw (executed, missing) refl
      | inr (row, found) ↦ rw (executed, found) refl
    ]
  ]

  get_user_by_id-Reads : (id : String) → Reads r (get_user_by_id r id)
  unfolding get_user_by_id user_key
  get_user_by_id-Reads id =
      read_through-Reads r _ _ _ (user_key r id) _
        (versioned_key-Reads "detail" (":" ∷ trim_space id ∷ [])) (find_user-Reads id)

  decide-Forward :
      (user_id : String) (msg : ClientMessage) (found : Option String) (s : Service r)
      → Forward s.store.tables (decide r user_id msg found s).1.store.tables
  unfolding decide progress_request
  decide-Forward user_id msg (some resolution) s = still s s refl
  decide-Forward user_id msg none s =
      update_progress-Forward r user_id (progress_request msg) s refl

  entry-Reads : (user_id id : String) → Reads r (get_library_entry r user_id id)
  unfolding get_library_entry in_store
  entry-Reads user_id id s = get_library_entry-tables user_id id s.store

  module _ ⦃u : Unicode⦄ (sockets : Sockets) (now : Time) (session c : String) where
    reconcile-Forward :
        (user_id : String) (msg : ClientMessage) (s : Service r)
        → Forward s.store.tables (reconcile r now user_id msg s).1.store.tables
    unfolding reconcile
    reconcile-Forward user_id msg s =
        let looked = get_library_entry r user_id (trim_space msg.manga_id) s in
        Forward-trans s.store.tables looked.1.store.tables _
          (still s looked.1 (entry-Reads user_id (trim_space msg.manga_id) s))
          (decide-Forward user_id msg _ looked.1)

    checked-Ahead :
        (user_id : String) (msg : ClientMessage) (s : Service r) (clients : Map String)
        (check : Result (Unit {0}))
        → Ahead (some s) (checked_progress r sockets now c user_id msg s clients check).1.users
    unfolding checked_progress
    checked-Ahead user_id msg s clients (ok _) = reconcile-Forward user_id msg s
    checked-Ahead user_id msg s clients (err e) = still s s refl

    progress-Ahead :
        (msg : ClientMessage) (server : Server r)
        → Ahead server.users (handle_progress r sockets now c msg server).1.users
    unfolding handle_progress
    progress-Ahead msg server = elim (Option-cases server.users) [
      | inl nil ↦ rw (nil, Ahead) tt
      | inr (s, service) ↦ rw (service, handle_progress) (checked-Ahead _ msg s server.clients _)
    ]

    greeted-Ahead :
        (user_id : String) (users : Option (Service r))
        → Ahead users (greeted_name r user_id users).1
    unfolding greeted_name
    greeted-Ahead user_id none = tt
    greeted-Ahead user_id (some s) =
        still s (get_user_by_id r user_id s).1 (get_user_by_id-Reads user_id s)

    hello-Ahead :
        (msg : ClientMessage) (server : Server r)
        → Ahead server.users (handle_hello r sockets now session c msg server).1.users
    unfolding handle_hello
    hello-Ahead msg server = elim (Bool-cases (trim_space msg.user_id == "")) [
      | inl missing ↦ rw (missing, handle_hello) (Ahead-refl server.users)
      | inr named ↦ rw (named, handle_hello) (greeted-Ahead (trim_space msg.user_id) server.users)
    ]

    dispatch-Ahead :
        (k : Kind) (msg : ClientMessage) (server : Server r)
        → Ahead server.users (dispatch r k sockets now session c msg server).1.users
    unfolding dispatch
    dispatch-Ahead hello msg server = hello-Ahead msg server
    dispatch-Ahead progress msg server = progress-Ahead msg server
    dispatch-Ahead ping msg server = Ahead-refl server.users
    dispatch-Ahead health msg server = Ahead-refl server.users
    dispatch-Ahead progress_broadcast msg server = Ahead-refl server.users
    dispatch-Ahead disconnect msg server = Ahead-refl server.users
    dispatch-Ahead unsupported msg server = Ahead-refl server.users

    line-Ahead :
        (text : Error → String) (line : Option ClientMessage) (server : Server r)
        → Ahead server.users (handle_line r text sockets now session c line server).1.users
    unfolding handle_line handle_message
    line-Ahead text none server = Ahead-refl server.users
    line-Ahead text (some msg) server = dispatch-Ahead (kind msg.type) msg server

-- what happens to the server, in the order in which its goroutines get to it
pub data Event : Type 0 where
  connects closes : String → Event
  line : Sockets → Time → (session c : String) → Option ClientMessage → Event

module _ (r : Redis) (text : Error → String) ⦃u : Unicode⦄ where
  unfoldable pub handle : Event → Server r → Server r
  handle (connects c) server = connect r c server
  handle (closes c) server = close r c server
  handle (line sockets now session c message) server =
      (handle_line r text sockets now session c message server).1

  unfoldable pub run : List Event → Server r → Server r
  unfolding handle
  run [] server = server
  run (e ∷ es) server = run es (handle e server)

  handle-Ahead : (e : Event) (server : Server r) → Ahead r server.users (handle e server).users
  unfolding handle connect close
  handle-Ahead (connects c) server = Ahead-refl r server.users
  handle-Ahead (closes c) server = Ahead-refl r server.users
  handle-Ahead (line sockets now session c message) server =
      line-Ahead r sockets now session c text message server

  -- If the lines are handled one at a time, each before the next, then whatever lines arrive on
  -- whatever connections, and whatever fails, no library entry of the server's user service is lost,
  -- and no chapter goes back. (The server has a goroutine for each connection, and updates that
  -- overlap are outside this statement.)
  pub run-Ahead : (es : List Event) (server : Server r) → Ahead r server.users (run es server).users
  unfolding run
  run-Ahead [] server = Ahead-refl r server.users
  run-Ahead (e ∷ es) server =
      Ahead-trans r server.users (handle e server).users (run es (handle e server)).users
        (handle-Ahead e server) (run-Ahead es (handle e server))
