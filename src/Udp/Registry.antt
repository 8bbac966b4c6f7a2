-- ===== src/Udp/Registry.antt =====
-- Who is registered, and where: the client map against the history of datagrams.
use manga_hub.Prelude.{
  String, List, [], ◌∷◌, ◌==◌, ◌≡◌, refl, ◌∙◌, ap, if◌then◌else◌, Option, none, some, Result, Error,
  Unicode, Bool-cases, Option-cases, inl, inr, eq_iff, arith, lookup, put, Keyed, lookup-put,
  lookup-put_ne, lookup-drop, lookup-drop_ne, put-Keyed, drop-Keyed,
}
use manga_hub.Models.{Time}
use manga_hub.Udp.{
  ClientMessage, RegisteredClient, Clients, Packet, Kind, registers, notifies, health, unregisters,
  tests, test_broadcasts, unknown, kind, client_id, is_registered, register, unregister, dispatch,
  handle_message, handle_packet,
}

-- a datagram that arrives: when, from where, and what it decodes to
pub record Event : Type 0 where
  pub time : Time
  pub addr : String
  pub payload : Option ClientMessage

-- the address that the map holds for an id
unfoldable pub address : String → Clients → Option String
address id clients = elim (lookup id clients) [ none ↦ none | some c ↦ some c.addr ]

-- The specification: a registration of the id puts it at the sender's address, an unregistration
-- takes it away, and nothing else matters to it.
unfoldable pub moved : Kind → String → Option String → Option String
moved registers addr old = some addr
moved unregisters addr old = none
moved _ addr old = old

unfoldable pub heard : ⦃u : Unicode⦄ → String → Event → Option String → Option String
unfolding moved
heard id e old = elim e.payload [
  | none ↦ old
  | some msg ↦ if client_id e.addr msg == id then moved (kind msg.type) e.addr old else old
]

unfoldable pub route : ⦃u : Unicode⦄ → String → List Event → Option String → Option String
unfolding heard
route id [] old = old
route id (e ∷ es) old = route id es (heard id e old)

module _ (marshal : Packet → Result (Unit {0})) (text : Error → String) ⦃u : Unicode⦄ where
  unfoldable pub run : List Event → Clients → Clients
  run [] clients = clients
  run (e ∷ es) clients = run es (handle_packet marshal text e.time e.addr e.payload clients).0

  address-put :
      (k id : String) (c : RegisteredClient) (clients : Clients)
      → address id (put k c clients) ≡ (if k == id then some c.addr else address id clients)
  unfolding address
  address-put k id c clients =
      ground (arith, lookup-put k c clients, lookup-put_ne k id c clients, eq_iff k id)

  address-register :
      (now : Time) (addr : String) (msg : ClientMessage) (clients : Clients) (id : String)
      → address id (register marshal now addr msg clients).0
        ≡ (if client_id addr msg == id then some addr else address id clients)
  unfolding register
  address-register now addr msg clients id = address-put (client_id addr msg) id _ clients

  address-unregister :
      (now : Time) (addr : String) (msg : ClientMessage) (clients : Clients) (id : String)
      → address id (unregister marshal now addr msg clients).0
        ≡ (if client_id addr msg == id then none else address id clients)
  unfolding unregister address is_registered
  address-unregister now addr msg clients id = ground (
    arith,
    lookup-drop (client_id addr msg) clients,
    lookup-drop_ne (client_id addr msg) id clients,
    eq_iff (client_id addr msg) id,
  )

  address-dispatch :
      (k : Kind) (now : Time) (addr : String) (msg : ClientMessage) (clients : Clients)
      (id : String)
      → address id (dispatch marshal text k now addr msg clients).0 ≡ (
          if client_id addr msg == id
          then moved k addr (address id clients)
          else address id clients)
  unfolding dispatch moved
  address-dispatch registers now addr msg clients id = address-register now addr msg clients id
  address-dispatch unregisters now addr msg clients id = address-unregister now addr msg clients id
  address-dispatch notifies now addr msg clients id = ground arith
  address-dispatch health now addr msg clients id = ground arith
  address-dispatch tests now addr msg clients id = ground arith
  address-dispatch test_broadcasts now addr msg clients id = ground arith
  address-dispatch unknown now addr msg clients id = ground arith

  address-packet :
      (e : Event) (clients : Clients) (id : String)
      → address id (handle_packet marshal text e.time e.addr e.payload clients).0
        ≡ heard id e (address id clients)
  unfolding handle_packet handle_message heard
  address-packet e clients id = elim (Option-cases e.payload) [
    | inl undecoded ↦ rw (undecoded, handle_packet, heard) refl
    | inr (msg, decoded) ↦
        rw (decoded, handle_packet, heard)
          (address-dispatch (kind msg.type) e.time e.addr msg clients id)
  ]

  -- After any sequence of datagrams the server holds for each client id the address that its last
  -- registration came from, unless an unregistration of the id came later or there was none.
  pub run_routes :
      (es : List Event) (clients : Clients) (id : String)
      → address id (run es clients) ≡ route id es (address id clients)
  unfolding run route
  run_routes [] clients id = refl
  run_routes (e ∷ es) clients id =
      run_routes es (handle_packet marshal text e.time e.addr e.payload clients).0 id
      ∙ ap (λ old. route id es old) (address-packet e clients id)

  unregister-Keyed :
      (now : Time) (addr : String) (msg : ClientMessage) (clients : Clients)
      → Keyed clients
      → Keyed (unregister marshal now addr msg clients).0
  unfolding unregister
  unregister-Keyed now addr msg clients keyed =
      elim (Bool-cases (is_registered (client_id addr msg) clients)) [
        | inl joined ↦ rw joined (drop-Keyed (client_id addr msg) clients keyed)
        | inr stranger ↦ rw stranger keyed
      ]

  dispatch-Keyed :
      (k : Kind) (now : Time) (addr : String) (msg : ClientMessage) (clients : Clients)
      → Keyed clients
      → Keyed (dispatch marshal text k now addr msg clients).0
  unfolding dispatch register
  dispatch-Keyed registers now addr msg clients keyed = put-Keyed _ _ clients keyed
  dispatch-Keyed unregisters now addr msg clients keyed =
      unregister-Keyed now addr msg clients keyed
  dispatch-Keyed notifies now addr msg clients keyed = keyed
  dispatch-Keyed health now addr msg clients keyed = keyed
  dispatch-Keyed tests now addr msg clients keyed = keyed
  dispatch-Keyed test_broadcasts now addr msg clients keyed = keyed
  dispatch-Keyed unknown now addr msg clients keyed = keyed

  packet-Keyed :
      (e : Event) (clients : Clients)
      → Keyed clients
      → Keyed (handle_packet marshal text e.time e.addr e.payload clients).0
  unfolding handle_packet handle_message
  packet-Keyed e clients keyed = elim (Option-cases e.payload) [
    | inl undecoded ↦ rw (undecoded, handle_packet) keyed
    | inr (msg, decoded) ↦
        rw (decoded, handle_packet) (dispatch-Keyed (kind msg.type) e.time e.addr msg clients keyed)
  ]

  -- the client map is a map: no id stands twice in it
  pub run-Keyed : (es : List Event) (clients : Clients) → Keyed clients → Keyed (run es clients)
  unfolding run
  run-Keyed [] clients keyed = keyed
  run-Keyed (e ∷ es) clients keyed =
      run-Keyed es (handle_packet marshal text e.time e.addr e.payload clients).0
        (packet-Keyed e clients keyed)
