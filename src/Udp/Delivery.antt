-- ===== src/Udp/Delivery.antt =====
-- Who receives which datagram.
use manga_hub.Prelude.{
  String, [], ◌∷◌, true, ◌==◌, ◌≡◌, refl, ◌⊎◌, none, some, Result, ok, Error, Unicode, Bool-cases,
  Result-cases, inl, inr, eq_iff, eq_refl, arith, lookup, Keyed, All, All-append,
}
use manga_hub.Models.{Time, Notification}
use manga_hub.Udp.{
  ClientMessage, ServerMessage, RegisteredClient, Clients, Sent, Packet, reply, notice, Kind,
  registers, notifies, health, unregisters, tests, test_broadcasts, unknown, kind, client_id,
  is_registered, register, unregister, test, notify, notification, announcement, test_broadcast,
  send, deliveries, broadcast, dispatch, handle_message,
}

-- some registered client is at the address
abbrev pub Listens : Clients → String → Type 0
Listens clients a =
    (id : String) × (c : RegisteredClient) × (lookup id clients ≡ some c) × (c.addr ≡ a)

-- What a datagram to `p.0` may be while a message of the kind `k` from `addr` is handled: a reply
-- to the sender, or a notification to a registered client, on behalf of a registered client
-- unless it is a test broadcast.
abbrev pub Permitted : Clients → Kind → String → String × Packet → Type 0
Permitted clients k addr (a, reply r) = a ≡ addr
Permitted clients k addr (a, notice n) =
    Listens clients a × ((is_registered n.client_id clients ≡ true) ⊎ (k ≡ test_broadcasts))

abbrev pub Among : String × Packet → Sent → Type 0
Among p [] = ⊥
Among p (q ∷ ps) = (p ≡ q) ⊎ Among p ps

cons_lookup :
    (k l : String) (c d : RegisteredClient) (m : Clients)
    → lookup k m ≡ none
    → lookup l m ≡ some d
    → lookup l ((k, c) ∷ m) ≡ some d
unfolding lookup
cons_lookup k l c d m fresh found = ground (arith, eq_iff k l, fresh, found)

module _ (marshal : Packet → Result (Unit {0})) where
  send-Permitted :
      (clients : Clients) (k : Kind) (addr : String) (r : ServerMessage)
      → All (Permitted clients k addr) (send marshal addr r)
  unfolding send
  send-Permitted clients k addr r = elim (Result-cases (marshal (reply r))) [
    | inl (_, encoded) ↦ rw (encoded, send) (refl, tt)
    | inr (_, refused) ↦ rw (refused, send) tt
  ]

  module _ (all : Clients) (k : Kind) (addr : String) (n : Notification)
      (allowed : (is_registered n.client_id all ≡ true) ⊎ (k ≡ test_broadcasts)) where
    deliveries-Permitted :
        (m : Clients)
        → Keyed m
        → ((id : String) (c : RegisteredClient) → lookup id m ≡ some c → lookup id all ≡ some c)
        → All (Permitted all k addr) (deliveries marshal n m)
    unfolding deliveries lookup
    deliveries-Permitted [] keyed within = tt
    deliveries-Permitted ((j, c) ∷ m) keyed within = (
      ((j, c, within j c (ground (arith, eq_refl j)), refl), allowed),
      deliveries-Permitted m keyed.1
          λ id d found. within id d (cons_lookup j id c d m keyed.0 found),
    )

    broadcast-Permitted : Keyed all → All (Permitted all k addr) (broadcast marshal n all).1
    unfolding broadcast
    broadcast-Permitted keyed = elim (Result-cases (marshal (notice n))) [
      | inl (_, encoded) ↦
          rw (encoded, broadcast) (deliveries-Permitted all keyed λ id c found. found)
      | inr (_, refused) ↦ rw (refused, broadcast) tt
    ]

  deliveries_reach :
      (n : Notification) (id : String) (c : RegisteredClient) (m : Clients)
      → lookup id m ≡ some c
      → Among (c.addr, notice n) (deliveries marshal n m)
  unfolding deliveries lookup
  deliveries_reach n id c [] found = cc
  deliveries_reach n id c ((j, d) ∷ m) found = elim (Bool-cases (j == id)) [
    | inl same ↦ inl (ground arith)
    | inr other ↦ inr (deliveries_reach n id c m (ground arith))
  ]

  module _ (text : Error → String) (now : Time) (addr : String) (msg : ClientMessage)
      (clients : Clients) (keyed : Keyed clients) where
    notify-Permitted : All (Permitted clients notifies addr) (notify marshal now addr msg clients)
    unfolding notify notification
    notify-Permitted = elim (Bool-cases (is_registered (client_id addr msg) clients)) [
      | inl joined ↦ rw joined (
          broadcast-Permitted clients notifies addr (notification now (client_id addr msg) msg)
            (inl joined) keyed)
      | inr stranger ↦ rw stranger (send-Permitted clients notifies addr _)
    ]

    test_broadcast-Permitted :
        All
          (Permitted clients test_broadcasts addr)
          (test_broadcast marshal text now addr msg clients)
    unfolding test_broadcast
    test_broadcast-Permitted =
        All-append (Permitted clients test_broadcasts addr) _ _
          (broadcast-Permitted clients test_broadcasts addr (announcement now msg) (inr refl) keyed)
          (send-Permitted clients test_broadcasts addr _)

    unregister-Permitted :
        All (Permitted clients unregisters addr) (unregister marshal now addr msg clients).1
    unfolding unregister
    unregister-Permitted = elim (Bool-cases (is_registered (client_id addr msg) clients)) [
      | inl joined ↦ rw joined (send-Permitted clients unregisters addr _)
      | inr stranger ↦ rw stranger (send-Permitted clients unregisters addr _)
    ]

    test-Permitted : All (Permitted clients tests addr) (test marshal now addr msg clients)
    unfolding test
    test-Permitted = elim (Bool-cases (is_registered (client_id addr msg) clients)) [
      | inl joined ↦ rw joined (send-Permitted clients tests addr _)
      | inr stranger ↦ rw stranger (send-Permitted clients tests addr _)
    ]

    dispatch-Permitted :
        (k : Kind) → All (Permitted clients k addr) (dispatch marshal text k now addr msg clients).1
    unfolding dispatch register
    dispatch-Permitted registers = send-Permitted clients registers addr _
    dispatch-Permitted notifies = notify-Permitted
    dispatch-Permitted health = send-Permitted clients health addr _
    dispatch-Permitted unregisters = unregister-Permitted
    dispatch-Permitted tests = test-Permitted
    dispatch-Permitted test_broadcasts = test_broadcast-Permitted
    dispatch-Permitted unknown = tt

    -- Whatever message arrives, a reply goes to its sender only, and a notification only to
    -- addresses of registered clients, on behalf of a registered client unless it is a test
    -- broadcast.
    pub handle_message-Permitted :
        ⦃u : Unicode⦄
        → All
            (Permitted clients (kind msg.type) addr)
            (handle_message marshal text now addr msg clients).1
    unfolding handle_message
    handle_message-Permitted = dispatch-Permitted (kind msg.type)

  module _ (text : Error → String) (now : Time) (addr : String) (msg : ClientMessage)
      (clients : Clients) where
    -- A notification of a registered client that can be encoded goes to every registered client.
    pub notify_reaches :
        ⦃u : Unicode⦄
        → kind msg.type ≡ notifies
        → is_registered (client_id addr msg) clients ≡ true
        → marshal (notice (notification now (client_id addr msg) msg)) ≡ ok tt
        → (id : String) (c : RegisteredClient) → lookup id clients ≡ some c
        → Among
            (c.addr, notice (notification now (client_id addr msg) msg))
            (handle_message marshal text now addr msg clients).1
    unfolding handle_message dispatch notify broadcast
    notify_reaches notifies_ joined encoded id c found =
        rw (notifies_, joined, encoded, broadcast)
          (deliveries_reach (notification now (client_id addr msg) msg) id c clients found)
