-- ===== src/Tests/Udp.antt =====
-- The UDP server's theorems at concrete inputs.
use manga_hub.Prelude.{
  String, pos, ok, ◌≡◌, refl, true, [], ◌∷◌, some, none, List, Error, Result, trim_space, lookup,
  All, Keyed,
}
use manga_hub.Prelude.Text.{lower_rune, to_lower, ascii}
use manga_hub.Udp.{
  ClientMessage, RegisteredClient, Clients, Packet, notice, handle_message, kind, client_id,
  is_registered, notifies, notification,
}
use manga_hub.Udp.Registry.{Event, address, run, route, run_routes}
use manga_hub.Udp.Delivery.{Permitted, Among, handle_message-Permitted, notify_reaches}

abbrev encodes : Packet → Result (Unit {0})
encodes p = ok tt

abbrev text : Error → String
text e = "error"

abbrev says : String → ClientMessage
says type = record {
  type = type;
  client_id = "cli";
  client = "";
  manga_id = "m1";
  message = "new chapter";
  timestamp = pos 0;
}

abbrev cli : RegisteredClient
cli = record { id = "cli"; addr = "10.0.0.1:9"; last_seen = pos 1; connected = pos 1 }

abbrev clients : Clients
clients = ("cli", cli) ∷ []

clients-Keyed : Keyed clients
unfolding lookup
clients-Keyed = (refl, tt)

abbrev events : List Event
events =
    record { time = pos 1; addr = "10.0.0.1:9"; payload = some (says " Register") }
    ∷ record { time = pos 2; addr = "10.0.0.1:9"; payload = none }
    ∷ record { time = pos 3; addr = "10.0.0.2:9"; payload = some (says "subscribe") }
    ∷ []

run_routes_example :
    address "cli" (run encodes text events []) ≡ route "cli" events (address "cli" [])
run_routes_example = run_routes encodes text events [] "cli"

handle_message-Permitted_example :
    All
      (Permitted clients (kind "notify") "10.0.0.1:9")
      (handle_message encodes text (pos 5) "10.0.0.1:9" (says "notify") clients).1
handle_message-Permitted_example =
    handle_message-Permitted encodes text (pos 5) "10.0.0.1:9" (says "notify") clients clients-Keyed

notify_kind : kind "notify" ≡ notifies
unfolding kind to_lower lower_rune trim_space
notify_kind = refl

joined : is_registered (client_id "10.0.0.1:9" (says "notify")) clients ≡ true
unfolding is_registered client_id lookup trim_space
joined = refl

found : lookup "cli" clients ≡ some cli
unfolding lookup
found = refl

notify_reaches_example :
    Among
      (
        "10.0.0.1:9",
        notice (notification (pos 5) (client_id "10.0.0.1:9" (says "notify")) (says "notify")),
      )
      (handle_message encodes text (pos 5) "10.0.0.1:9" (says "notify") clients).1
notify_reaches_example =
    notify_reaches encodes text (pos 5) "10.0.0.1:9" (says "notify") clients notify_kind joined refl
      "cli" cli found
