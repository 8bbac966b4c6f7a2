-- ===== src/Tests/Hub.antt =====
-- The hub's theorems at concrete inputs.
use manga_hub.Prelude.{
  ℕ, zero, suc, pos, Bool, false, ◌≡◌, refl, some, [], ◌∷◌, ◌++◌, ◌<◌, List, lookup, put, length,
  arith,
}
use manga_hub.Models.{ChatMessage}
use manga_hub.Hub.{
  Hub, ClientConnection, RoomMessage, PrivateDelivery, chat, announcement, new_hub, capacity,
  register, emit, enter, deliver,
}
use manga_hub.Hub.Steps.{Steps, registers, sends_private, done, next}
use manga_hub.Hub.Queue.{Stuck, register_sticks}
use manga_hub.Hub.Membership.{Written, deliver_reaches}

abbrev ann : ClientConnection
ann = record { conn = "c1"; user_id = "u1"; username = "ann"; room_id = "general" }

abbrev greeting : ChatMessage
greeting = record { user_id = "u1"; username = "ann"; message = "hi"; timestamp = pos 3 }

abbrev hello : RoomMessage
hello = record { room_id = "general"; message = greeting }

abbrev lobby : Hub
lobby = register (pos 1) ann new_hub

joins : Steps new_hub lobby
joins = next new_hub lobby lobby (registers (pos 1) ann new_hub refl) (done lobby)

ann_is_in : lookup "c1" lobby.clients ≡ some ann
unfolding lookup put register emit enter
ann_is_in = refl

abbrev no_failure : ℕ → Bool
no_failure n = false

deliver_reaches_example : Written ("c1", chat greeting) (deliver no_failure hello lobby).0
deliver_reaches_example = deliver_reaches lobby "c1" ann no_failure hello joins ann_is_in refl

abbrev copies : ℕ → List RoomMessage
copies zero = []
copies (suc n) = hello ∷ copies n

abbrev crowded : Hub
crowded = record new_hub { broadcast = copies capacity }

abbrev waiting : Hub
waiting = register (pos 1) ann crowded

abbrev delivery : PrivateDelivery
delivery = record {
  recipient_id = "u1";
  message = record {
    sender_id = "u2";
    sender_username = "bob";
    recipient_id = "u1";
    recipient_username = "ann";
    message = "psst";
    timestamp = pos 4;
  };
}

abbrev asked : Hub
asked = record waiting { private = waiting.private ++ delivery ∷ [] }

no_private : length waiting.private < capacity
unfolding register emit enter
no_private = omega arith

asks : Steps waiting asked
asks = next waiting asked asked (sends_private delivery waiting no_private) (done asked)

register_sticks_example : Stuck (announcement (pos 1) ann "joined the chat") waiting asked
register_sticks_example = register_sticks (pos 1) ann crowded asked refl refl asks
