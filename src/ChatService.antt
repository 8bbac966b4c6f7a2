-- ===== src/ChatService.antt =====
-- internal/chat/service.go: the service holds the store alone. The clock's nanoseconds, which the
-- repository puts into a message's id, are an argument.
use manga_hub.Prelude.{ℤ, String, List}
use manga_hub.Models.{ChatMessage, PrivateMessage}
use manga_hub.Exec.{Exec}
use manga_hub.Store.Tables.{Store}
use manga_hub.Store.Chats.{insert_chat_message, list_chat_messages, list_private_messages}
use manga_hub.Store.Chats

unfoldable pub save_message : String → ChatMessage → String → Exec Store (Unit {0})
save_message nanos msg room_id = insert_chat_message nanos msg room_id

unfoldable pub get_room_history : String → ℤ → Exec Store (List ChatMessage)
get_room_history room_id limit = list_chat_messages room_id limit

unfoldable pub send_private_message : String → PrivateMessage → Exec Store (Unit {0})
send_private_message nanos pm = Chats.send_private_message nanos pm

unfoldable pub get_received_messages : String → ℤ → Exec Store (List PrivateMessage)
get_received_messages user_id limit = list_private_messages user_id limit
