-- ===== src/Store/Chats.antt =====
-- pkg/database/chat_repository.go. A message's id holds the clock's nanoseconds, which are an
-- argument as their decimal text.
use manga_hub.Prelude.{
  ℤ, pos, negsuc, le_ℤ, String, List, [], ◌∷◌, ◌++◌, ◌==◌, if◌then◌else◌, none, some, ok, err,
  Result, panic, wrap, any, keep, take, map,
}
use mathlib.Core.List.{reverse}
use Prim.Native.String
use manga_hub.Prelude.Sorting.{sort_by}
use manga_hub.Models.{ChatMessage, PrivateMessage}
use manga_hub.Exec.{Exec}
use manga_hub.Store.Tables.{
  ChatRow, Store, Statement, statement, foreign_key, not_unique, find_user,
}

unfoldable pub insert_chat_row : String → ChatMessage → String → Statement (Unit {0})
insert_chat_row id msg room_id now t =
    if any (λ r. r.id == id) t.chat_messages
    then (
      err (wrap "insert chat message" (not_unique "UNIQUE constraint failed: chat_messages.id")),
      t,
    )
    else elim (find_user msg.user_id t.users) [
      | none ↦ (err (wrap "insert chat message" foreign_key), t)
      | some u ↦ (ok tt, record t { chat_messages = t.chat_messages ++ row ∷ [] })
    ]
  where
    row : ChatRow
    row = record {
      id = id;
      user_id = msg.user_id;
      username = msg.username;
      room_id = room_id;
      message = msg.message;
      created_at = msg.timestamp;
    }

unfoldable pub insert_chat_message : String → ChatMessage → String → Exec Store (Unit {0})
insert_chat_message nanos msg room_id =
    statement "insert chat message" (insert_chat_row (String.◌++◌ "msg_" nanos) msg room_id)

abbrev pub chat_message : ChatRow → ChatMessage
chat_message r = record {
  user_id = r.user_id;
  username = r.username;
  message = r.message;
  timestamp = r.created_at;
}

-- `make([]T, 0, limit)` panics on a negative limit
unfoldable pub limited {ℓ} : {A : Type ℓ} → ℤ → List A → Result (List A)
limited (pos n) xs = ok (take n xs)
limited (negsuc n) xs = err (panic "makeslice: cap out of range")

abbrev pub map_ok : {A B : Type 0} → (A → B) → Result A → Result B
map_ok f (ok a) = ok (f a)
map_ok f (err e) = err e

-- the newest `limit` messages, newest first; the loop after the query reverses them in place
unfoldable pub list_chat_messages : String → ℤ → Exec Store (List ChatMessage)
unfolding limited
list_chat_messages room_id limit = statement "query chat messages" λ now t. (
  map_ok (λ rows. reverse (map chat_message rows))
      (limited limit (
        sort_by (λ a b. le_ℤ b.created_at a.created_at)
          (keep (λ r. r.room_id == room_id) t.chat_messages))),
  t,
)

unfoldable pub insert_private_row : String → PrivateMessage → Statement (Unit {0})
insert_private_row id pm now t =
    if any (λ r. r.id == id) t.private_messages
    then (
      err (
          wrap "insert private message"
            (not_unique "UNIQUE constraint failed: private_messages.id")),
      t,
    )
    else elim (find_user pm.sender_id t.users) [
      | none ↦ (err (wrap "insert private message" foreign_key), t)
      | some sender ↦ elim (find_user pm.recipient_id t.users) [
        | none ↦ (err (wrap "insert private message" foreign_key), t)
        | some recipient ↦ (
          ok tt,
          record t {
            private_messages = t.private_messages ++ record { id = id; message = pm } ∷ [];
          },
        )
      ]
    ]

unfoldable pub send_private_message : String → PrivateMessage → Exec Store (Unit {0})
send_private_message nanos pm =
    statement "insert private message" (insert_private_row (String.◌++◌ "pm_" nanos) pm)

unfoldable pub list_private_messages : String → ℤ → Exec Store (List PrivateMessage)
unfolding limited
list_private_messages recipient_id limit = statement "query private messages" λ now t. (
  map_ok (λ rows. reverse (map (λ r. r.message) rows))
      (limited limit (
        sort_by (λ a b. le_ℤ b.message.timestamp a.message.timestamp)
          (keep (λ r. r.message.recipient_id == recipient_id) t.private_messages))),
  t,
)
