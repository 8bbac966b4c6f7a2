-- ===== src/Http/Rooms/Laws.antt =====
-- What the handlers on rooms and private messages answer.
use Prim.Native.String
use mathlib.Core.Path.{subst}
use manga_hub.Prelude.{
  String, List, [], ◌∷◌, ◌++◌, Bool, true, false, ◌==◌, ◌≡◌, refl, sym, inl, inr, if◌then◌else◌,
  Option, none, some, any, Result, ok, err, Error, Unicode, Bool-cases, Result-cases, Option-cases,
  arith, ap, trim_space,
}
use manga_hub.Models.{User, PrivateMessage, SendPmRequest, Time}
use manga_hub.Store.Tables.{Store, Tables, PrivateRow, statement, find_user}
use manga_hub.Store.Chats
use manga_hub.Store.Chats.{insert_private_row}
use manga_hub.ChatService.{send_private_message}
use manga_hub.Cache.{Redis, Service, in_store}
use manga_hub.User
use manga_hub.Hub.{PrivateDelivery}
use manga_hub.Http.Requests.{Request, Response, reply, sent_body, current_user_id}
use manga_hub.Http.Rooms.{private_message, deliver_pm, to_recipient, from_sender, send_pm}

abbrev pub pm_row : String → PrivateMessage → PrivateRow
pm_row nanos pm = record { id = String.◌++◌ "pm_" nanos; message = pm }

-- a success adds the row
abbrev Adds : List PrivateRow → PrivateRow → Result (Unit {0}) → Tables → Type 0
Adds old row (ok _) t = t.private_messages ≡ old ++ row ∷ []
Adds old row (err e) t = Unit

insert_private_row-Adds :
    (id : String) (pm : PrivateMessage) (now : Time) (t : Tables)
    → Adds t.private_messages
        (record { id = id; message = pm })
        (insert_private_row id pm now t).0
        (insert_private_row id pm now t).1
unfolding insert_private_row
insert_private_row-Adds id pm now t = elim (Bool-cases (any (λ r. r.id == id) t.private_messages)) [
  | inl taken ↦ rw taken tt
  | inr free ↦ elim (Option-cases (find_user pm.sender_id t.users)) [
    | inl unknown ↦ rw (free, unknown) tt
    | inr (x, sender) ↦ elim (Option-cases (find_user pm.recipient_id t.users)) [
      | inl unknown ↦ rw (free, sender, unknown) tt
      | inr (y, recipient) ↦ rw (free, sender, recipient) refl
    ]
  ]
]

send_private_message-Adds :
    (nanos : String) (pm : PrivateMessage) (s : Store)
    → Adds s.tables.private_messages
        (pm_row nanos pm)
        (send_private_message nanos pm s).0
        (send_private_message nanos pm s).1.tables
unfolding send_private_message Chats.send_private_message statement
send_private_message-Adds nanos pm s = elim (Bool-cases (s.driver 0).fails) [
  | inl failed ↦ rw failed tt
  | inr executed ↦
      rw executed (insert_private_row-Adds (pm_row nanos pm).id pm (s.driver 0).time s.tables)
]

-- the message of `sender` to `recipient`
abbrev pub addressed : Time → User → User → String → PrivateMessage
addressed now sender recipient text = record {
  sender_id = sender.id;
  sender_username = sender.username;
  recipient_id = recipient.id;
  recipient_username = recipient.username;
  message = trim_space text;
  timestamp = now;
}

module _ (r : Redis) (nanos : String) where
  -- what goes to the hub is `pm` for its recipient, stored last and answered 201
  abbrev Delivered : PrivateMessage → Response × Option PrivateDelivery × Service r → Type 0
  Delivered pm (response, none, s) = Unit
  Delivered pm (response, some d, s) =
      (response ≡ reply 201 (sent_body pm.recipient_username))
      × (d ≡ record { recipient_id = pm.recipient_id; message = pm })
      × ((rows : List PrivateRow) × (s.store.tables.private_messages
            ≡ rows ++ pm_row nanos pm ∷ []))

  -- What goes to the hub for a request of the user `asker` in the state `s`: the sender is the user
  -- that the id finds, and the recipient the one that the requested name finds, and not the sender.
  abbrev pub Honest :
      ⦃u : Unicode⦄
      → Time
      → String
      → SendPmRequest
      → Service r
      → Response × Option PrivateDelivery × Service r
      → Type 0
  Honest now asker req s (response, none, s') = Unit
  Honest now asker req s (response, some d, s') =
      (sender recipient : User) × ((User.get_user_by_id r asker s).0 ≡ ok sender)
      × ((User.get_user_by_username r req.recipient_username (User.get_user_by_id r asker s).1).0
          ≡ ok recipient)
      × ((sender.id == recipient.id) ≡ false)
      × (response ≡ reply 201 (sent_body recipient.username))
      × (d ≡ record {
        recipient_id = recipient.id;
        message = addressed now sender recipient req.message;
      })
      × ((rows : List PrivateRow) × (s'.store.tables.private_messages
            ≡ rows ++ pm_row nanos (addressed now sender recipient req.message) ∷ []))

  module _ (quote : String → String) ⦃u : Unicode⦄ where
    deliver_pm-failed :
        (hub : Bool) (pm : PrivateMessage) (s : Service r) (e : Error)
        → (send_private_message nanos pm s.store).0 ≡ err e
        → (deliver_pm quote r hub nanos pm s).1 ≡ none
    unfolding deliver_pm in_store
    deliver_pm-failed hub pm s e failed = rw (failed, deliver_pm) refl

    deliver_pm-sent :
        (hub : Bool) (pm : PrivateMessage) (s : Service r)
        → (send_private_message nanos pm s.store).0 ≡ ok tt
        → deliver_pm quote r hub nanos pm s ≡ (
          reply 201 (sent_body pm.recipient_username),
          if hub then some (record { recipient_id = pm.recipient_id; message = pm }) else none,
          record s { store = (send_private_message nanos pm s.store).1 },
        )
    unfolding deliver_pm in_store
    deliver_pm-sent hub pm s sent = rw (sent, deliver_pm) refl

    nothing :
        (pm : PrivateMessage) (x : Response × Option PrivateDelivery × Service r)
        → x.1 ≡ none
        → Delivered pm x
    nothing pm (response, none, s) h = tt
    nothing pm (response, some d, s) h = absurd (ground arith)

    deliver_pm-Delivered :
        (hub : Bool) (pm : PrivateMessage) (s : Service r)
        → Delivered pm (deliver_pm quote r hub nanos pm s)
    deliver_pm-Delivered hub pm s = elim (Result-cases (send_private_message nanos pm s.store).0) [
      | inr (e, failed) ↦
          nothing pm (deliver_pm quote r hub nanos pm s) (deliver_pm-failed hub pm s e failed)
      | inl (done, sent) ↦
          subst (Delivered pm) (sym (deliver_pm-sent hub pm s sent)) (both hub sent)
    ]
      where
        both :
            (hub : Bool)
            → (send_private_message nanos pm s.store).0 ≡ ok tt
            → Delivered pm (
              reply 201 (sent_body pm.recipient_username),
              if hub then some (record { recipient_id = pm.recipient_id; message = pm }) else none,
              record s { store = (send_private_message nanos pm s.store).1 },
            )
        both false sent = tt
        both true sent = (
          refl,
          refl,
          (
            s.store.tables.private_messages,
            subst
                (λ x.
                  Adds s.store.tables.private_messages (pm_row nanos pm) x
                    (send_private_message nanos pm s.store).1.tables)
                sent (send_private_message-Adds nanos pm s.store),
          ),
        )

    module _ (now : Time) (asker : String) (req : SendPmRequest) (s : Service r) (sender : User)
        (from : (User.get_user_by_id r asker s).0 ≡ ok sender) where
      honest :
          (recipient : User) (x : Response × Option PrivateDelivery × Service r)
          → (User.get_user_by_username r req.recipient_username (User.get_user_by_id r asker s).1).0
            ≡ ok recipient
          → (sender.id == recipient.id) ≡ false
          → Delivered (addressed now sender recipient req.message) x
          → Honest now asker req s x
      honest recipient (response, none, s') to other delivered = tt
      honest recipient (response, some d, s') to other (answered, is, stored) =
          (sender, recipient, from, to, other, answered, is, stored)

      to_recipient-Honest :
          (hub : Bool) (found : Result User × Service r)
          → (User.get_user_by_username r req.recipient_username (User.get_user_by_id r asker s).1).0
            ≡ found.0
          → Honest now asker req s (to_recipient quote r hub now nanos req.message sender found)
      to_recipient-Honest hub (err e, s') looked = tt
      to_recipient-Honest hub (ok recipient, s') looked =
          elim (Bool-cases (sender.id == recipient.id)) [
            | inl same ↦ rw (same, to_recipient, Honest) tt
            | inr other ↦
                rw (other, to_recipient)
                  (honest recipient _ looked other (
                    unfold private_message in
                    deliver_pm-Delivered hub (addressed now sender recipient req.message) s'))
          ]

    from_sender-Honest :
        (hub : Bool) (now : Time) (asker : String) (req : SendPmRequest) (s : Service r)
        (found : Result User × Service r)
        → User.get_user_by_id r asker s ≡ found
        → Honest now asker req s (from_sender quote r hub now nanos req found)
    from_sender-Honest hub now asker req s (err e, s') looked = tt
    from_sender-Honest hub now asker req s (ok sender, s') looked =
        to_recipient-Honest now asker req s sender (ap (λ p. p.0) looked) hub
          (User.get_user_by_username r req.recipient_username s')
          (ap (λ p. (User.get_user_by_username r req.recipient_username p.1).0) looked)

    -- What a request makes the hub deliver is the requested text, trimmed, from the user that the id of
    -- the request's user finds to the one that the requested name finds, who are not the same; it goes
    -- to the recipient, is stored as the last private message, and is answered 201.
    pub send_pm-Honest :
        (chat hub : Bool) (now : Time) (c : Request) (req : SendPmRequest) (s : Service r)
        → Honest now (current_user_id c) req s (send_pm quote r chat hub now nanos c (ok req) s)
    unfolding send_pm
    send_pm-Honest false hub now c req s = tt
    send_pm-Honest true hub now c req s = elim (Bool-cases (current_user_id c == "")) [
      | inl nobody ↦ rw (nobody, Honest) tt
      | inr somebody ↦
          rw (somebody, send_pm)
            (from_sender-Honest hub now (current_user_id c) req s
              (User.get_user_by_id r (current_user_id c) s) refl)
    ]
