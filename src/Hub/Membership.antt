-- ===== src/Hub/Membership.antt =====
-- The client map against the rooms' lists.
use manga_hub.Prelude.{
  ℕ, String, List, [], ◌∷◌, ◌++◌, Bool, false, ltb, ◌==◌, ◌≡◌, refl, ◌∙◌, sym, ap, ◌⊎◌,
  if◌then◌else◌, some, Map, lookup, put, drop, length, arith, Bool-cases, Option-cases, inl, inr,
  eq_iff, eq_refl, lookup-put, lookup-put_ne, lookup-drop, lookup-drop_ne,
}
use manga_hub.Models.{Time}
use manga_hub.Hub.{
  Hub, ClientConnection, RoomMessage, Frame, chat, frames, capacity, new_hub, members, emit,
  announcement, enter, register, remove_first, leave, unregister, failed, with_user, remove_client,
  remove_clients, deliver, deliver_private, close_all,
}
use manga_hub.Hub.Steps.{
  Step, registers, unregisters, delivers, delivers_private, stops, resumes, publishes,
  sends_private, Steps, done, next,
}

abbrev pub Among : ClientConnection → List ClientConnection → Type 0
Among c [] = ⊥
Among c (d ∷ ds) = (c ≡ d) ⊎ Among c ds

-- a client of the hub is in the list of its room
abbrev pub Listed : Map ClientConnection → Map (List ClientConnection) → Type 0
Listed clients rooms =
    (conn : String) (c : ClientConnection)
    → lookup conn clients ≡ some c
    → (c.conn ≡ conn) × Among c (members c.room_id rooms)

Among-left :
    (c : ClientConnection) (cs ds : List ClientConnection) → Among c cs → Among c (cs ++ ds)
Among-left c [] ds here = elim here [ ]
Among-left c (d ∷ cs) ds (inl same) = inl same
Among-left c (d ∷ cs) ds (inr later) = inr (Among-left c cs ds later)

Among-last : (c : ClientConnection) (cs : List ClientConnection) → Among c (cs ++ c ∷ [])
Among-last c [] = inl refl
Among-last c (d ∷ cs) = inr (Among-last c cs)

Among-remove :
    (conn : String) (c : ClientConnection) (cs : List ClientConnection)
    → c.conn == conn ≡ false
    → Among c cs
    → Among c (remove_first conn cs)
unfolding remove_first
Among-remove conn c [] other here = elim here [ ]
Among-remove conn c (d ∷ cs) other here = elim (Bool-cases (d.conn == conn)) [
  | inl same ↦
      rw same
        (elim here [ inl now ↦ absurd (ground (arith, other, same, now)) | inr later ↦ later ])
  | inr differs ↦
      rw differs
        (elim here [ inl now ↦ inl now | inr later ↦ inr (Among-remove conn c cs other later) ])
]

members-put :
    (id room : String) (cs : List ClientConnection) (rooms : Map (List ClientConnection))
    → members id (put room cs rooms) ≡ (if room == id then cs else members id rooms)
unfolding members
members-put id room cs rooms =
    ground (arith, lookup-put room cs rooms, lookup-put_ne room id cs rooms, eq_iff room id)

Among-put :
    (d : ClientConnection) (room : String) (cs : List ClientConnection)
    (rooms : Map (List ClientConnection))
    → (room ≡ d.room_id → Among d cs)
    → (room == d.room_id ≡ false → Among d (members d.room_id rooms))
    → Among d (members d.room_id (put room cs rooms))
Among-put d room cs rooms here there =
    rw (members-put d.room_id room cs rooms) (elim (Bool-cases (room == d.room_id)) [
      | inl same ↦ rw same (here ((eq_iff room d.room_id).0 same))
      | inr other ↦ rw other (there other)
    ])

enter-Listed :
    (c : ClientConnection) (h : Hub)
    → Listed h.clients h.rooms
    → Listed (enter c h).clients (enter c h).rooms
unfolding enter
enter-Listed c h listed conn d found =
    let cs = members c.room_id h.rooms ++ c ∷ [] in
    elim (Bool-cases (c.conn == conn)) [
      | inl same ↦
          let now : c ≡ d =
            ground (arith, lookup-put c.conn c h.clients, found, eq_iff c.conn conn) in
          (
            ground (arith, eq_iff c.conn conn),
            Among-put d c.room_id cs h.rooms
                (λ e. rw (sym now) (Among-last c (members c.room_id h.rooms)))
                (λ e. absurd (ground (arith, eq_refl c.room_id))),
          )
      | inr other ↦
          let (name, before) =
            listed conn d (sym (lookup-put_ne c.conn conn c h.clients other) ∙ found) in
          (
            name,
            Among-put d c.room_id cs h.rooms
                (λ e. Among-left d (members c.room_id h.rooms) (c ∷ []) (rw e before))
                (λ e. before),
          )
    ]

leave-Listed :
    (conn : String) (c : ClientConnection) (h : Hub)
    → Listed h.clients h.rooms
    → Listed (leave conn c h).clients (leave conn c h).rooms
unfolding leave
leave-Listed gone c h listed conn d found = elim (Bool-cases (gone == conn)) [
  | inl same ↦ absurd (ground (arith, lookup-drop gone h.clients, found, eq_iff gone conn))
  | inr other ↦
      let (name, before) = listed conn d (sym (lookup-drop_ne gone conn h.clients other) ∙ found) in
      (
        name,
        Among-put d c.room_id (remove_first gone (members c.room_id h.rooms)) h.rooms
            (λ e.
              Among-remove gone d (members c.room_id h.rooms)
                (ground (arith, name, eq_iff gone conn, eq_iff d.conn gone)) (rw e before))
            (λ e. before),
      )
]

drop-Listed :
    (gone : String) (clients : Map ClientConnection) (rooms : Map (List ClientConnection))
    → Listed clients rooms
    → Listed (drop gone clients) rooms
drop-Listed gone clients rooms listed conn d found = elim (Bool-cases (gone == conn)) [
  | inl same ↦ absurd (ground (arith, lookup-drop gone clients, found, eq_iff gone conn))
  | inr other ↦ listed conn d (sym (lookup-drop_ne gone conn clients other) ∙ found)
]

removed-Listed :
    (conns : List String) (h : Hub)
    → Listed h.clients h.rooms
    → Listed (remove_clients conns h).clients (remove_clients conns h).rooms
unfolding remove_clients remove_client
removed-Listed [] h listed = listed
removed-Listed (conn ∷ conns) h listed =
    removed-Listed conns (remove_client conn h) (drop-Listed conn h.clients h.rooms listed)

emit_same :
    (m : RoomMessage) (h : Hub) → ((emit m h).clients ≡ h.clients) × ((emit m h).rooms ≡ h.rooms)
unfolding emit
emit_same m h = elim (Bool-cases (ltb (length h.broadcast) capacity)) [
  | inl free ↦ rw free (refl, refl)
  | inr full ↦ rw full (refl, refl)
]

emit-Listed :
    (m : RoomMessage) (h : Hub)
    → Listed h.clients h.rooms
    → Listed (emit m h).clients (emit m h).rooms
emit-Listed m h listed = let (clients, rooms) = emit_same m h in rw (clients, rooms) listed

unregister-Listed :
    (now : Time) (conn : String) (h : Hub)
    → Listed h.clients h.rooms
    → Listed (unregister now conn h).clients (unregister now conn h).rooms
unfolding unregister
unregister-Listed now conn h listed = elim (Option-cases (lookup conn h.clients)) [
  | inl missing ↦ rw (missing, unregister) listed
  | inr (c, found) ↦
      rw (found, unregister)
        (emit-Listed (announcement now c "left the chat") (leave conn c h)
          (leave-Listed conn c h listed))
]

Step-Listed : (h h' : Hub) → Step h h' → Listed h.clients h.rooms → Listed h'.clients h'.rooms
unfolding register deliver deliver_private close_all lookup
Step-Listed _ _ (registers now c h running) l =
    emit-Listed (announcement now c "joined the chat") (enter c h) (enter-Listed c h l)
Step-Listed _ _ (unregisters now conn h running) l = unregister-Listed now conn h l
Step-Listed _ _ (delivers fails m rest h running queued) l =
    removed-Listed (failed fails (members m.room_id h.rooms)) (record h { broadcast = rest }) l
Step-Listed _ _ (delivers_private fails d rest h running queued) l =
    removed-Listed (failed fails (with_user d.recipient_id h.clients)) (record h { private = rest })
      l
Step-Listed _ _ (stops h running) l = λ conn c found. cc
Step-Listed _ _ (resumes m h waiting free) l = l
Step-Listed _ _ (publishes m h free) l = l
Step-Listed _ _ (sends_private d h free) l = l

Steps-Listed : (h h' : Hub) → Steps h h' → Listed h.clients h.rooms → Listed h'.clients h'.rooms
Steps-Listed _ _ (done h) l = l
Steps-Listed _ _ (next h₁ h₂ h₃ first rest) l = Steps-Listed h₂ h₃ rest (Step-Listed h₁ h₂ first l)

new_hub-Listed : Listed new_hub.clients new_hub.rooms
unfolding lookup
new_hub-Listed conn c found = cc

abbrev pub Written : String × Frame → List (String × Frame) → Type 0
Written w [] = ⊥
Written w (v ∷ ws) = (w ≡ v) ⊎ Written w ws

written :
    (f : Frame) (c : ClientConnection) (cs : List ClientConnection)
    → Among c cs
    → Written (c.conn, f) (frames f cs)
unfolding frames
written f c [] here = elim here [ ]
written f c (d ∷ cs) (inl same) = inl (ap (λ x. (x.conn, f)) same)
written f c (d ∷ cs) (inr later) = inr (written f c cs later)

-- In every state that a new hub reaches, delivering a message to a room writes it to every client
-- of the hub that joined this room.
pub deliver_reaches :
    (h : Hub) (conn : String) (c : ClientConnection) (fails : ℕ → Bool) (m : RoomMessage)
    → Steps new_hub h
    → lookup conn h.clients ≡ some c
    → c.room_id ≡ m.room_id
    → Written (conn, chat m.message) (deliver fails m h).0
unfolding deliver
deliver_reaches h conn c fails m steps found room =
    let (name, listed) = Steps-Listed new_hub h steps new_hub-Listed conn c found in
    rw (sym name, sym room) (written (chat m.message) c (members c.room_id h.rooms) listed)
