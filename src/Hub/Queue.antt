-- ===== src/Hub/Queue.antt =====
-- The broadcast channel's buffer, and the loop's own sends to it.
use manga_hub.Prelude.{
  ◌≤◌, String, List, [], ◌∷◌, ltb, ◌≡◌, refl, ◌∙◌, ap, lookup, length, length-append, arith,
  Bool-cases, Option-cases, inl, inr,
}
use manga_hub.Models.{Time}
use manga_hub.Hub.{
  Hub, selecting, sending, ClientConnection, RoomMessage, capacity, members, failed, with_user,
  emit, announcement, enter, register, leave, unregister, remove_client, remove_clients, deliver,
  deliver_private, close_all,
}
use manga_hub.Hub.Steps.{
  Step, registers, unregisters, delivers, delivers_private, stops, resumes, publishes,
  sends_private, Steps, done, next,
}

-- the buffer is within its capacity, and the loop waits in a send only where it is full
pub record Buffered (h : Hub) : Type 0 where
  pub within : length h.broadcast ≤ capacity
  pub full : (m : RoomMessage) → h.loop ≡ sending m → length h.broadcast ≡ capacity

emit-Buffered :
    (m : RoomMessage) (h : Hub)
    → h.loop ≡ selecting
    → length h.broadcast ≤ capacity
    → Buffered (emit m h)
unfolding emit
emit-Buffered m h running within = elim (Bool-cases (ltb (length h.broadcast) capacity)) [
  | inl free ↦ rw free (record {
    within = ground (arith, length-append h.broadcast (m ∷ []), free);
    full = λ k waits. ground (arith, running, waits);
  })
  | inr full ↦ rw full (record { within = within; full = λ k waits. ground (arith, full, within) })
]

unregister-Buffered :
    (now : Time) (conn : String) (h : Hub)
    → h.loop ≡ selecting
    → Buffered h
    → Buffered (unregister now conn h)
unfolding unregister leave
unregister-Buffered now conn h running b = elim (Option-cases (lookup conn h.clients)) [
  | inl missing ↦ rw (missing, unregister) b
  | inr (c, found) ↦
      rw (found, unregister)
        (emit-Buffered (announcement now c "left the chat") (leave conn c h) running b.within)
]

-- the clients whose writes failed are no matter of the channel
remove_clients-same :
    (conns : List String) (h : Hub)
    → ((remove_clients conns h).broadcast ≡ h.broadcast) × ((remove_clients conns h).loop ≡ h.loop)
unfolding remove_clients remove_client
remove_clients-same [] h = (refl, refl)
remove_clients-same (conn ∷ conns) h = remove_clients-same conns (remove_client conn h)

removed-Buffered :
    (conns : List String) (h : Hub)
    → h.loop ≡ selecting
    → length h.broadcast ≤ capacity
    → Buffered (remove_clients conns h)
removed-Buffered conns h running within =
    let (queue, loop) = remove_clients-same conns h in
    record { within = rw queue within; full = λ m waits. ground (arith, running, loop, waits) }

shorter :
    (m : RoomMessage) (rest queue : List RoomMessage)
    → queue ≡ m ∷ rest
    → length queue ≤ capacity
    → length rest ≤ capacity
shorter m rest queue queued within = omega (arith, ap length queued)

Step-Buffered : (h h' : Hub) → Step h h' → Buffered h → Buffered h'
unfolding register enter deliver deliver_private close_all
Step-Buffered _ _ (registers now c h running) b =
    emit-Buffered (announcement now c "joined the chat") (enter c h) running b.within
Step-Buffered _ _ (unregisters now conn h running) b = unregister-Buffered now conn h running b
Step-Buffered _ _ (delivers fails m rest h running queued) b =
    removed-Buffered (failed fails (members m.room_id h.rooms)) (record h { broadcast = rest })
      running (shorter m rest h.broadcast queued b.within)
Step-Buffered _ _ (delivers_private fails d rest h running queued) b =
    removed-Buffered (failed fails (with_user d.recipient_id h.clients))
      (record h { private = rest }) running b.within
Step-Buffered _ _ (stops h running) b = record { within = b.within; full = λ m waits. cc }
Step-Buffered _ _ (resumes m h waiting free) b = record {
  within = omega (arith, length-append h.broadcast (m ∷ []));
  full = λ k waits. cc;
}
Step-Buffered _ _ (publishes m h free) b = record {
  within = omega (arith, length-append h.broadcast (m ∷ []));
  full = λ k waits. absurd (omega (arith, b.full k waits));
}
Step-Buffered _ _ (sends_private d h free) b = record { within = b.within; full = b.full }

Steps-Buffered : (h h' : Hub) → Steps h h' → Buffered h → Buffered h'
Steps-Buffered _ _ (done h) b = b
Steps-Buffered _ _ (next h₁ h₂ h₃ first rest) b =
    Steps-Buffered h₂ h₃ rest (Step-Buffered h₁ h₂ first b)

-- what a hub that waits in its own send keeps
pub record Stuck (m : RoomMessage) (h h' : Hub) : Type 0 where
  pub loop : h'.loop ≡ sending m
  pub broadcast : h'.broadcast ≡ h.broadcast
  pub clients : h'.clients ≡ h.clients
  pub rooms : h'.rooms ≡ h.rooms

Step-Stuck :
    (m : RoomMessage) (h h' : Hub)
    → Step h h'
    → h.loop ≡ sending m
    → length h.broadcast ≡ capacity
    → Stuck m h h'
Step-Stuck m _ _ (registers now c h running) waits full = cc
Step-Stuck m _ _ (unregisters now conn h running) waits full = cc
Step-Stuck m _ _ (delivers fails k rest h running queued) waits full = cc
Step-Stuck m _ _ (delivers_private fails d rest h running queued) waits full = cc
Step-Stuck m _ _ (stops h running) waits full = cc
Step-Stuck m _ _ (resumes k h waiting free) waits full = absurd (omega (arith, full))
Step-Stuck m _ _ (publishes k h free) waits full = absurd (omega (arith, full))
Step-Stuck m _ _ (sends_private d h free) waits full = record {
  loop = waits;
  broadcast = refl;
  clients = refl;
  rooms = refl;
}

Steps-Stuck :
    (m : RoomMessage) (h h' : Hub) → Steps h h' → Buffered h → h.loop ≡ sending m → Stuck m h h'
Steps-Stuck m _ _ (done h) b waits = record {
  loop = waits;
  broadcast = refl;
  clients = refl;
  rooms = refl;
}
Steps-Stuck m _ _ (next h₁ h₂ h₃ first rest) b waits =
    let now = Step-Stuck m h₁ h₂ first waits (b.full m waits) in
    let later = Steps-Stuck m h₂ h₃ rest (Step-Buffered h₁ h₂ first b) now.loop in
    record {
      loop = later.loop;
      broadcast = later.broadcast ∙ now.broadcast;
      clients = later.clients ∙ now.clients;
      rooms = later.rooms ∙ now.rooms;
    }

emit_full :
    (m : RoomMessage) (h : Hub) → length h.broadcast ≡ capacity → (emit m h).loop ≡ sending m
unfolding emit
emit_full m h full = ground (arith, full)

-- If a client registers while the broadcast buffer is full, the loop waits in its own send for
-- ever: whatever the other goroutines do, it delivers nothing more, and no client joins, leaves or
-- is dropped.
pub register_sticks :
    (now : Time) (c : ClientConnection) (h h' : Hub)
    → h.loop ≡ selecting
    → length h.broadcast ≡ capacity
    → Steps (register now c h) h'
    → Stuck (announcement now c "joined the chat") (register now c h) h'
unfolding register enter
register_sticks now c h h' running full steps =
    let m = announcement now c "joined the chat" in
    Steps-Stuck m (register now c h) h' steps
      (emit-Buffered m (enter c h) running (omega (arith, full))) (emit_full m (enter c h) full)
