-- ===== src/Hub/Steps.antt =====
-- The hub among the goroutines that send to its channels: every interleaving is a sequence of steps.
use manga_hub.Prelude.{ℕ, ◌<◌, String, List, [], ◌∷◌, ◌++◌, Bool, ◌≡◌, length}
use manga_hub.Models.{Time}
use manga_hub.Hub.{
  Hub, selecting, sending, ClientConnection, RoomMessage, PrivateDelivery, capacity, register,
  unregister, deliver, deliver_private, close_all,
}

-- One step: a case of the loop's select, the loop's pending send, or a send to a buffered channel
-- by another goroutine. A send happens only where the buffer has room.
pub data Step : Hub → Hub → Type 0 where
  registers :
      (now : Time) (c : ClientConnection) (h : Hub) → h.loop ≡ selecting → Step h (register now c h)
  unregisters :
      (now : Time) (conn : String) (h : Hub) → h.loop ≡ selecting → Step h (unregister now conn h)
  delivers :
      (fails : ℕ → Bool) (m : RoomMessage) (rest : List RoomMessage) (h : Hub)
      → h.loop ≡ selecting
      → h.broadcast ≡ m ∷ rest
      → Step h (deliver fails m (record h { broadcast = rest })).1
  delivers_private :
      (fails : ℕ → Bool) (d : PrivateDelivery) (rest : List PrivateDelivery) (h : Hub)
      → h.loop ≡ selecting
      → h.private ≡ d ∷ rest
      → Step h (deliver_private fails d (record h { private = rest })).1
  stops : (h : Hub) → h.loop ≡ selecting → Step h (close_all h)
  resumes :
      (m : RoomMessage) (h : Hub)
      → h.loop ≡ sending m
      → length h.broadcast < capacity
      → Step h (record h { broadcast = h.broadcast ++ m ∷ []; loop = selecting })
  publishes :
      (m : RoomMessage) (h : Hub)
      → length h.broadcast < capacity
      → Step h (record h { broadcast = h.broadcast ++ m ∷ [] })
  sends_private :
      (d : PrivateDelivery) (h : Hub)
      → length h.private < capacity
      → Step h (record h { private = h.private ++ d ∷ [] })

pub data Steps : Hub → Hub → Type 0 where
  done : (h : Hub) → Steps h h
  next : (h₁ h₂ h₃ : Hub) → Step h₁ h₂ → Steps h₂ h₃ → Steps h₁ h₃
