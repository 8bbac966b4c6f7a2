-- ===== src/Broadcaster.antt =====
-- internal/tcp/broadcaster_client.go. The socket is not the repository's: whether a dial, a deadline
-- and a write succeed are inputs of a call. The mutex makes a call one step.
use manga_hub.Prelude.{ℤ, pos, eq_ℤ, List, [], ◌∷◌, Bool, true, false, if◌then◌else◌}
use manga_hub.Models.{ProgressUpdate, Time}

-- rb.conn, which is nil or a connection
pub data Connection : Type 0 where
  closed connected : Connection

pub record Network : Type 0 where
  pub dials : Bool
  pub sets_deadline : Bool
  pub writes : Bool

-- the message of type progress_broadcast
pub record Published : Type 0 where
  pub progress : ProgressUpdate
  pub timestamp : ℤ

unfoldable pub stamped : Time → ProgressUpdate → ProgressUpdate
stamped now update = record update {
  timestamp = if eq_ℤ update.timestamp (pos 0) then now else update.timestamp;
}

unfoldable pub ensure_connected : Network → Connection → Bool × Connection
ensure_connected net connected = (true, connected)
ensure_connected net closed = if net.dials then (true, connected) else (false, closed)

abbrev write : Network → Published → Connection → List Published × Connection
write net message conn =
    if net.sets_deadline
    then (if net.writes then (message ∷ [], conn) else ([], closed))
    else ([], closed)

abbrev if_connected : Network → Published → Bool × Connection → List Published × Connection
if_connected net message (true, conn) = write net message conn
if_connected net message (false, conn) = ([], conn)

-- `PublishProgress`: what is written, and the connection after it
unfoldable pub publish_progress :
    Time → Network → ProgressUpdate → Connection → List Published × Connection
unfolding stamped ensure_connected
publish_progress now net update conn =
    let sent = stamped now update in
    if_connected net (record { progress = sent; timestamp = sent.timestamp })
      (ensure_connected net conn)
