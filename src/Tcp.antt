-- ===== src/Tcp.antt =====
-- internal/tcp: conn.go, broadcast.go and types.go. The connections are not modelled: a handler
-- returns the messages that it writes, and which writes fail is an input. The clients' map is
-- keyed by the remote address.
pub mod Messages
pub mod Rules
pub mod Handlers
pub mod Conflicts
pub mod Forward
