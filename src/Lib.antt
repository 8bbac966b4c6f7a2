-- ===== src/Lib.antt =====
-- MangaHub, a manga tracker: an HTTP and gRPC API over an SQLite store with a Redis cache; TCP, UDP
-- and WebSocket servers that push progress, notifications and chat; a collector that fills the
-- catalogue from other sites; and a command line client. Paths are from the repository's root.
--
-- Prelude: Go's signed integers, the functions of strings and strconv that the code calls, errors,
-- sorting, printing. Exec: a method with an error result on a shared state, whose writes stay after
-- an error. Models: pkg/models.
-- Store: pkg/database. A repository method is a program of SQL statements over the rows of the
-- tables (Store.Tables, Store.Sql); Users, Library, History, Reviews, Catalog and Chats follow the
-- repository files, Store.Listing is `ListManga`, and Store.Schema states the keys and foreign keys
-- of schema_repository.go.
-- Cache: internal/cache/redis.go and the versioned cache of the services.
-- User: internal/user, every operation of service.go and cache.go; User.Overlap is about two updates
-- at once.
-- Auth: internal/auth/service.go, with the clock at each of its reads; Auth.Revocation is about the
-- tokens that were logged out, with steps of other requests in between.
-- MangaService, ReviewService, ChatService: internal/manga, internal/review, internal/chat.
-- Tcp: internal/tcp, the messages, the rules for conflicting progress, and the handlers. A line is
-- handled in one step, with no other handler running meanwhile.
-- Broadcaster: internal/tcp/broadcaster_client.go, which the API sends progress through.
-- Udp: internal/udp, the registry of clients and the notifications to them.
-- Hub: internal/websocket/hub.go, with its goroutines as a step relation (Hub.Steps).
-- Chat: internal/websocket/handler.go, the messages of one connection to a chat room.
-- Http: internal/api/handler, internal/auth/middleware.go and pkg/utils. A handler takes the decoded
-- request and the services' methods and gives a status and a body; Http.Router is
-- internal/api/router, with the middleware in front of the protected routes, and without /health,
-- the Swagger pages and /ws/chat, which have none.
-- Grpc: internal/grpc/service.go.
-- Collector: internal/data-collector/fetcher, from the sites' entries to the seed file.
-- Config: internal/config. Cli: the helpers and local rules of cmd/cli/commands.
-- Tests: sample data, and the theorems at concrete inputs.
--
-- Parameters. SQLite's driver is a sequence of ticks: for each statement, whether the driver fails,
-- and the clock it reads; its text search and LIKE are functions. bcrypt and JWT are a record of
-- their operations; what is assumed of JWT is Auth.Revocation.Lawful. Redis is a record of its three
-- commands with a state of their own; a cached JSON text is the value it encodes. Characters outside
-- ASCII are lowered by a parameter (Unicode). SHA-1, fmt's %q, strconv.ParseFloat, the formats of a
-- time, net.SplitHostPort and net.JoinHostPort, the environment, the answers of the sites the
-- collector asks and the seed file are parameters where they are used. What gin decodes from a
-- request is an input. The servers' sockets are inputs: the messages that arrive, and which writes
-- fail.
--
-- Integers have no fixed width where the code compares them, counts up by one, or adds a day to a
-- time. The offset of a page wraps at 2^64, Atoi refuses what an int does not hold, and gRPC's
-- conversions to int32 are written out. Loops are over finite lists and counted pages, so nothing
-- takes fuel but the printing of a number, whose fuel is more than the number, hence more than its
-- digits.
--
-- Not modelled: the CORS headers and gin's matching of paths, the generated protocol code, schema
-- migration and the full-text index, the programs that start the servers, the requests and the
-- printing of the command line client, and the sockets themselves.
pub mod Prelude
pub mod Models
pub mod Exec
pub mod Store
pub mod Cache
pub mod User
pub mod Udp
pub mod Hub
pub mod Tcp
pub mod Auth
pub mod Collector
pub mod MangaService
pub mod ReviewService
pub mod ChatService
pub mod Http
pub mod Grpc
pub mod Chat
pub mod Broadcaster
pub mod Config
pub mod Cli
pub mod Tests
