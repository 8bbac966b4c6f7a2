-- ===== src/Http.antt =====
-- internal/api/handler, internal/auth/middleware.go and pkg/utils/http.go: the HTTP handlers. Gin is
-- a library: `Request` holds what a handler asks of its context, and a `Response` what it answers.
-- The decoded and validated JSON body (ShouldBindJSON) is an argument.
pub mod Requests
pub mod Limits
pub mod Lists
pub mod Members
pub mod Titles
pub mod Feedback
pub mod Accounts
pub mod Rooms
pub mod Health
pub mod Router
