-- ===== src/Cli/Addresses.antt =====
-- The addresses of cmd/cli/commands/shared/shared.go. `none` is the exit with status 1. The functions
-- net.SplitHostPort and net.JoinHostPort are those of a `Net`.
use Prim.Native.String.{◌++◌ as str_append}
use text.Mathlib.Text.{starts_with}
use manga_hub.Prelude.{
  String, Bool, ◌==◌, ◌||◌, if◌then◌else◌, Option, none, some, Result, ok, err, trim_space,
}
use manga_hub.Config.{must_env}
use manga_hub.Cli.Text.{ensure_leading_slash}

pub record Net : Type 0 where
  pub split : String → Result (String × String)
  pub join : String → String → String

-- a host that a server listens on and a client cannot call
abbrev is_any : String → Bool
is_any host = host == "0.0.0.0" || (host == "::" || host == "[::]")

abbrev and_then : {A B : Type 0} → Option A → (A → Option B) → Option B
and_then none f = none
and_then (some a) f = f a

module _ (net : Net) (getenv : String → String) where
  abbrev callable : String → String
  callable host =
      if trim_space host == "" then "localhost" else if is_any host then "localhost" else host

  unfoldable pub http_host_from_addr : String → Option String
  http_host_from_addr addr = elim (net.split addr) [
    | err e ↦ if starts_with addr ":" then some "localhost" else none
    | ok (host, port) ↦ some (callable host)
  ]

  unfoldable pub http_port_from_addr : String → Option String
  http_port_from_addr addr = elim (net.split addr) [
    | err e ↦ none
    | ok (host, port) ↦ if trim_space port == "" then none else some port
  ]

  abbrev replaced : String → String → String
  replaced fallback host = if host == "" || is_any host then fallback else host

  unfoldable pub client_addr_from_listen_addr : String → String → Option String
  client_addr_from_listen_addr listen_addr fallback = elim (net.split listen_addr) [
    | err e ↦ none
    | ok (host, port) ↦ some (net.join (replaced fallback (trim_space host)) port)
  ]

  -- the host and the port that HTTP_ADDR names
  unfoldable pub http_authority : Option String
  unfolding must_env http_host_from_addr http_port_from_addr
  http_authority = and_then (must_env getenv "HTTP_ADDR") λ addr.
      and_then (http_host_from_addr addr)
        λ host. and_then (http_port_from_addr addr) λ port. some (net.join host port)

  unfoldable pub api_url : String → Option String
  unfolding http_authority ensure_leading_slash
  api_url path =
      and_then http_authority
        λ authority. some (str_append (str_append "http://" authority) (ensure_leading_slash path))

  unfoldable pub web_socket_url : String → Option String
  unfolding http_authority ensure_leading_slash
  web_socket_url path =
      and_then http_authority
        λ authority. some (str_append (str_append "ws://" authority) (ensure_leading_slash path))

  -- TCPAddr, UDPAddr and GRPCAddr, by the variable's name
  unfoldable pub service_addr : String → Option String
  unfolding must_env http_host_from_addr client_addr_from_listen_addr
  service_addr name = and_then (must_env getenv name) λ listen_addr.
      and_then (must_env getenv "HTTP_ADDR") λ addr.
        and_then (http_host_from_addr addr) λ host. client_addr_from_listen_addr listen_addr host
