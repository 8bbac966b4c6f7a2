-- ===== src/Config.antt =====
-- internal/config/config.go. `getenv` is os.Getenv once .env is loaded; `none` is the exit with
-- status 1.
use manga_hub.Prelude.{ℕ, String, ◌==◌, if◌then◌else◌, Option, none, some, trim_space}

pub record Config : Type 0 where
  pub http_addr : String
  pub tcp_addr : String
  pub udp_addr : String
  pub grpc_addr : String
  pub tcp_server_addr : String
  pub database_path : String
  pub seed_file : String
  pub jwt_secret : String
  pub allowed_origin : String
  pub redis_addr : String
  pub redis_password : String
  pub redis_db : ℕ

module _ (getenv : String → String) where
  unfoldable pub optional_env : String → String
  optional_env key = trim_space (getenv key)

  unfoldable pub must_env : String → Option String
  must_env key = let value = trim_space (getenv key) in if value == "" then none else some value

  abbrev and_then : {A B : Type 0} → Option A → (A → Option B) → Option B
  and_then none f = none
  and_then (some a) f = f a

  unfoldable pub load : Option Config
  unfolding must_env optional_env
  load = and_then (must_env "HTTP_ADDR") λ http. and_then (must_env "TCP_ADDR") λ tcp.
      and_then (must_env "UDP_ADDR") λ udp. and_then (must_env "GRPC_ADDR") λ grpc.
        and_then (must_env "TCP_SERVER_ADDR") λ tcp_server.
          and_then (must_env "DB_PATH") λ database. and_then (must_env "SEED_FILE") λ seed.
            and_then (must_env "JWT_SECRET") λ secret.
              and_then (must_env "ALLOWED_ORIGIN") λ origin. some (record {
                http_addr = http;
                tcp_addr = tcp;
                udp_addr = udp;
                grpc_addr = grpc;
                tcp_server_addr = tcp_server;
                database_path = database;
                seed_file = seed;
                jwt_secret = secret;
                allowed_origin = origin;
                redis_addr = optional_env "REDIS_ADDR";
                redis_password = optional_env "REDIS_PASSWORD";
                redis_db = 0;
              })
