-- ===== src/Grpc/ServerBuilder/Options.antt =====
-- grpc/server_builder.go: its constants, and the options of a gRPC server.
use gopack.Prelude.{ℕ, ◌*◌, List, ℤ, pos}

abbrev pub second : ℕ
second = 1000000000

abbrev pub max_connection_age : ℕ
max_connection_age = 600 * second

abbrev pub max_connection_age_grace : ℕ
max_connection_age_grace = 60 * second

abbrev pub keep_alive_time : ℕ
keep_alive_time = 1200 * second

abbrev pub default_grpc_port : ℤ
default_grpc_port = pos 50051

-- keepalive.ServerParameters, in nanoseconds
pub record ServerParameters : Type 0 where
  pub max_idle : ℕ
  pub max_age : ℕ
  pub max_age_grace : ℕ
  pub time : ℕ
  pub timeout : ℕ

pub data Interceptor : Type 0 where
  request_id tracing metrics recovery : Interceptor
  given : ℕ → Interceptor

pub data ServerOption : Type 0 where
  keepalive_params : ServerParameters → ServerOption
  chain_stream chain_unary : List Interceptor → ServerOption
  creds : ℕ → ServerOption
  given_option : ℕ → ServerOption
