-- ===== src/Grpc/ServerBuilder/Tests.antt =====
-- Builders and what they build, and the laws at concrete builders.
use gopack.Prelude.{ℕ, ◌≡◌, refl, true, false, List, [], ◌∷◌, none, pos}
use gopack.Samples.{joining}
use gopack.Std.Strconv.{int_text}
use gopack.Grpc.Server.{GrpcServer, Env, nil_call, on_signal}
use gopack.Grpc.ServerBuilder.{
  ServerBuilder, Config, server, request_id, tracing, metrics, recovery, chain_unary, chain_stream,
  new_server_builder_from_config, address, build,
}
use gopack.Grpc.ServerBuilder.Laws.{
  Op, set_tracing, set_trace_url, set_service_name, call_build, add_service,
  build-new_server_builder_from_config,
}

abbrev blank : ServerBuilder ℕ ℕ
blank = record {
  options = [];
  services = 4 ∷ 5 ∷ [];
  enable_reflection = true;
  enable_health_check = false;
  metrics_enabled = true;
  tracing_enabled = false;
  service_name = "";
  grpc_port = pos 50051;
  grpc_host = "localhost";
  trace_url = "";
  shutdown_hook = none;
  is_built = false;
}

where_it_listens : address blank ≡ "localhost:50051"
unfolding address int_text
where_it_listens = refl

abbrev used : ServerBuilder ℕ ℕ
used = record blank { is_built = true }

-- a build that fails, is mended and asked again, and again
abbrev tries : List (Op ℕ ℕ)
tries =
    set_tracing true
    ∷ call_build
    ∷ set_trace_url "u"
    ∷ set_service_name "s"
    ∷ call_build
    ∷ add_service 6
    ∷ call_build
    ∷ []

abbrev cfg : Config
cfg = record {
  service_name = "accounts";
  grpc_host = "localhost";
  grpc_port = pos 50051;
  trace_enabled = false;
  trace_url = "";
  enable_reflection = true;
  metrics_enabled = true;
  metrics_port = pos 9102;
}

abbrev env : Env ℕ
env = record {
  metrics_start = λ p. none;
  traces_start = λ p. none;
  on_listen = λ s. none;
  metrics_stop = λ p. none;
  traces_stop = λ p. none;
  on_hook = λ k. none;
}

build-new_server_builder_from_config_example :
    let chain = request_id ∷ tracing ∷ metrics ∷ recovery ∷ [] in
    (srv : GrpcServer ℕ ℕ) × ((build (new_server_builder_from_config cfg)).1
      ≡ server (chain_unary chain ∷ chain_stream chain ∷ []) srv)
    × (srv.metric_provider ≡ none)
    × ((on_signal env joining srv).1 ≡ nil_call)
build-new_server_builder_from_config_example =
    build-new_server_builder_from_config cfg env joining (λ h. cc)
