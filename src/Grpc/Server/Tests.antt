-- ===== src/Grpc/Server/Tests.antt =====
-- Runs of a server's methods, and the laws at concrete servers.
use gopack.Prelude.{
  ◌∷◌, ◌++◌, Error, ◌⊎◌, false, arith, true, pos, ℕ, ◌≡◌, refl, false, [], none, some, message, All,
}
use gopack.Samples.{joining}
use gopack.Grpc.Server.{
  Provider, GrpcServer, Env, start, await_termination, cleanup, stop_traces, graceful_stop,
  run_hook, stop_notify, panics, ended, is_terminated, crashed,
}
use gopack.Otel.Provider.{made, failed, Sdk, Globals}
use text.Mathlib.TextEquality.{eq_iff}
use gopack.Grpc.ServerBuilder.{Config, ServerBuilder, server, new_server_builder_from_config, build}
use gopack.Grpc.Server.Tracing.{traced_by_sdk, start-build}
use gopack.Grpc.Server.Laws.{NotLate, CanStop, await_termination_lem}

abbrev collector : Provider
collector = record { exporter_endpoint = "collector:4317"; service_name = "accounts" }

-- everything works but the shutdown hooks
abbrev env : Env ℕ
env = record {
  metrics_start = λ p. none;
  traces_start = λ p. none;
  on_listen = λ s. none;
  metrics_stop = λ p. none;
  traces_stop = λ p. none;
  on_hook = λ k. some (message "hook");
}

abbrev traced : GrpcServer ℕ ℕ
traced = record {
  addr = ":50051";
  registered = [];
  listening = false;
  trace_provider = some collector;
  metric_provider = none;
  shutdown_hook = some 9;
}

abbrev deaf : Env ℕ
deaf = record env { on_listen = λ s. some (message "in use") }

abbrev stuck : Env ℕ
stuck = record env { traces_stop = λ p. some (message "flush") }

abbrev hookless : GrpcServer ℕ ℕ
hookless = record traced { shutdown_hook = none }

-- an SDK that has no exporter of traces
abbrev sdk : Sdk ℕ ℕ
sdk = record {
  new_resource = λ name. made 1;
  trace_exporter = λ url. failed (message "no exporter");
  metric_exporter = λ url. made 2;
}

abbrev unset : Globals ℕ ℕ
unset = record { tracer = none; meter = none; propagators = [] }

abbrev config : Config
config = record {
  service_name = "accounts";
  grpc_host = "";
  grpc_port = pos 50051;
  trace_enabled = true;
  trace_url = "collector:4317";
  enable_reflection = false;
  metrics_enabled = false;
  metrics_port = pos 0;
}

start-build_example :
    let sb : ServerBuilder ℕ ℕ = new_server_builder_from_config config in
    (srv : GrpcServer ℕ ℕ) × ((build sb).1 ≡ server sb.options srv)
    × ((start (traced_by_sdk sdk unset deaf) srv).1.1 ≡ some (message "no exporter"))
start-build_example =
    start-build sdk unset config deaf refl (λ e. ground (arith, eq_iff "collector:4317" ""))
      (λ e. ground (arith, eq_iff "accounts" ""))

await_termination_lem_example :
    let (effects, end) = await_termination stuck joining false false traced in
    let stops = stop_traces collector ∷ graceful_stop ∷ [] in
    (CanStop stuck traced
      × (stuck.on_hook 9 ≡ none)
      × (effects ≡ (stops ++ run_hook 9 ∷ []) ++ stop_notify ∷ [])
      × (end ≡ ended is_terminated))
    ⊎ ((e : Error) × ((cleanup stuck traced).1 ≡ some e)
        × All (NotLate {K = ℕ}) (cleanup stuck traced).0
        × (effects ≡ (cleanup stuck traced).0 ++ run_hook 9 ∷ [])
        × (end ≡ crashed (panics e)))
    ⊎ ((e : Error) × CanStop stuck traced
        × (stuck.on_hook 9 ≡ some e)
        × (effects ≡ stops ++ run_hook 9 ∷ [])
        × (end ≡ crashed (panics e)))
await_termination_lem_example = await_termination_lem stuck traced joining false false 9 refl
