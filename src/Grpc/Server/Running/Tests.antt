-- ===== src/Grpc/Server/Running/Tests.antt =====
-- Schedules of a process with a server, and the law at a concrete one.
use gopack.Prelude.{ℕ, ◌≡◌, refl, Bool, true, false, [], ◌∷◌, none, some, message}
use gopack.Samples.{joining}
use gopack.Grpc.Server.{GrpcServer, Env, crashed, panics, nil_call, start, stop}
use gopack.Grpc.Server.Running.{
  Served, blocks, calls_nil, fails, Underlying, Process, call_start, call_stop, call_await, serv,
  process, step, run,
}

abbrev serve_of : Bool → Bool → Served
serve_of false true = blocks
serve_of true true = fails (message "the server has been stopped")
serve_of stopped false = calls_nil

serve_of-ne : (stopped : Bool) → serve_of stopped false ≡ blocks → ⊥
serve_of-ne true h = cc
serve_of-ne false h = cc

serve_of-ne_stopped : (given : Bool) → serve_of true given ≡ blocks → ⊥
serve_of-ne_stopped true h = cc
serve_of-ne_stopped false h = cc

abbrev underlying : Underlying
underlying = record {
  serve_of = serve_of;
  serve_of-open = refl;
  serve_of-stopped = serve_of-ne_stopped;
  serve_of-nil = serve_of-ne;
}

-- everything works
abbrev env : Env ℕ
env = record {
  metrics_start = λ p. none;
  traces_start = λ p. none;
  on_listen = λ s. none;
  metrics_stop = λ p. none;
  traces_stop = λ p. none;
  on_hook = λ k. none;
}

-- the address is in use
abbrev deaf : Env ℕ
deaf = record env { on_listen = λ s. some (message "in use") }

abbrev plain : GrpcServer ℕ ℕ
plain = record {
  addr = ":50051";
  registered = [];
  listening = false;
  trace_provider = none;
  metric_provider = none;
  shutdown_hook = some 9;
}

-- a process with nothing on its way
abbrev process_of : GrpcServer ℕ ℕ → Bool → Process ℕ ℕ
process_of s stopped = record {
  server = s;
  stopped = stopped;
  pending = 0;
  serving = 0;
  waiting = 0;
  over = none;
}

-- `Start` twice, and then the goroutine of the first call
abbrev twice_started : Process ℕ ℕ
twice_started = record (process_of plain false) { over = some (crashed nil_call) }

-- `Stop` comes before the goroutine.
reached_stopped :
    run underlying joining false false (call_start env ∷ call_stop env ∷ serv ∷ []) (process plain)
    ≡ some (record (process_of (record plain { listening = true }) true) {
      over = some (crashed (panics (message "the server has been stopped")));
    })
unfolding run step process start stop
reached_stopped = refl

-- the usual course, up to the signal
reached_serving :
    run underlying joining false false (call_start env ∷ call_await ∷ serv ∷ []) (process plain)
    ≡ some
        (record (process_of (record plain { listening = true }) false) { serving = 1; waiting = 1 })
unfolding run step process start
reached_serving = refl
