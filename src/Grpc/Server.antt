-- ===== src/Grpc/Server.antt =====
-- grpc/server.go: starting and stopping a server.
-- What the providers, the network, the gRPC server and the shutdown hook answer is a parameter,
-- `Env`; what a method makes them do is a list of effects, in order. A method returns an error or
-- none, or it panics.
pub mod Laws
pub mod Tracing
pub mod Running
mod Tests
use gopack.Prelude.{
  ℕ, Bool, true, false, String, List, [], ◌∷◌, ◌++◌, map, Option, none, some, Error, Multierr,
  is_some, if◌then◌else◌,
}
use gopack.Errorschain.{return_first, add_error, error}
use gopack.Errorschain

-- A trace.Provider or metric.Provider by what it was made with: the endpoint of its exporter and
-- the name of the service.
pub record Provider : Type 0 where
  pub exporter_endpoint : String
  pub service_name : String

-- What was registered with the underlying gRPC server. `H` is the type of a service.
pub data Registration (H : Type 0) : Type 0 where
  service : H → Registration H
  reflection : Registration H
  health : Registration H

-- `K` is the type of a shutdown hook.
pub record GrpcServer (H K : Type 0) : Type 0 where
  pub addr : String
  pub registered : List (Registration H)
  pub listening : Bool
  pub trace_provider : Option Provider
  pub metric_provider : Option Provider
  pub shutdown_hook : Option K

pub data Effect (K : Type 0) : Type 0 where
  register_metrics : Effect K
  start_metrics start_traces stop_metrics stop_traces : Provider → Effect K
  listen : String → Effect K
  serve graceful_stop stop_notify : Effect K
  run_hook : K → Effect K

pub record Env (K : Type 0) : Type 0 where
  pub metrics_start : Provider → Option Error
  pub traces_start : Provider → Option Error
  pub on_listen : String → Option Error
  pub metrics_stop : Provider → Option Error
  pub traces_stop : Provider → Option Error
  pub on_hook : K → Option Error

-- How a method ends, with what it did: it returns, or it panics, with an error or because it
-- calls a function that is nil.
pub data End : Type 0 where
  returns : Option Error → End
  panics : Error → End
  nil_call : End

abbrev pub Run : Type 0 → Type 0
Run K = List (Effect K) × Option Error

-- `if err := a; err != nil { return err }`, and then `b`
infixr 5 ◌then_do◌
abbrev pub ◌then_do◌ : {K : Type 0} → Run K → Run K → Run K
◌then_do◌ (es, none) b = (es ++ b.0, b.1)
◌then_do◌ (es, some err) b = (es, some err)

-- a step of a provider, which is made only if there is one
abbrev pub with_provider : {K : Type 0} → Option Provider → (Provider → Run K) → Run K
with_provider none f = ([], none)
with_provider (some p) f = f p

-- `s.shutdownHook(ctx)` where it is not nil
abbrev pub hook_run : {K : Type 0} → Env K → K → Run K
hook_run env k = (run_hook k ∷ [], env.on_hook k)

-- behind the error chain: `panic(err)`, or `signal.Stop` and the end of the wait
abbrev pub signal_end : {K : Type 0} → List (Effect K) → Option Error → List (Effect K) × End
signal_end effects (some e) = (effects, panics e)
signal_end effects none = (effects ++ stop_notify ∷ [], returns none)

-- The error chain's arguments are computed before it is asked for its error, so the hook is called
-- whatever the clean-up returned. A nil hook makes the call panic.
abbrev pub with_hook : {K : Type 0} → Env K → Multierr → Run K → Option K → List (Effect K) × End
with_hook env m cleaned none = (cleaned.0, nil_call)
with_hook env m cleaned (some k) = signal_end (cleaned.0 ++ (hook_run env k).0) (
    error m
      (add_error (hook_run env k).1 (add_error cleaned.1 (Errorschain.new (return_first ∷ [])))))

-- What the process does to itself: `os.Exit(0)`, `Kill`, or a SIGTERM.
pub data Termination : Type 0 where
  exits_with_zero is_killed is_terminated : Termination

abbrev pub terminate : Bool → Bool → Termination
terminate is_init windows =
    if is_init then exits_with_zero else if windows then is_killed else is_terminated

-- A panic of the goroutine ends the process before that.
pub data Awaited : Type 0 where
  ended : Termination → Awaited
  crashed : End → Awaited

abbrev pub awaited : Termination → End → Awaited
awaited t (returns err) = ended t
awaited t (panics err) = crashed (panics err)
awaited t nil_call = crashed nil_call

module _ {H K : Type 0} (env : Env K) where
  -- the body of `Start` before `net.Listen`
  pub start_providers : GrpcServer H K → Run K
  start_providers s =
      with_provider s.metric_provider
        (λ p. (register_metrics ∷ start_metrics p ∷ [], env.metrics_start p))
      then_do with_provider s.trace_provider (λ p. (start_traces p ∷ [], env.traces_start p))

  -- `net.Listen`: the server gets both of its results, so that no listener is left where it fails;
  -- `go s.serv()` is the effect `serve`
  pub listen_on : List (Effect K) → GrpcServer H K → GrpcServer H K × Run K
  listen_on effects s = elim (env.on_listen s.addr) [
    | some e ↦ (record s { listening = false }, (effects ++ listen s.addr ∷ [], some e))
    | none ↦ (record s { listening = true }, (effects ++ listen s.addr ∷ serve ∷ [], none))
  ]

  -- `Start`
  pub start : GrpcServer H K → GrpcServer H K × Run K
  unfolding start_providers listen_on
  start s =
      let (effects, err) = start_providers s in
      elim err [ some e ↦ (s, (effects, some e)) | none ↦ listen_on effects s ]

  pub cleanup : GrpcServer H K → Run K
  cleanup s =
      with_provider s.metric_provider (λ p. (stop_metrics p ∷ [], env.metrics_stop p))
      then_do with_provider s.trace_provider (λ p. (stop_traces p ∷ [], env.traces_stop p))
      then_do (graceful_stop ∷ [], none)

  -- `Stop`
  pub stop : GrpcServer H K → Run K
  unfolding cleanup
  stop s =
      cleanup s then_do (elim (s.shutdown_hook) [ none ↦ ([], none) | some k ↦ hook_run env k ])

  module _ (m : Multierr) where
    -- The goroutine of `AwaitTermination`, from the signal on.
    pub on_signal : GrpcServer H K → List (Effect K) × End
    unfolding cleanup
    on_signal s = with_hook env m (cleanup s) s.shutdown_hook

    -- `AwaitTermination`, from the signal on; `is_init` is the test of the process id, `windows` that
    -- of `runtime.GOOS`
    pub await_termination : Bool → Bool → GrpcServer H K → List (Effect K) × Awaited
    unfolding on_signal
    await_termination is_init windows s =
        let (effects, end) = on_signal s in (effects, awaited (terminate is_init windows) end)
