-- ===== src/Grpc/Server/Running.antt =====
-- grpc/server.go: a process with a server in it, whose methods and goroutines come in any order.
-- A schedule is a list of actions: the calls of `Start`, `Stop` and `AwaitTermination`, each with
-- what its surroundings answer, and the steps of the goroutines that they have started. The gRPC
-- server of google.golang.org/grpc is `Underlying`, by what its documentation says of `Serve`.
pub mod Fatal
pub mod Laws
mod Tests
use gopack.Prelude.{
  ℕ, zero, suc, ◌+◌, ◌≡◌, ◌≢◌, Bool, true, false, ◌||◌, List, [], ◌∷◌, Option, none, some, Error,
  Multierr, is_some, if◌then◌else◌,
}
use gopack.Grpc.Server.{
  GrpcServer, Effect, graceful_stop, serve, Env, End, panics, nil_call, Awaited, crashed, start,
  stop, await_termination,
}

-- What `Serve` does before it returns: it blocks, it returns an error at once, or it calls a method
-- of a listener that is nil.
pub data Served : Type 0 where
  blocks calls_nil : Served
  fails : Error → Served

-- `Serve`, by whether the server was stopped before, and whether it is given a listener. It serves
-- on a listener until the server is stopped, returns an error when it was stopped before, and
-- cannot serve without a listener.
pub record Underlying : Type 0 where
  pub serve_of : Bool → Bool → Served
  pub serve_of-open : serve_of false true ≡ blocks
  pub serve_of-stopped : (given : Bool) → serve_of true given ≢ blocks
  pub serve_of-nil : (stopped : Bool) → serve_of stopped false ≢ blocks

-- `pending` goroutines are on the way to `Serve`, `serving` are blocked in it, and `waiting` wait for
-- a signal. `over` says how the process has come to its end.
pub record Process (H K : Type 0) : Type 0 where
  pub server : GrpcServer H K
  pub stopped : Bool
  pub pending : ℕ
  pub serving : ℕ
  pub waiting : ℕ
  pub over : Option Awaited

pub data Action (K : Type 0) : Type 0 where
  call_start call_stop : Env K → Action K
  call_await serv : Action K
  serve_fails : Error → Action K
  signal : Env K → Action K

abbrev pub stops : {K : Type 0} → List (Effect K) → Bool
stops [] = false
stops (graceful_stop ∷ es) = true
stops (e ∷ es) = stops es

abbrev pub serves : {K : Type 0} → List (Effect K) → Bool
serves [] = false
serves (serve ∷ es) = true
serves (e ∷ es) = serves es

module _ {H K : Type 0} where
  -- the server as `Build` returns it
  pub process : GrpcServer H K → Process H K
  process s = record {
    server = s;
    stopped = false;
    pending = 0;
    serving = 0;
    waiting = 0;
    over = none;
  }

  -- `GracefulStop` makes `Serve` return nil.
  pub stop_serving : Bool → Process H K → Process H K
  stop_serving false p = p
  stop_serving true p = record p { stopped = true; serving = 0 }

  pub start_step : Env K → Process H K → Process H K
  start_step env p =
      let (s, (effects, err)) = start env p.server in
      record p { server = s; pending = if serves effects then p.pending + 1 else p.pending }

  pub stop_step : Env K → Process H K → Process H K
  unfolding stop_serving
  stop_step env p = stop_serving (stops (stop env p.server).0) p

  -- `serv` up to where `Serve` blocks, or to its panic
  pub served : Served → ℕ → Process H K → Process H K
  served blocks n p = record p { pending = n; serving = p.serving + 1 }
  served calls_nil n p = record p { pending = n; over = some (crashed nil_call) }
  served (fails e) n p = record p { pending = n; over = some (crashed (panics e)) }

  -- `Serve` returns an error while the server is not stopped, and `serv` panics with it
  pub fail_step : Error → Process H K → Option (Process H K)
  fail_step e p = elim p.serving [
    | zero ↦ none
    | suc n ↦ some (record p { serving = n; over = some (crashed (panics e)) })
  ]

  module _ (u : Underlying) (m : Multierr) (is_init windows : Bool) where
    pub serv_step : Process H K → Option (Process H K)
    unfolding served
    serv_step p = elim p.pending [
      | zero ↦ none
      | suc n ↦ some (served (u.serve_of p.stopped p.server.listening) n p)
    ]

    -- a signal reaches the goroutine of an `AwaitTermination`
    pub signal_step : Env K → Process H K → Option (Process H K)
    unfolding stop_serving
    signal_step env p = elim p.waiting [
      | zero ↦ none
      | suc n ↦
          let (effects, end) = await_termination env m is_init windows p.server in
          some (record (stop_serving (stops effects) p) { waiting = n; over = some end })
    ]

    pub step_of : Action K → Process H K → Option (Process H K)
    unfolding start_step stop_step serv_step fail_step signal_step
    step_of (call_start env) p = some (start_step env p)
    step_of (call_stop env) p = some (stop_step env p)
    step_of call_await p = some (record p { waiting = p.waiting + 1 })
    step_of serv p = serv_step p
    step_of (serve_fails e) p = fail_step e p
    step_of (signal env) p = signal_step env p

    -- nothing happens in a process that is over
    pub step : Action K → Process H K → Option (Process H K)
    unfolding step_of
    step a p = if is_some p.over then none else step_of a p

    pub run : List (Action K) → Process H K → Option (Process H K)
    run [] p = some p
    run (a ∷ acts) p = elim (step a p) [ none ↦ none | some q ↦ run acts q ]
