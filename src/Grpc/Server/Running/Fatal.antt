-- ===== src/Grpc/Server/Running/Fatal.antt =====
-- Which schedules of a server run into a panic, and why (grpc/server.go).
use gopack.Prelude.{
  ◌≡◌, ◌∙◌, Bool, true, false, not, ◌&&◌, ◌||◌, List, [], ◌∷◌, Option, none, some, Multierr,
  is_some, if◌then◌else◌, arith, Option-cases, inl, inr,
}
use gopack.Errorschain.Laws.{error-add_error-add_error}
use gopack.Grpc.Server.{
  GrpcServer, Env, Run, Termination, Awaited, awaited, with_hook, crashed, start, start_providers,
  listen_on, cleanup, stop, on_signal, await_termination, terminate,
}
use gopack.Grpc.Server.Laws.{answer}
use gopack.Grpc.Server.Running.{
  Action, call_start, call_stop, call_await, serv, serve_fails, signal, stops,
}

abbrev pub is_crash : Option Awaited → Bool
is_crash (some (crashed end)) = true
is_crash _ = false

module _ {H K : Type 0} (s : GrpcServer H K) where
  -- the providers that there are start, or stop, without an error
  abbrev pub providers_start : Env K → Bool
  providers_start env =
      not (is_some (answer s.metric_provider env.metrics_start))
      && not (is_some (answer s.trace_provider env.traces_start))

  abbrev pub providers_stop : Env K → Bool
  providers_stop env =
      not (is_some (answer s.metric_provider env.metrics_stop))
      && not (is_some (answer s.trace_provider env.traces_stop))

  -- there is a hook, and it returns no error
  abbrev pub hook_passes : Env K → Bool
  hook_passes env = elim (s.shutdown_hook) [ none ↦ false | some k ↦ not (is_some (env.on_hook k)) ]

  -- whether there is a listener behind a call of `Start`
  abbrev pub listens : Env K → Bool → Bool
  listens env listening =
      if providers_start env then not (is_some (env.on_listen s.addr)) else listening

  -- Whether a schedule of the server runs into a panic, when the gRPC server was stopped before, or
  -- not, and when there is a listener, or not: some goroutine reaches `Serve` behind a stop that the
  -- providers let through, or without a listener, or `Serve` fails, or a signal finds a provider
  -- that does not stop, or no hook that passes.
  abbrev pub is_fatal : Bool → Bool → List (Action K) → Bool
  is_fatal stopped listening [] = false
  is_fatal stopped listening (call_start env ∷ acts) = is_fatal stopped (listens env listening) acts
  is_fatal stopped listening (call_stop env ∷ acts) =
      is_fatal (stopped || providers_stop env) listening acts
  is_fatal stopped listening (call_await ∷ acts) = is_fatal stopped listening acts
  is_fatal stopped listening (serv ∷ acts) =
      stopped || not listening || is_fatal stopped listening acts
  is_fatal stopped listening (serve_fails e ∷ acts) = true
  is_fatal stopped listening (signal env ∷ acts) = not (providers_stop env && hook_passes env)

  abbrev pub with_listener : Bool → GrpcServer H K
  with_listener listening = record s { listening = listening }

  pub stops-stop :
      (env : Env K) (l : Bool) → stops (stop env (with_listener l)).0 ≡ providers_stop env
  unfolding stop cleanup
  stops-stop env l = ground arith

  pub start-listens :
      (env : Env K) (l : Bool) → (start env (with_listener l)).0 ≡ with_listener (listens env l)
  unfolding start start_providers listen_on
  start-listens env l = ground arith

  failed-cleanup :
      (env : Env K) (l : Bool)
      → is_some (cleanup env (with_listener l)).1 ≡ not (providers_stop env)
  unfolding cleanup
  failed-cleanup env l = ground arith

  crash-with_hook :
      (m : Multierr) (t : Termination) (env : Env K) (cleaned : Run K)
      → is_crash (some (awaited t (with_hook env m cleaned s.shutdown_hook).1))
        ≡ not (not (is_some cleaned.1) && hook_passes env)
  crash-with_hook m t env cleaned = elim (Option-cases (s.shutdown_hook)) [
    | inl hookless ↦ rw hookless (ground arith)
    | inr (k, hooked) ↦
        rw (hooked, error-add_error-add_error m cleaned.1 (env.on_hook k)) (ground arith)
  ]

  pub crash-await_termination :
      (m : Multierr) (is_init windows : Bool) (env : Env K) (l : Bool)
      → is_crash (some (await_termination env m is_init windows (with_listener l)).1)
        ≡ not (providers_stop env && hook_passes env)
  unfolding await_termination on_signal
  crash-await_termination m is_init windows env l =
      crash-with_hook m (terminate is_init windows) env (cleanup env (with_listener l))
      ∙ rw (failed-cleanup env l) (ground arith)
