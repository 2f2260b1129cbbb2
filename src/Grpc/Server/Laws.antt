-- ===== src/Grpc/Server/Laws.antt =====
-- Starting and stopping a server, step by step (grpc/server.go).
use gopack.Prelude.{
  ◌≡◌, refl, ◌≢◌, ◌⊎◌, Bool, true, false, List, [], ◌∷◌, ◌++◌, Option, none, some, Error, Multierr,
  All, arith, Option-cases, inl, inr,
}
use gopack.Errorschain.Laws.{error-add_error-add_error}
use gopack.Grpc.Server.{
  Provider, GrpcServer, Effect, register_metrics, start_metrics, start_traces, stop_metrics,
  stop_traces, listen, serve, graceful_stop, stop_notify, run_hook, Env, returns, panics, nil_call,
  Run, ◌then_do◌, start_providers, start, cleanup, hook_run, stop, on_signal, ended, crashed,
  terminate, await_termination,
}

-- the answer of a provider, if there is one
abbrev pub answer : Option Provider → (Provider → Option Error) → Option Error
answer none f = none
answer (some p) f = f p

abbrev is_serve : {K : Type 0} → Effect K → Bool
is_serve serve = true
is_serve _ = false

-- what a stop does beyond the providers
abbrev is_late : {K : Type 0} → Effect K → Bool
is_late graceful_stop = true
is_late (run_hook k) = true
is_late _ = false

abbrev pub NotServe : {K : Type 0} → Effect K → Type 0
NotServe e = is_serve e ≡ false

abbrev pub NotLate : {K : Type 0} → Effect K → Type 0
NotLate e = is_late e ≡ false

then_do_failed : {K : Type 0} (a b : Run K) {e : Error} → a.1 ≡ some e → (a then_do b) ≡ a
then_do_failed (es, none) b h = cc
then_do_failed (es, some d) b h = refl

module _ {H K : Type 0} (env : Env K) (s : GrpcServer H K) where
  -- The providers that there are start, and the address can be listened on.
  abbrev pub CanStart : Type 0
  CanStart =
      (answer s.metric_provider env.metrics_start ≡ none)
      × (answer s.trace_provider env.traces_start ≡ none)
      × (env.on_listen s.addr ≡ none)

  -- what `Start` does with the providers, in order
  abbrev pub provider_starts : List (Effect K)
  provider_starts =
      (elim (s.metric_provider) [ none ↦ [] | some p ↦ register_metrics ∷ start_metrics p ∷ [] ])
      ++ (elim (s.trace_provider) [ none ↦ [] | some p ↦ start_traces p ∷ [] ])

  -- A server whose providers start and whose address can be listened on gets its listener, and
  -- serves behind all of that; a provider that it does not have is passed over.
  pub start_serves :
      CanStart
      → (start env s
          ≡ (record s { listening = true }, (provider_starts ++ listen s.addr ∷ serve ∷ [], none)))
        × All NotServe provider_starts
  unfolding start start_providers
  start_serves h = (ground arith, ground arith)

  -- When `Start` returns an error, it does not serve, and one of the providers or the listener
  -- refused: behind a provider that refuses the server is as it was, and behind the listener it
  -- has none, also where it had one.
  pub start_failed :
      (e : Error)
      → (start env s).1.1 ≡ some e
      → All NotServe (start env s).1.0
        × (CanStart → ⊥)
        × (((start_providers env s).1 ≡ some e) × ((start env s).0 ≡ s)
            ⊎ (env.on_listen s.addr ≡ some e) × ((start env s).0 ≡ record s { listening = false }))
  unfolding start start_providers
  start_failed e h = (ground arith, ground arith, ground arith)

  -- the providers that there are stop
  abbrev pub CanStop : Type 0
  CanStop =
      (answer s.metric_provider env.metrics_stop ≡ none)
      × (answer s.trace_provider env.traces_stop ≡ none)

  -- what `Stop` does with the providers, in order
  abbrev pub provider_stops : List (Effect K)
  provider_stops =
      (elim (s.metric_provider) [ none ↦ [] | some p ↦ stop_metrics p ∷ [] ])
      ++ (elim (s.trace_provider) [ none ↦ [] | some p ↦ stop_traces p ∷ [] ])

  cleanup_ok : CanStop → cleanup env s ≡ (provider_stops ++ graceful_stop ∷ [], none)
  unfolding cleanup
  cleanup_ok h = ground arith

  cleanup_failed :
      (e : Error) → (cleanup env s).1 ≡ some e → All NotLate (cleanup env s).0 × (CanStop → ⊥)
  unfolding cleanup
  cleanup_failed e h = ground arith

  cleanup_ok_inv : (cleanup env s).1 ≡ none → CanStop
  unfolding cleanup
  cleanup_ok_inv h = ground arith

  -- the hook's part of a stop
  abbrev pub hook_part : Run K
  hook_part = elim (s.shutdown_hook) [ none ↦ ([], none) | some k ↦ hook_run env k ]

  -- When the providers that there are stop, `Stop` stops them, then the gRPC server, then runs the
  -- hook if there is one, and returns the hook's result.
  pub stop_lem :
      CanStop → stop env s ≡ (provider_stops ++ graceful_stop ∷ [] ++ hook_part.0, hook_part.1)
  unfolding stop
  stop_lem h = rw (cleanup_ok h) (ground arith)

  -- When a provider does not stop, `Stop` returns an error, and neither stops the gRPC server nor
  -- runs the hook.
  pub stop_failed : (CanStop → ⊥) → ((stop env s).1 ≢ none) × All NotLate (stop env s).0
  unfolding stop
  stop_failed h = elim (Option-cases (cleanup env s).1) [
    | inl ok ↦ absurd (h (cleanup_ok_inv ok))
    | inr (e, failed) ↦
        rw (then_do_failed (cleanup env s) hook_part failed) (λ n. cc, (cleanup_failed e failed).0)
  ]

  module _ (m : Multierr) where
    -- A server without a shutdown hook panics on the signal, whatever else goes well, since the
    -- hook is called with no test that it is there.
    pub on_signal-nil_call : s.shutdown_hook ≡ none → (on_signal env m s).1 ≡ nil_call
    unfolding on_signal
    on_signal-nil_call h = rw h

    -- With a hook, the signal runs the clean-up and then the hook, the hook also when the clean-up
    -- failed; the first of their errors is what it panics with, and without one it returns.
    pub on_signal-with_hook :
        (k : K)
        → s.shutdown_hook ≡ some k
        → let (effects, end) = on_signal env m s in
          let stops = provider_stops ++ graceful_stop ∷ [] in
          ((e : Error) × ((cleanup env s).1 ≡ some e)
            × (effects ≡ (cleanup env s).0 ++ run_hook k ∷ [])
            × (end ≡ panics e))
          ⊎ ((e : Error) × CanStop
              × (env.on_hook k ≡ some e)
              × (effects ≡ stops ++ run_hook k ∷ [])
              × (end ≡ panics e))
          ⊎ (CanStop
              × (env.on_hook k ≡ none)
              × (effects ≡ (stops ++ run_hook k ∷ []) ++ stop_notify ∷ [])
              × (end ≡ returns none))
    unfolding on_signal
    on_signal-with_hook k h =
        rw (h, error-add_error-add_error m (cleanup env s).1 (env.on_hook k))
          (elim (Option-cases (cleanup env s).1) [
            | inr (e, failed) ↦ inl (e, failed, rw failed refl, rw failed refl)
            | inl ok ↦ elim (Option-cases (env.on_hook k)) [
              | inr (e, failed) ↦
                  let c = cleanup_ok_inv ok in
                  inr (
                    inl (
                      e,
                      c,
                      failed,
                      rw (cleanup_ok c, failed) refl,
                      rw (cleanup_ok c, failed) refl,
                    ))
              | inl passed ↦
                  let c = cleanup_ok_inv ok in
                  inr (
                    inr (c, passed, rw (cleanup_ok c, passed) refl, rw (cleanup_ok c, passed) refl))
            ]
          ])

    -- With a hook, `AwaitTermination` ends the process as the platform asks for only when the
    -- providers have stopped, then the gRPC server, and then the hook has returned no error.
    -- Otherwise the process panics, with the error of a provider, and then the gRPC server was not
    -- stopped though the hook ran, or with that of the hook.
    pub await_termination_lem :
        (is_init windows : Bool) (k : K)
        → s.shutdown_hook ≡ some k
        → let (effects, end) = await_termination env m is_init windows s in
          let stops = provider_stops ++ graceful_stop ∷ [] in
          (CanStop
            × (env.on_hook k ≡ none)
            × (effects ≡ (stops ++ run_hook k ∷ []) ++ stop_notify ∷ [])
            × (end ≡ ended (terminate is_init windows)))
          ⊎ ((e : Error) × ((cleanup env s).1 ≡ some e)
              × All NotLate (cleanup env s).0
              × (effects ≡ (cleanup env s).0 ++ run_hook k ∷ [])
              × (end ≡ crashed (panics e)))
          ⊎ ((e : Error) × CanStop
              × (env.on_hook k ≡ some e)
              × (effects ≡ stops ++ run_hook k ∷ [])
              × (end ≡ crashed (panics e)))
    unfolding await_termination
    await_termination_lem is_init windows k h = elim (on_signal-with_hook k h) [
      | inl (e, failed, effects, end) ↦
          inr (inl (e, failed, (cleanup_failed e failed).0, effects, rw end refl))
      | inr (inl (e, c, failed, effects, end)) ↦ inr (inr (e, c, failed, effects, rw end refl))
      | inr (inr (c, passed, effects, end)) ↦ inl (c, passed, effects, rw end refl)
    ]
