-- ===== src/Grpc/ServerBuilder/Laws.antt =====
-- What `Build` gives, and how often (grpc/server_builder.go).
use gopack.Prelude.{
  ℕ, ◌+◌, ◌≤◌, ◌≡◌, refl, ap, ◌≢◌, ◌⊎◌, Error, Bool, true, false, String, List, [], ◌∷◌, ◌++◌, map,
  Option, none, some, Multierr, arith, ℤ,
}
use text.Mathlib.TextEquality.{eq_iff}
use gopack.Grpc.Server.{Provider, GrpcServer, service, reflection, health, Env, nil_call, on_signal}
use gopack.Grpc.Server.Laws.{on_signal-nil_call}
use gopack.Grpc.ServerBuilder.{
  ServerOption, ServerBuilder, Config, Build, server, refused, Interceptor, request_id, tracing,
  metrics, recovery, chain_unary, chain_stream, err_missing_trace_url, err_missing_service_name,
  err_msg_cannot_use_same_builder, ServerParameters, with_shutdown_hook, with_port, with_host,
  with_metrics_enabled, with_tracing_enabled, with_trace_url, with_option, with_service,
  with_service_name, with_reflection, with_health_check, with_keep_alive, with_default_keep_alive,
  with_stream_interceptors, with_unary_interceptors, with_tls_cert, with_default_unary_interceptors,
  with_default_stream_interceptors, new_server_builder_from_config, registrations, register_if,
  address, untraced, traced, build,
}

module _ {H K : Type 0} where
  -- A builder that traces has the two names that tracing needs.
  abbrev pub IsComplete : ServerBuilder H K → Type 0
  IsComplete sb = sb.tracing_enabled ≡ true → (sb.trace_url ≢ "") × (sb.service_name ≢ "")

  -- the trace provider that a builder asks for
  abbrev pub wanted_provider : ServerBuilder H K → Option Provider
  wanted_provider sb = elim (sb.tracing_enabled) [
    | true ↦ some (record { exporter_endpoint = sb.trace_url; service_name = sb.service_name })
    | false ↦ none
  ]

  -- A complete builder that has not built yet builds a server with its options, which registers
  -- its services in the order in which they were added, then reflection and the health check if
  -- they are enabled, which traces if tracing is enabled, and has no metrics provider in any case.
  pub build_complete :
      (sb : ServerBuilder H K)
      → sb.is_built ≡ false
      → IsComplete sb
      → build sb ≡ (
        record sb { is_built = true },
        server sb.options (record {
          addr = address sb;
          registered =
              (map service sb.services ++ register_if sb.enable_reflection reflection)
              ++ register_if sb.enable_health_check health;
          listening = false;
          trace_provider = wanted_provider sb;
          metric_provider = none;
          shutdown_hook = sb.shutdown_hook;
        }),
      )
  unfolding build traced untraced registrations
  build_complete sb fresh complete =
      ground (arith, eq_iff sb.trace_url "", eq_iff sb.service_name "")

  -- what is wrong with a builder
  abbrev pub Reason : ServerBuilder H K → Error → Type 0
  Reason sb e =
      ((sb.is_built ≡ true) × (e ≡ err_msg_cannot_use_same_builder))
      ⊎ ((sb.is_built ≡ false)
          × (sb.tracing_enabled ≡ true)
          × (((sb.trace_url ≡ "") × (e ≡ err_missing_trace_url))
              ⊎ ((sb.trace_url ≢ "") × (sb.service_name ≡ "") × (e ≡ err_missing_service_name))))

  -- When `Build` refuses, it leaves the builder as it is, so that it can be completed and asked
  -- again, and the error says what is wrong: the builder was used, or else it traces and a name is
  -- missing, the URL before the service.
  pub build_refused :
      (sb : ServerBuilder H K) (e : Error)
      → (build sb).1 ≡ refused e
      → ((build sb).0 ≡ sb) × Reason sb e
  unfolding build
  build_refused sb e h = ground (arith, eq_iff sb.trace_url "", eq_iff sb.service_name "")

  -- The switch for metrics changes nothing of what `Build` returns.
  pub build-with_metrics_enabled :
      (enabled : Bool) (sb : ServerBuilder H K)
      → (build (with_metrics_enabled enabled sb)).1 ≡ (build sb).1
  unfolding build traced untraced address registrations with_metrics_enabled
  build-with_metrics_enabled enabled sb =
      ground (arith, eq_iff sb.trace_url "", eq_iff sb.service_name "")

-- A call of a builder's method; `build` is `Build`.
pub data Op (H K : Type 0) : Type 0 where
  set_shutdown_hook : K → Op H K
  set_port : ℤ → Op H K
  set_host set_trace_url set_service_name : String → Op H K
  set_metrics set_tracing set_reflection set_health_check : Bool → Op H K
  add_option : ServerOption → Op H K
  add_service : H → Op H K
  add_keep_alive : ServerParameters → Op H K
  add_default_keep_alive add_default_unary add_default_stream : Op H K
  add_unary add_stream : List Interceptor → Op H K
  add_tls_cert : ℕ → Op H K
  call_build : Op H K

abbrev pub is_server : {H K : Type 0} → Build H K → ℕ
is_server (server os s) = 1
is_server (refused e) = 0

-- the servers that a builder may still give
abbrev left : Bool → ℕ
left true = 0
left false = 1

module _ {H K : Type 0} where
  -- the builder behind a call, and the servers that the call gave
  pub apply : Op H K → ServerBuilder H K → ServerBuilder H K × ℕ
  apply (set_shutdown_hook k) sb = (with_shutdown_hook k sb, 0)
  apply (set_port n) sb = (with_port n sb, 0)
  apply (set_host s) sb = (with_host s sb, 0)
  apply (set_trace_url s) sb = (with_trace_url s sb, 0)
  apply (set_service_name s) sb = (with_service_name s sb, 0)
  apply (set_metrics b) sb = (with_metrics_enabled b sb, 0)
  apply (set_tracing b) sb = (with_tracing_enabled b sb, 0)
  apply (set_reflection b) sb = (with_reflection b sb, 0)
  apply (set_health_check b) sb = (with_health_check b sb, 0)
  apply (add_option o) sb = (with_option o sb, 0)
  apply (add_service h) sb = (with_service h sb, 0)
  apply (add_keep_alive p) sb = (with_keep_alive p sb, 0)
  apply add_default_keep_alive sb = (with_default_keep_alive sb, 0)
  apply add_default_unary sb = (with_default_unary_interceptors sb, 0)
  apply add_default_stream sb = (with_default_stream_interceptors sb, 0)
  apply (add_unary is) sb = (with_unary_interceptors is sb, 0)
  apply (add_stream is) sb = (with_stream_interceptors is sb, 0)
  apply (add_tls_cert c) sb = (with_tls_cert c sb, 0)
  apply call_build sb = let (sb', b) = build sb in (sb', is_server b)

  -- the servers that a sequence of calls gives
  pub servers : List (Op H K) → ServerBuilder H K → ℕ
  servers [] sb = 0
  servers (o ∷ os) sb = (apply o sb).1 + servers os (apply o sb).0

  apply-left :
      (o : Op H K) (sb : ServerBuilder H K)
      → (apply o sb).1 + left (apply o sb).0.is_built ≤ left sb.is_built
  unfolding apply build with_shutdown_hook with_port with_host with_trace_url with_service_name
      with_metrics_enabled with_tracing_enabled with_reflection with_health_check with_option
      with_service with_default_keep_alive with_default_unary_interceptors
      with_default_stream_interceptors with_tls_cert
  apply-left call_build sb = ground arith
  apply-left _ sb = ground arith

  servers-left : (os : List (Op H K)) (sb : ServerBuilder H K) → servers os sb ≤ left sb.is_built
  unfolding servers
  servers-left [] sb = omega arith
  servers-left (o ∷ os) sb = omega (arith, apply-left o sb, servers-left os (apply o sb).0)

  -- Whatever is called on a builder, in whatever order, it gives one server at most.
  pub servers-le-one : (os : List (Op H K)) (sb : ServerBuilder H K) → servers os sb ≤ 1
  servers-le-one os sb = ground (arith, servers-left os sb)

  -- A server that a configuration alone describes has the default interceptors in one chain of each
  -- kind, the request id first and the recovery last. It has neither a metrics provider nor a
  -- shutdown hook, whatever the configuration says, so its wait for a signal ends in a panic.
  pub build-new_server_builder_from_config :
      (cfg : Config) (env : Env K) (m : Multierr)
      → (cfg.trace_enabled ≡ true → (cfg.trace_url ≢ "") × (cfg.service_name ≢ ""))
      → let chain = request_id ∷ tracing ∷ metrics ∷ recovery ∷ [] in
        (srv : GrpcServer H K) × ((build (new_server_builder_from_config cfg)).1
          ≡ server (chain_unary chain ∷ chain_stream chain ∷ []) srv)
        × (srv.metric_provider ≡ none)
        × ((on_signal env m srv).1 ≡ nil_call)
  unfolding new_server_builder_from_config
  build-new_server_builder_from_config cfg env m complete =
      let built = build_complete (new_server_builder_from_config cfg) refl complete in
      (_, ap (λ p. p.1) built, refl, on_signal-nil_call env _ m refl)
