-- ===== src/Grpc/Server/Tracing.antt =====
-- A server whose traces the provider of otel/trace/provider.go exports (grpc/server.go and
-- grpc/server_builder.go).
use gopack.Prelude.{◌≡◌, ◌≢◌, refl, ap, ◌∙◌, true, Option, none, some, Error, arith}
use gopack.Otel.Provider.{Made, made, failed, Sdk, Globals, new_trace_provider, start_trace}
use gopack.Grpc.Server.{Provider, GrpcServer, Env, start, start_providers}
use gopack.Grpc.ServerBuilder.{
  Config, ServerBuilder, server, new_server_builder_from_config, build, address,
}
use gopack.Grpc.ServerBuilder.Laws.{build_complete}

abbrev pub error_of : {A : Type 0} → Made A → Option Error
error_of (made a) = none
error_of (failed e) = some e

-- the first error, if there is one
abbrev pub or_else : Option Error → Option Error → Option Error
or_else (some e) d = some e
or_else none d = d

module _ {R E : Type 0} (sdk : Sdk R E) (g : Globals R E) where
  -- the provider that `Build` makes, started by the SDK
  abbrev pub start_of : Provider → Option Error
  start_of p = (start_trace sdk (new_trace_provider p.exporter_endpoint p.service_name) g).2

  abbrev pub traced_by_sdk : {K : Type 0} → Env K → Env K
  traced_by_sdk env = record env { traces_start = start_of }

  start_of_lem :
      (p : Provider)
      → start_of p
        ≡ or_else
            (error_of (sdk.new_resource p.service_name))
            (error_of (sdk.trace_exporter p.exporter_endpoint))
  unfolding start_trace new_trace_provider
  start_of_lem p = ground arith

  start-error :
      {H K : Type 0} (env : Env K) (srv : GrpcServer H K) (p : Provider)
      → srv.metric_provider ≡ none
      → srv.trace_provider ≡ some p
      → (start env srv).1.1 ≡ or_else (env.traces_start p) (env.on_listen srv.addr)
  unfolding start start_providers
  start-error env srv p no_metrics traced = ground arith

  or_else_assoc : (a b c : Option Error) → or_else (or_else a b) c ≡ or_else a (or_else b c)
  or_else_assoc none b c = refl
  or_else_assoc (some e) b c = refl

  -- A server that a configuration describes, with tracing, a trace URL and the name of a service,
  -- is built, and its `Start` reports the first of the errors of the resource for that name, of the
  -- exporter for that URL, and of the listener on its address; without these it reports none.
  pub start-build :
      {H K : Type 0} (cfg : Config) (env : Env K)
      → cfg.trace_enabled ≡ true
      → cfg.trace_url ≢ ""
      → cfg.service_name ≢ ""
      → let sb : ServerBuilder H K = new_server_builder_from_config cfg in
        (srv : GrpcServer H K) × ((build sb).1 ≡ server sb.options srv)
        × ((start (traced_by_sdk env) srv).1.1
            ≡ or_else (error_of (sdk.new_resource cfg.service_name)) (
                or_else (error_of (sdk.trace_exporter cfg.trace_url)) (env.on_listen (address sb))))
  unfolding new_server_builder_from_config
  start-build {H} {K} cfg env on url name =
      let sb : ServerBuilder H K = new_server_builder_from_config cfg in
      let p : Provider = record {
        exporter_endpoint = cfg.trace_url;
        service_name = cfg.service_name;
      } in
      let built = build_complete sb refl (λ h. (url, name)) in
      (
        _,
        ap (λ b. b.1) built,
        start-error (traced_by_sdk env) _ p refl (rw on refl)
            ∙ ap (λ e. or_else e (env.on_listen (address sb))) (start_of_lem p)
            ∙ or_else_assoc (error_of (sdk.new_resource cfg.service_name))
                (error_of (sdk.trace_exporter cfg.trace_url)) (env.on_listen (address sb)),
      )
