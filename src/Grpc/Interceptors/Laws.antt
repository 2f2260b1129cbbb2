-- ===== src/Grpc/Interceptors/Laws.antt =====
-- What a server with the default interceptors makes of a handler.
use gopack.Prelude.{ℕ, ◌≡◌, ◌∙◌, refl, String, [], ◌∷◌, none, some, Error}
use gopack.Requestid.{Contexts, string_value, from_context}
use gopack.Requestid.Laws.{from_context-with_value}
use gopack.Grpc.RequestIdInterceptors.{id_of_metadata, get_server_request_id, unary_server}
use gopack.Grpc.ServerBuilder.{
  request_id, tracing, metrics, recovery, Config, new_server_builder_from_config,
}
use gopack.Grpc.Interceptors.{
  Outcome, returned, panicked, Handler, Unary, custom_func, new_recovery_unary_interceptor,
  new_tracing_unary_interceptor, new_metric_unary_interceptor, Middlewares, meaning, chain, served,
}

module _ (ctxs : Contexts) (Q A S O : Type 0) (m : Middlewares ctxs Q A S O)
    (status : ℕ → String → Error) where
  open ctxs use {Context, value, with_value, from_incoming}

  -- What is left of an outcome behind the recovery: no panic.
  abbrev pub recovered : Outcome A → Outcome A
  recovered (returned a e) = returned a e
  recovered (panicked p) = returned none (some (custom_func status p))

  recovery-recovered :
      (h : Handler Context Q A) (ctx : Context) (req : Q)
      → new_recovery_unary_interceptor status m.grpc_recovery h ctx req ≡ recovered (h ctx req)
  unfolding new_recovery_unary_interceptor
  recovery-recovered h ctx req = go (h ctx req) refl
    where
      go :
          (o : Outcome A)
          → h ctx req ≡ o
          → m.grpc_recovery.unary_server (custom_func status) h ctx req ≡ recovered o
      go (returned a e) is = m.recovery-returned (custom_func status) h ctx req a e is
      go (panicked p) is = m.recovery-panicked (custom_func status) h ctx req p is

  from_context-trace_context :
      (c : Context) → from_context ctxs (m.trace_context c) ≡ from_context ctxs c
  unfolding from_context
  from_context-trace_context c = rw (m.trace_context-value c, from_context)

  module _ (own : ℕ → Unary ctxs Q A) (fresh : String) where
    default_chain :
        (h : Handler Context Q A) (ctx : Context) (req : Q)
        → chain ctxs Q A S O m status own fresh
            (request_id ∷ tracing ∷ metrics ∷ recovery ∷ [])
            h
            ctx
            req
          ≡ recovered (
              h
                (m.trace_context
                  (with_value ctx (string_value (get_server_request_id ctxs fresh ctx))))
                req)
    unfolding chain meaning unary_server new_tracing_unary_interceptor new_metric_unary_interceptor
    default_chain h ctx req =
        let c = with_value ctx (string_value (get_server_request_id ctxs fresh ctx)) in
        let inner = new_recovery_unary_interceptor status m.grpc_recovery h in
        m.tracing-same (m.grpc_prometheus.unary_server inner) c req
        ∙ m.metrics-same inner (m.trace_context c) req
        ∙ recovery-recovered h (m.trace_context c) req

    -- On a server that a configuration describes a unary call ends as its handler does in a context
    -- with the request id of the metadata, or a fresh one, but that no panic of the handler comes out
    -- of the interceptors: it becomes a nil reply with the status Unknown and the text of the panic.
    pub served-new_server_builder_from_config :
        (H K : Type 0) (cfg : Config) (h : Handler Context Q A) (ctx : Context) (req : Q)
        → (seen : Context) × (from_context ctxs seen ≡ id_of_metadata fresh (from_incoming ctx))
          × (served ctxs Q A S O m status own fresh
                (new_server_builder_from_config {H = H} {K = K} cfg).options
                h
                ctx
                req
              ≡ recovered (h seen req))
    unfolding served new_server_builder_from_config get_server_request_id
    served-new_server_builder_from_config H K cfg h ctx req =
        let c = with_value ctx (string_value (get_server_request_id ctxs fresh ctx)) in
        (
          m.trace_context c,
          from_context-trace_context c
              ∙ from_context-with_value ctxs ctx (get_server_request_id ctxs fresh ctx),
          default_chain h ctx req,
        )
