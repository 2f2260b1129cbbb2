-- ===== src/Grpc/Interceptors/EndToEnd.antt =====
-- A unary call from a client with the default interceptors to a server with the default interceptors
-- (grpc/client.go, grpc/server_builder.go and the files of the interceptors).
use gopack.Prelude.{ℕ, ◌≡◌, ◌∙◌, sym, ap, subst, String, List, [], ◌∷◌, Option, none, some, Error}
use gopack.Requestid.{Contexts, Metadata, from_context, x_request_id_metadata_key}
use gopack.Grpc.RequestIdInterceptors.{header, copy, client_context, unary_client}
use gopack.Grpc.RequestIdInterceptors.Laws.{
  Sent, id_of_metadata_of_Sent, Sent-copy, client_outgoing,
}
use gopack.Grpc.ServerBuilder.{Config, new_server_builder_from_config}
use gopack.Grpc.Client.{
  ClientInterceptor, DialOption, with_default_unary_interceptors, new_client_builder,
}
use gopack.Grpc.Client
use gopack.Grpc.Interceptors.{
  Outcome, returned, panicked, custom_func, Handler, Unary, Package,
  new_client_metric_unary_interceptor, new_tracing_client_unary_interceptor, Middlewares, served,
}
use gopack.Grpc.Interceptors.Laws.{recovered, served-new_server_builder_from_config}

module _ (ctxs : Contexts) (Q A S O : Type 0) where
  open ctxs use {Context, from_incoming, from_outgoing}

  -- The packages of the client, by what their unary interceptors do with an invoker: both call it
  -- once, tracing with a context whose outgoing metadata have the same under the key.
  pub record ClientMiddlewares : Type 1 where
    pub grpc_prometheus : Package S S (Unary ctxs Q A) S
    pub otelgrpc : Package S S (O → Unary ctxs Q A) S
    pub no_options : O
    pub inject : Context → Context
    pub metrics-same :
        (h : Handler Context Q A) (ctx : Context) (req : Q)
        → grpc_prometheus.unary_client h ctx req ≡ h ctx req
    pub tracing-same :
        (h : Handler Context Q A) (ctx : Context) (req : Q)
        → otelgrpc.unary_client no_options h ctx req ≡ h (inject ctx) req
    pub inject-header :
        (ctx : Context) (md : Metadata)
        → from_outgoing ctx ≡ some md
        → (out : Metadata) × (from_outgoing (inject ctx) ≡ some out)
          × (header x_request_id_metadata_key out ≡ header x_request_id_metadata_key md)

  module _ (m : ClientMiddlewares) (own : ℕ → Unary ctxs Q A) (fresh : String) where
    -- an interceptor of the client builder
    pub client_meaning : ClientInterceptor → Unary ctxs Q A
    unfolding unary_client new_client_metric_unary_interceptor new_tracing_client_unary_interceptor
    client_meaning Client.request_id h = unary_client ctxs fresh h
    client_meaning Client.metric h = new_client_metric_unary_interceptor m.grpc_prometheus h
    client_meaning Client.tracing h = new_tracing_client_unary_interceptor m.otelgrpc m.no_options h
    client_meaning (Client.given n) h = own n h

    pub client_chain : List ClientInterceptor → Unary ctxs Q A
    unfolding client_meaning
    client_chain [] h = h
    client_chain (i ∷ is) h = client_meaning i (client_chain is h)

    -- `grpc.WithChainUnaryInterceptor`
    pub invoked : List DialOption → Unary ctxs Q A
    unfolding client_chain
    invoked [] h = h
    invoked (Client.chain_unary is ∷ os) h = client_chain is (invoked os h)
    invoked (_ ∷ os) h = invoked os h

    default_invoked :
        (h : Handler Context Q A) (ctx : Context) (req : Q)
        → invoked (with_default_unary_interceptors new_client_builder).options h ctx req
          ≡ h (m.inject (client_context ctxs fresh ctx)) req
    unfolding invoked client_chain client_meaning unary_client with_default_unary_interceptors
        new_client_builder
    default_invoked h ctx req =
        let c = client_context ctxs fresh ctx in
        m.metrics-same (m.otelgrpc.unary_client m.no_options h) c req ∙ m.tracing-same h c req

    -- `transmit` is the way of a call to the server: what the outgoing metadata hold under the key
    -- arrives as incoming metadata. `back` is the way of its end to the client: a reply comes as it
    -- is, and of an error its status, with no reply. `as_status` is `status.FromError`.
    module _ (server : Middlewares ctxs Q A S O) (status : ℕ → String → Error)
        (own_s : ℕ → Unary ctxs Q A) (fresh_s : String) (transmit : Context → Context)
        (carries : (c : Context) (md : Metadata)
          → from_outgoing c ≡ some md
          → (got : Metadata) × (from_incoming (transmit c) ≡ some got)
            × (header x_request_id_metadata_key got ≡ header x_request_id_metadata_key md))
        (back : Outcome A → Outcome A) (as_status : Error → Error)
        (back-reply : (a : A) → back (returned (some a) none) ≡ returned (some a) none)
        (back-error : (a : Option A) (e : Error)
          → back (returned a (some e)) ≡ returned none (some (as_status e))) where
      -- the server of a configuration
      pub serving : Config → Handler Context Q A → Handler Context Q A
      unfolding served
      serving cfg h ctx req =
          served ctxs Q A S O server status own_s fresh_s
            (new_server_builder_from_config {H = Unit} {K = Unit} cfg).options h ctx req

      -- What the client gets, by how the handler ends. Of a handler with no reply and no error
      -- nothing is said.
      pub data Comes : Outcome A → Outcome A → Type 0 where
        reply : (a : A) → Comes (returned (some a) none) (returned (some a) none)
        error :
            (a : Option A) (e : Error)
            → Comes (returned a (some e)) (returned none (some (as_status e)))
        panic :
            (p : String)
            → Comes (panicked p) (returned none (some (as_status (custom_func status p))))
        nothing : (end : Outcome A) → Comes (returned none none) end

      back-Comes : (o : Outcome A) → Comes o (back (recovered ctxs Q A S O server status o))
      back-Comes (returned (some a) none) =
          subst (Comes (returned (some a) none)) (sym (back-reply a)) (reply a)
      back-Comes (returned none none) = nothing _
      back-Comes (returned a (some e)) =
          subst (Comes (returned a (some e))) (sym (back-error a e)) (error a e)
      back-Comes (panicked p) =
          subst (Comes (panicked p)) (sym (back-error none (custom_func status p))) (panic p)

      -- A call through the default interceptors of a client and of a server that a configuration
      -- describes reaches the server's handler in a context with the id that the caller put into
      -- the outgoing metadata, when the transport carries what stands under the key. When it brings
      -- replies back as they are, and of errors the status, the caller gets the reply of the
      -- handler, or no reply and the status of its error, or, when the handler panics, no reply and
      -- the status of an error with the code Unknown and the text of the panic. Nothing is said of
      -- what a caller gets when the handler returns neither a reply nor an error.
      pub invoked-serving :
          (cfg : Config) (id : String) (h : Handler Context Q A) (ctx : Context) (req : Q)
          → Sent (from_outgoing ctx) id
          → (seen : Context) × (from_context ctxs seen ≡ id)
            × Comes (h seen req) (
                invoked
                  (with_default_unary_interceptors new_client_builder).options
                  (λ c r. back (serving cfg h (transmit c) r))
                  ctx
                  req)
      unfolding serving
      invoked-serving cfg id h ctx req sent =
          let c = m.inject (client_context ctxs fresh ctx) in
          let (out, injected, same) =
            m.inject-header (client_context ctxs fresh ctx) (copy (from_outgoing ctx))
              (client_outgoing ctxs fresh ctx) in
          let (got, comes, kept) = carries c out injected in
          let (rest, e, n) = Sent-copy id (from_outgoing ctx) sent in
          let (seen, chosen, ends) =
            served-new_server_builder_from_config ctxs Q A S O server status own_s fresh_s Unit Unit
              cfg h (transmit c) req in
          (
            seen,
            chosen
                ∙ rw comes
                    (id_of_metadata_of_Sent fresh_s id (some got) (rest, kept ∙ same ∙ e, n)),
            subst (Comes (h seen req))
                (sym (
                  default_invoked (λ c r. back (serving cfg h (transmit c) r)) ctx req
                  ∙ ap back ends))
                (back-Comes (h seen req)),
          )
