-- ===== src/Grpc/RequestIdInterceptors/Transport.antt =====
-- Which request id gets from a client to a server (grpc/request_id_interceptors.go).
use gopack.Prelude.{◌≡◌, refl, ◌∙◌, String, some}
use gopack.Requestid.{Contexts, Metadata, string_value, x_request_id_metadata_key, from_context}
use gopack.Requestid.Laws.{from_context-with_value}
use gopack.Grpc.RequestIdInterceptors.{
  header, id_of_metadata, copy, get_server_request_id, unary_server, client_context, unary_client,
}
use gopack.Grpc.RequestIdInterceptors.Laws.{
  Sent, Unsent, id_of_metadata_of_Sent, id_of_metadata_of_Unsent, Sent-copy, Unsent-copy, client_id,
  client_outgoing,
}

module _ (ctxs : Contexts) where
  open ctxs use {
    Context, value, with_value, from_incoming, from_outgoing, new_outgoing, value-with_value,
    value-new_outgoing, incoming-with_value, outgoing-with_value, incoming-new_outgoing,
    outgoing-new_outgoing,
  }

  -- `transmit` is the way of a call to the server: what the outgoing metadata hold under the key
  -- arrives as incoming metadata.
  module _ (transmit : Context → Context)
      (carries : (c : Context) (md : Metadata)
        → from_outgoing c ≡ some md
        → (got : Metadata) × (from_incoming (transmit c) ≡ some got)
          × (header x_request_id_metadata_key got ≡ header x_request_id_metadata_key md)) where
    arrived :
        (fresh : String) (ctx : Context)
        → (got : Metadata) × (from_incoming (transmit (client_context ctxs fresh ctx)) ≡ some got)
          × (header x_request_id_metadata_key got
              ≡ header x_request_id_metadata_key (copy (from_outgoing ctx)))
    arrived fresh ctx = carries _ (copy (from_outgoing ctx)) (client_outgoing ctxs fresh ctx)

    server_id :
        (fresh : String) (ctx : Context)
        → from_context ctxs (with_value ctx (string_value (get_server_request_id ctxs fresh ctx)))
          ≡ id_of_metadata fresh (from_incoming ctx)
    unfolding get_server_request_id
    server_id fresh ctx = from_context-with_value ctxs ctx _

    -- An id that the caller put into the outgoing metadata reaches the handler, through the
    -- client's and the server's unary interceptor, when the transport carries what stands under the
    -- key.
    pub given_id_arrives :
        {Req Reply : Type 0} (fresh_c fresh_s id : String) (handler : Context → Req → Reply)
        (ctx : Context) (req : Req)
        → Sent (from_outgoing ctx) id
        → (seen : Context) × (unary_client ctxs fresh_c
              (λ c r. unary_server ctxs fresh_s handler (transmit c) r)
              ctx
              req
            ≡ handler seen req)
          × (from_context ctxs seen ≡ id)
    unfolding unary_client unary_server
    given_id_arrives fresh_c fresh_s id handler ctx req sent =
        let (got, comes, same) = arrived fresh_c ctx in
        let (rest, e, n) = Sent-copy id (from_outgoing ctx) sent in
        (
          _,
          refl,
          server_id fresh_s (transmit (client_context ctxs fresh_c ctx))
              ∙ rw comes (id_of_metadata_of_Sent fresh_s id (some got) (rest, same ∙ e, n)),
        )

    -- An id that the client interceptor makes does not reach the handler: where the caller sent
    -- none, the handler sees the id that the server makes, whatever the client's own context
    -- carries.
    pub made_id_lost :
        {Req Reply : Type 0} (fresh_c fresh_s : String) (handler : Context → Req → Reply)
        (ctx : Context) (req : Req)
        → Unsent (from_outgoing ctx)
        → (seen : Context) × (unary_client ctxs fresh_c
              (λ c r. unary_server ctxs fresh_s handler (transmit c) r)
              ctx
              req
            ≡ handler seen req)
          × (from_context ctxs seen ≡ fresh_s)
          × (from_context ctxs (client_context ctxs fresh_c ctx) ≡ fresh_c)
    unfolding unary_client unary_server
    made_id_lost fresh_c fresh_s handler ctx req unsent =
        let (got, comes, same) = arrived fresh_c ctx in
        (
          _,
          refl,
          server_id fresh_s (transmit (client_context ctxs fresh_c ctx))
              ∙ rw comes (
                  id_of_metadata_of_Unsent fresh_s (some got)
                    (same ∙ Unsent-copy (from_outgoing ctx) unsent)),
          client_id ctxs fresh_c ctx ∙ id_of_metadata_of_Unsent fresh_c (from_outgoing ctx) unsent,
        )
