-- ===== src/Grpc/RequestIdInterceptors/Laws.antt =====
-- Which request id a handler and an invoker see (grpc/request_id_interceptors.go).
use gopack.Prelude.{
  ◌≡◌, ◌≢◌, refl, sym, ap, ◌∙◌, ◌⊎◌, Bool-cases, String, List, [], ◌∷◌, Option, none, some, arith,
  Option-cases, inl, inr,
}
use text.Mathlib.Text.{◌==◌}
use text.Mathlib.TextEquality.{eq_iff}
use gopack.Requestid.{Contexts, Metadata, string_value, x_request_id_metadata_key, from_context}
use gopack.Requestid.Laws.{from_context-new_outgoing, from_context-with_value}
use gopack.Grpc.RequestIdInterceptors.{
  header, id_of_ids, id_of_metadata, copy, get_server_request_id, get_client_request_id,
  ServerStream, new_server_stream_with_context, unary_server, stream_server, client_context,
  unary_client, stream_client,
}

-- the first id under the key, if it is there and not empty
abbrev pub Sent : Option Metadata → String → Type 0
Sent none id = ⊥
Sent (some md) id =
    (rest : List String) × (header x_request_id_metadata_key md ≡ some (id ∷ rest)) × (id ≢ "")

id_of_metadata-ne-empty :
    (fresh : String) (md : Option Metadata) → fresh ≢ "" → id_of_metadata fresh md ≢ ""
unfolding id_of_metadata
id_of_metadata-ne-empty fresh none h = h
id_of_metadata-ne-empty fresh (some md) h =
    elim (Option-cases (header x_request_id_metadata_key md)) [
      | inl missing ↦ rw (missing, id_of_metadata) h
      | inr (ids, found) ↦ rw (found, id_of_metadata) (first ids)
    ]
  where
    first : (ids : List String) → id_of_ids fresh ids ≢ ""
    first [] = h
    first (id ∷ rest) = λ e. ground (arith, eq_iff id "")

pub id_of_metadata_of_Sent :
    (fresh id : String) (md : Option Metadata) → Sent md id → id_of_metadata fresh md ≡ id
unfolding id_of_metadata
id_of_metadata_of_Sent fresh id none s = absurd s
id_of_metadata_of_Sent fresh id (some md) (rest, e, n) =
    rw (e, id_of_metadata) (ground (arith, eq_iff id ""))

-- no id under the key, or an empty one
abbrev pub Blank : Option Metadata → Type 0
Blank none = Unit
Blank (some md) =
    (header x_request_id_metadata_key md ≡ none)
    ⊎ (header x_request_id_metadata_key md ≡ some [])
    ⊎ ((rest : List String) × (header x_request_id_metadata_key md ≡ some ("" ∷ rest)))

-- The id of a call is the one that was sent, or else the fresh one.
abbrev pub IsChosen : String → Option Metadata → String → Type 0
IsChosen fresh md id = Sent md id ⊎ (Blank md × (id ≡ fresh))

id_of_metadata-IsChosen :
    (fresh : String) (md : Option Metadata) → IsChosen fresh md (id_of_metadata fresh md)
unfolding id_of_metadata
id_of_metadata-IsChosen fresh none = inr (tt, refl)
id_of_metadata-IsChosen fresh (some md) =
    elim (Option-cases (header x_request_id_metadata_key md)) [
      | inl missing ↦ rw (missing, id_of_metadata) (inr (inl refl, refl))
      | inr (ids, found) ↦ rw (found, id_of_metadata) (first ids)
    ]
  where
    first :
        (ids : List String)
        → ((rest : List String) × (some ids ≡ some (id_of_ids fresh ids ∷ rest))
            × (id_of_ids fresh ids ≢ ""))
          ⊎ (((some ids ≡ none)
                ⊎ (some ids ≡ some [])
                ⊎ ((rest : List String) × (some ids ≡ some ("" ∷ rest))))
              × (id_of_ids fresh ids ≡ fresh))
    first [] = inr (inr (inl refl), refl)
    first (id ∷ rest) = elim (Bool-cases (id == "")) [
      | inl empty ↦
          rw empty
            (inr (inr (inr (rest, ap (λ i. some (i ∷ rest)) ((eq_iff id "").0 empty))), refl))
      | inr full ↦ rw full (inl (rest, refl, λ e. ground (arith, eq_iff id "")))
    ]

-- no id under the key
abbrev pub Unsent : Option Metadata → Type 0
Unsent none = Unit
Unsent (some md) = header x_request_id_metadata_key md ≡ none

pub id_of_metadata_of_Unsent :
    (fresh : String) (md : Option Metadata) → Unsent md → id_of_metadata fresh md ≡ fresh
unfolding id_of_metadata
id_of_metadata_of_Unsent fresh none h = refl
id_of_metadata_of_Unsent fresh (some md) h = rw (h, id_of_metadata)

pub Sent-copy : (id : String) (o : Option Metadata) → Sent o id → Sent (some (copy o)) id
unfolding copy
Sent-copy id none s = absurd s
Sent-copy id (some md) s = s

pub Unsent-copy : (o : Option Metadata) → Unsent o → Unsent (some (copy o))
unfolding copy header
Unsent-copy none u = refl
Unsent-copy (some md) u = u

module _ (ctxs : Contexts) where
  open ctxs use {
    Context, value, with_value, from_incoming, from_outgoing, new_outgoing, value-with_value,
    value-new_outgoing, incoming-with_value, outgoing-with_value, incoming-new_outgoing,
    outgoing-new_outgoing,
  }

  -- The context that a handler gets for the call's own.
  pub record IsServerContext (fresh : String) (ctx seen : Context) : Type 0 where
    pub has_id : from_context ctxs seen ≢ ""
    pub chosen : IsChosen fresh (from_incoming ctx) (from_context ctxs seen)
    pub same_incoming : from_incoming seen ≡ from_incoming ctx

  IsServerContext-with_value :
      (fresh : String) (ctx : Context)
      → fresh ≢ ""
      → IsServerContext fresh ctx
          (with_value ctx (string_value (get_server_request_id ctxs fresh ctx)))
  unfolding get_server_request_id
  IsServerContext-with_value fresh ctx h =
      let id = id_of_metadata fresh (from_incoming ctx) in
      let stored = from_context-with_value ctxs ctx id in
      record {
        has_id = λ e. id_of_metadata-ne-empty fresh (from_incoming ctx) h (sym stored ∙ e);
        chosen = rw stored (id_of_metadata-IsChosen fresh (from_incoming ctx));
        same_incoming = incoming-with_value ctx (string_value id);
      }

  -- The unary server interceptor calls the handler with the request, in a context that carries a
  -- request id, the first one under the key of the incoming metadata, or the fresh one if there is
  -- none or it is empty. The incoming metadata stay.
  pub unary_server_lem :
      {Req Reply : Type 0} (fresh : String) (handler : Context → Req → Reply) (ctx : Context)
      (req : Req)
      → fresh ≢ ""
      → (seen : Context) × (unary_server ctxs fresh handler ctx req ≡ handler seen req)
        × IsServerContext fresh ctx seen
  unfolding unary_server
  unary_server_lem fresh handler ctx req h = (_, refl, IsServerContext-with_value fresh ctx h)

  -- The stream server interceptor does the same with the context of the stream, and leaves the
  -- rest of the stream alone.
  pub stream_server_lem :
      {S Srv Reply : Type 0} (fresh : String) (handler : Srv → ServerStream ctxs S → Reply)
      (srv : Srv) (ss : ServerStream ctxs S)
      → fresh ≢ ""
      → (seen : Context) × (stream_server ctxs fresh handler srv ss
          ≡ handler srv (record ss { ctx = seen }))
        × IsServerContext fresh ss.ctx seen
  unfolding stream_server new_server_stream_with_context
  stream_server_lem fresh handler srv ss h = (_, refl, IsServerContext-with_value fresh ss.ctx h)

  pub client_id :
      (fresh : String) (ctx : Context)
      → from_context ctxs (client_context ctxs fresh ctx) ≡ id_of_metadata fresh (from_outgoing ctx)
  unfolding client_context get_client_request_id
  client_id fresh ctx =
      let id = id_of_metadata fresh (from_outgoing ctx) in
      from_context-new_outgoing ctxs (with_value ctx (string_value id)) (copy (from_outgoing ctx))
      ∙ from_context-with_value ctxs ctx id

  pub client_outgoing :
      (fresh : String) (ctx : Context)
      → from_outgoing (client_context ctxs fresh ctx) ≡ some (copy (from_outgoing ctx))
  unfolding client_context
  client_outgoing fresh ctx = outgoing-new_outgoing _ _

  -- A client's call hands on a context that carries a request id, the first one of the outgoing
  -- metadata, or the fresh one if there is none or it is empty, and whose outgoing metadata are
  -- those that came in.
  pub unary_client_lem :
      {Call Reply : Type 0} (fresh : String) (invoker : Context → Call → Reply) (ctx : Context)
      (c : Call)
      → fresh ≢ ""
      → (seen : Context) × (unary_client ctxs fresh invoker ctx c ≡ invoker seen c)
        × (stream_client ctxs fresh invoker ctx c ≡ invoker seen c)
        × (from_context ctxs seen ≢ "")
        × IsChosen fresh (from_outgoing ctx) (from_context ctxs seen)
        × (from_outgoing seen ≡ some (copy (from_outgoing ctx)))
  unfolding unary_client stream_client
  unary_client_lem fresh invoker ctx c h =
      let got = client_id fresh ctx in
      (
        client_context ctxs fresh ctx,
        refl,
        refl,
        λ e. id_of_metadata-ne-empty fresh (from_outgoing ctx) h (sym got ∙ e),
        rw got (id_of_metadata-IsChosen fresh (from_outgoing ctx)),
        client_outgoing fresh ctx,
      )
