-- ===== src/Grpc/RequestIdInterceptors.antt =====
-- grpc/request_id_interceptors.go: the four interceptors that see to a request id.
-- A handler, an invoker or a streamer is any function of what it gets; `fresh` is what
-- `uuid.NewString` of github.com/google/uuid returns in the call.
pub mod Laws
pub mod Transport
mod Tests
use gopack.Prelude.{◌≡◌, String, List, [], ◌∷◌, Option, none, some, if◌then◌else◌}
use text.Mathlib.Text.{◌==◌}
use gopack.Requestid.{Contexts, Metadata, Value, string_value, x_request_id_metadata_key}

-- `md[key]`
unfoldable pub header : String → Metadata → Option (List String)
header key [] = none
header key ((k, v) ∷ md) = if k == key then some v else header key md

-- the test of `len(header)` and what stands behind it
abbrev pub id_of_ids : String → List String → String
id_of_ids fresh [] = fresh
id_of_ids fresh (id ∷ _) = if id == "" then fresh else id

-- what the metadata of a context make of the id, behind `metadata.From…Context`
unfoldable pub id_of_metadata : String → Option Metadata → String
unfolding header
id_of_metadata fresh none = fresh
id_of_metadata fresh (some md) = elim (header x_request_id_metadata_key md) [
  | none ↦ fresh
  | some ids ↦ id_of_ids fresh ids
]

-- `metadata.MD.Copy`
pub copy : Option Metadata → Metadata
copy none = []
copy (some md) = md

module _ (ctxs : Contexts) where
  open ctxs use {Context, with_value, from_incoming, from_outgoing, new_outgoing}

  unfoldable pub get_server_request_id : String → Context → String
  unfolding id_of_metadata
  get_server_request_id fresh ctx = id_of_metadata fresh (from_incoming ctx)

  pub get_client_request_id : String → Context → String
  unfolding id_of_metadata
  get_client_request_id fresh ctx = id_of_metadata fresh (from_outgoing ctx)

  -- `grpc.ServerStream` by its context; the rest of it is `S`
  pub record ServerStream (S : Type 0) : Type 0 where
    pub stream : S
    pub ctx : Context

  pub new_server_stream_with_context : {S : Type 0} → Context → ServerStream S → ServerStream S
  new_server_stream_with_context ctx ss = record ss { ctx = ctx }

  -- `NewRequestIDUnaryServerInterceptor`
  unfoldable pub unary_server :
      {Req Reply : Type 0} → String → (Context → Req → Reply) → Context → Req → Reply
  unfolding get_server_request_id
  unary_server fresh handler ctx req =
      handler (with_value ctx (string_value (get_server_request_id fresh ctx))) req

  -- `NewRequestIDStreamServerInterceptor`
  pub stream_server :
      {S Srv Reply : Type 0}
      → String
      → (Srv → ServerStream S → Reply)
      → Srv
      → ServerStream S
      → Reply
  unfolding get_server_request_id new_server_stream_with_context
  stream_server fresh handler srv ss =
      let ctx = with_value ss.ctx (string_value (get_server_request_id fresh ss.ctx)) in
      handler srv (new_server_stream_with_context ctx ss)

  -- the context that the client interceptors hand on
  pub client_context : String → Context → Context
  unfolding get_client_request_id copy
  client_context fresh ctx =
      let metadata_copy = copy (from_outgoing ctx) in
      new_outgoing (with_value ctx (string_value (get_client_request_id fresh ctx))) metadata_copy

  -- `NewRequestIDUnaryClientInterceptor`; `Call` is the method, the request and the options
  unfoldable pub unary_client :
      {Call Reply : Type 0} → String → (Context → Call → Reply) → Context → Call → Reply
  unfolding client_context
  unary_client fresh invoker ctx c = invoker (client_context fresh ctx) c

  -- `NewRequestIDStreamClientInterceptor`
  pub stream_client :
      {Call Reply : Type 0} → String → (Context → Call → Reply) → Context → Call → Reply
  unfolding client_context
  stream_client fresh streamer ctx c = streamer (client_context fresh ctx) c
