-- ===== src/Grpc/Interceptors.antt =====
-- grpc/recovery_interceptors.go, grpc/metric_interceptors.go and grpc/trace_interceptors.go, and what
-- the server makes of a chain of interceptors.
-- The middlewares are third-party code: `Middlewares` has what their documentation says of them.
-- `status code text` is `status.Errorf` of google.golang.org/grpc/status, without the code's text.
pub mod Laws
pub mod EndToEnd
mod Tests
use Prim.Native.String
use gopack.Prelude.{ℕ, ◌≡◌, String, List, [], ◌∷◌, ◌++◌, Option, none, some, Error}
use gopack.Requestid.{Contexts, Value}
use gopack.Grpc.RequestIdInterceptors.{unary_server}
use gopack.Grpc.ServerBuilder.{
  Interceptor, request_id, tracing, metrics, recovery, given, ServerOption, keepalive_params,
  chain_stream, chain_unary, creds, given_option,
}

-- How a handler ends: it returns a reply, which may be nil, and an error, or it panics.
pub data Outcome (A : Type 0) : Type 0 where
  returned : Option A → Option Error → Outcome A
  panicked : String → Outcome A

-- A unary handler, or one of streams, whose context is the stream.
abbrev pub Handler : Type 0 → Type 0 → Type 0 → Type 0
Handler C Q A = C → Q → Outcome A

abbrev pub Around : Type 0 → Type 0 → Type 0 → Type 0
Around C Q A = Handler C Q A → Handler C Q A

-- The interceptors of a package.
pub record Package (US SS UC SC : Type 0) : Type 0 where
  pub unary_server : US
  pub stream_server : SS
  pub unary_client : UC
  pub stream_client : SC

-- `codes.Unknown`
abbrev pub unknown : ℕ
unknown = 2

-- `customFunc`
unfoldable pub custom_func : (ℕ → String → Error) → String → Error
custom_func status p = status unknown (String.◌++◌ "panic triggered: " p)

module _ {US SS UC SC : Type 0} where
  -- `NewRecoveryUnaryInterceptor`; the package's function takes the handler of panics
  pub new_recovery_unary_interceptor :
      (ℕ → String → Error) → Package ((String → Error) → US) SS UC SC → US
  unfolding custom_func
  new_recovery_unary_interceptor status grpc_recovery =
      grpc_recovery.unary_server (custom_func status)

  -- `NewRecoveryStreamInterceptor`
  pub new_recovery_stream_interceptor :
      (ℕ → String → Error) → Package US ((String → Error) → SS) UC SC → SS
  unfolding custom_func
  new_recovery_stream_interceptor status grpc_recovery =
      grpc_recovery.stream_server (custom_func status)

  -- grpc/metric_interceptors.go
  pub new_metric_unary_interceptor : Package US SS UC SC → US
  new_metric_unary_interceptor grpc_prometheus = grpc_prometheus.unary_server

  pub new_metric_stream_interceptor : Package US SS UC SC → SS
  new_metric_stream_interceptor grpc_prometheus = grpc_prometheus.stream_server

  pub new_client_metric_unary_interceptor : Package US SS UC SC → UC
  new_client_metric_unary_interceptor grpc_prometheus = grpc_prometheus.unary_client

  pub new_client_metric_stream_interceptor : Package US SS UC SC → SC
  new_client_metric_stream_interceptor grpc_prometheus = grpc_prometheus.stream_client

  -- grpc/trace_interceptors.go; `O` is the type of a list of options
  pub new_tracing_unary_interceptor : {O : Type 0} → Package (O → US) SS UC SC → O → US
  new_tracing_unary_interceptor otelgrpc opts = otelgrpc.unary_server opts

  pub new_tracing_stream_interceptor : {O : Type 0} → Package US (O → SS) UC SC → O → SS
  new_tracing_stream_interceptor otelgrpc opts = otelgrpc.stream_server opts

  pub new_tracing_client_unary_interceptor : {O : Type 0} → Package US SS (O → UC) SC → O → UC
  new_tracing_client_unary_interceptor otelgrpc opts = otelgrpc.unary_client opts

  pub new_tracing_client_stream_interceptor : {O : Type 0} → Package US SS UC (O → SC) → O → SC
  new_tracing_client_stream_interceptor otelgrpc opts = otelgrpc.stream_client opts

-- a unary interceptor of the server
abbrev pub Unary : Contexts → Type 0 → Type 0 → Type 0
Unary ctxs Q A = Around ctxs.Context Q A

module _ (ctxs : Contexts) (Q A S O : Type 0) where
  open ctxs use {Context, value}

  -- The packages, by what the unary server interceptors do with a handler: tracing and metrics call
  -- it once, with a context that may say more, and end as it does; recovery turns a panic into
  -- what its function makes of it.
  pub record Middlewares : Type 1 where
    pub grpc_recovery : Package ((String → Error) → Unary ctxs Q A) S S S
    pub grpc_prometheus : Package (Unary ctxs Q A) S S S
    pub otelgrpc : Package (O → Unary ctxs Q A) S S S
    pub no_options : O
    pub trace_context : Context → Context
    pub recovery-returned :
        (f : String → Error) (h : Handler Context Q A) (ctx : Context) (req : Q) (a : Option A)
        (e : Option Error)
        → h ctx req ≡ returned a e
        → grpc_recovery.unary_server f h ctx req ≡ returned a e
    pub recovery-panicked :
        (f : String → Error) (h : Handler Context Q A) (ctx : Context) (req : Q) (p : String)
        → h ctx req ≡ panicked p
        → grpc_recovery.unary_server f h ctx req ≡ returned none (some (f p))
    pub metrics-same :
        (h : Handler Context Q A) (ctx : Context) (req : Q)
        → grpc_prometheus.unary_server h ctx req ≡ h ctx req
    pub tracing-same :
        (h : Handler Context Q A) (ctx : Context) (req : Q)
        → otelgrpc.unary_server no_options h ctx req ≡ h (trace_context ctx) req
    pub trace_context-value : (ctx : Context) → value (trace_context ctx) ≡ value ctx

  module _ (m : Middlewares) (status : ℕ → String → Error) (own : ℕ → Unary ctxs Q A)
      (fresh : String) where
    -- an interceptor of the server builder
    pub meaning : Interceptor → Unary ctxs Q A
    unfolding new_tracing_unary_interceptor new_metric_unary_interceptor
        new_recovery_unary_interceptor
    meaning request_id h = unary_server ctxs fresh h
    meaning tracing h = new_tracing_unary_interceptor m.otelgrpc m.no_options h
    meaning metrics h = new_metric_unary_interceptor m.grpc_prometheus h
    meaning recovery h = new_recovery_unary_interceptor status m.grpc_recovery h
    meaning (given n) h = own n h

    -- `grpc.ChainUnaryInterceptor`: the first is the outermost
    pub chain : List Interceptor → Unary ctxs Q A
    unfolding meaning
    chain [] h = h
    chain (i ∷ is) h = meaning i (chain is h)

    -- what a server that was made with options makes of a handler
    pub served : List ServerOption → Unary ctxs Q A
    unfolding chain
    served [] h = h
    served (chain_unary is ∷ os) h = chain is (served os h)
    served (_ ∷ os) h = served os h
