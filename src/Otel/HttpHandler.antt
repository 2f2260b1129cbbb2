-- ===== src/Otel/HttpHandler.antt =====
-- otel/trace/http_handler.go: the middleware that traces requests, and the status that it records.
-- A handler is the calls that it makes on the writer that it gets. Tracer providers, propagators,
-- contexts, requests and bodies are the types `T`, `P`, `Ctx`, `Req` and `B`; `extract` and
-- `start_span` are methods of go.opentelemetry.io/otel.
pub mod Laws
mod Tests
use gopack.Prelude.{
  ℕ, Bool, true, false, String, List, [], ◌∷◌, ◌++◌, Option, none, some, if◌then◌else◌,
}

-- The calls of a handler on its writer, also those of the interfaces that `httpsnoop.Wrap` keeps.
-- What a `read_from` reads is not empty.
pub data Call (B : Type 0) : Type 0 where
  write : B → Call B
  write_header : ℕ → Call B
  flush hijack : Call B
  read_from : B → Call B
  push : String → Call B

pub record HttpMiddlewareConfig (T P : Type 0) : Type 0 where
  pub tracer_provider : Option T
  pub propagators : Option P

abbrev pub HttpMiddlewareOption : Type 0 → Type 0 → Type 0
HttpMiddlewareOption T P = HttpMiddlewareConfig T P → HttpMiddlewareConfig T P

-- `recordingResponseWriter`; what its `writer` passes on to the wrapped one is `passed`
pub record RecordingResponseWriter (B : Type 0) : Type 0 where
  pub written : Bool
  pub status : ℕ
  pub passed : List (Call B)

-- What a request leaves in its span, and the calls that reach the client's writer.
pub record Traced (B : Type 0) : Type 0 where
  pub name : String
  pub server_name : String
  pub status_code : ℕ
  pub response : List (Call B)

module _ {B : Type 0} where
  -- `getRRW`, of a writer from the pool
  pub get_rrw : RecordingResponseWriter B → RecordingResponseWriter B
  get_rrw rrw = record { written = false; status = 0; passed = [] }

  -- the hook of `Write`, and that of `WriteHeader`; the other methods have none
  pub on_call : Call B → RecordingResponseWriter B → RecordingResponseWriter B
  on_call (write b) rrw =
      let next = rrw.passed ++ write b ∷ [] in
      if rrw.written
      then record rrw { passed = next }
      else record { written = true; status = 200; passed = next }
  on_call (write_header code) rrw =
      let next = rrw.passed ++ write_header code ∷ [] in
      if rrw.written
      then record rrw { passed = next }
      else record { written = true; status = code; passed = next }
  on_call flush rrw = record rrw { passed = rrw.passed ++ flush ∷ [] }
  on_call hijack rrw = record rrw { passed = rrw.passed ++ hijack ∷ [] }
  on_call (read_from b) rrw = record rrw { passed = rrw.passed ++ read_from b ∷ [] }
  on_call (push target) rrw = record rrw { passed = rrw.passed ++ push target ∷ [] }

  -- the handler's calls, one by one
  pub on_calls : List (Call B) → RecordingResponseWriter B → RecordingResponseWriter B
  unfolding on_call
  on_calls [] rrw = rrw
  on_calls (c ∷ cs) rrw = on_calls cs (on_call c rrw)

abbrev pub or_global : {X : Type 0} → X → Option X → X
or_global global none = global
or_global global (some x) = x

-- `traceWrapper`; `H` is the type of its handler
pub record TraceWrapper (T P H : Type 0) : Type 0 where
  pub server_name : String
  pub tracer : T
  pub propagators : P
  pub handler : H

module _ {T P : Type 0} where
  pub with_propagators : Option P → HttpMiddlewareOption T P
  with_propagators propagators cfg = record cfg { propagators = propagators }

  pub with_tracer_provider : Option T → HttpMiddlewareOption T P
  with_tracer_provider provider cfg = record cfg { tracer_provider = provider }

  -- the loop of `Middleware`
  pub apply_all :
      List (HttpMiddlewareOption T P) → HttpMiddlewareConfig T P → HttpMiddlewareConfig T P
  apply_all [] cfg = cfg
  apply_all (opt ∷ opts) cfg = apply_all opts (opt cfg)

  -- `Middleware`; the globals are what `otel` returns
  pub middleware :
      {H : Type 0} → T → P → String → List (HttpMiddlewareOption T P) → H → TraceWrapper T P H
  unfolding apply_all
  middleware global_t global_p server_name opts handler =
      let cfg = apply_all opts (record { tracer_provider = none; propagators = none }) in
      record {
        server_name = server_name;
        tracer = or_global global_t cfg.tracer_provider;
        propagators = or_global global_p cfg.propagators;
        handler = handler;
      }

  module _ {B Ctx Req : Type 0} (extract : P → Req → Ctx) (start_span : T → Ctx → Ctx)
      (url : Req → String) where
    -- `(traceWrapper).ServeHTTP`, with the writer that the pool gives
    pub serve_http :
        RecordingResponseWriter B → TraceWrapper T P (Ctx → Req → List (Call B)) → Req → Traced B
    unfolding get_rrw on_calls
    serve_http pooled tw r =
        let ctx = start_span tw.tracer (extract tw.propagators r) in
        let rrw = on_calls (tw.handler ctx r) (get_rrw pooled) in
        record {
          name = url r;
          server_name = tw.server_name;
          status_code = rrw.status;
          response = rrw.passed;
        }
