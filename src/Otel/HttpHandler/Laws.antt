-- ===== src/Otel/HttpHandler/Laws.antt =====
-- Which status the middleware records (otel/trace/http_handler.go).
use gopack.Prelude.{
  ℕ, ◌≡◌, refl, sym, ap, ◌∙◌, Bool, true, false, not, ◌&&◌, String, List, [], ◌∷◌, ◌++◌, append-nil,
  append_assoc, Option, none, some, arith, leb, eqb, if◌then◌else◌,
}
use gopack.Otel.HttpHandler.{
  Call, write, write_header, flush, hijack, read_from, push, HttpMiddlewareConfig,
  HttpMiddlewareOption, RecordingResponseWriter, TraceWrapper, get_rrw, on_call, on_calls,
  apply_all, middleware, serve_http, with_propagators, with_tracer_provider,
}

-- A status that net/http takes as informational: the header that is sent stays open. Only 101 ends it.
abbrev pub is_informational : ℕ → Bool
is_informational code = leb 100 code && leb code 199 && not (eqb code 101)

-- a code that `WriteHeader` takes; for another it panics
abbrev pub is_valid : ℕ → Bool
is_valid code = leb 100 code && leb code 999

module _ {B : Type 0} where
  -- The status that net/http sends for the calls of a handler, or none where the handler panics in
  -- `WriteHeader`, or takes the connection over, before there is a status.
  unfoldable pub sent_status : List (Call B) → Option ℕ
  sent_status [] = some 200
  sent_status (write b ∷ cs) = some 200
  sent_status (write_header code ∷ cs) =
      let rest = sent_status cs in
      if is_informational code then rest else (if is_valid code then some code else none)
  sent_status (flush ∷ cs) = some 200
  sent_status (hijack ∷ cs) = none
  sent_status (read_from b ∷ cs) = some 200
  sent_status (push target ∷ cs) = sent_status cs

  -- The handler answers by `Write`, or by `WriteHeader` with a final status that it takes, before it
  -- flushes, copies or hijacks.
  pub data Answers : List (Call B) → ℕ → Type 0 where
    writes : (b : B) (cs : List (Call B)) → Answers (write b ∷ cs) 200
    decides :
        (code : ℕ) (cs : List (Call B))
        → is_valid code ≡ true
        → is_informational code ≡ false
        → Answers (write_header code ∷ cs) code
    pushes :
        (target : String) {code : ℕ} {cs : List (Call B)}
        → Answers cs code
        → Answers (push target ∷ cs) code

  -- The handler does not answer so: the status that the span has, and the one that is sent.
  pub data Evades : List (Call B) → ℕ → Option ℕ → Type 0 where
    silent : Evades [] 0 (some 200)
    hints :
        (code final : ℕ) (cs : List (Call B))
        → is_informational code ≡ true
        → sent_status cs ≡ some final
        → Evades (write_header code ∷ cs) code (some final)
    flushes : Evades (flush ∷ []) 0 (some 200)
    flushes_early :
        (code : ℕ) (cs : List (Call B)) → Evades (flush ∷ write_header code ∷ cs) code (some 200)
    copies : (b : B) → Evades (read_from b ∷ []) 0 (some 200)
    copies_early :
        (b : B) (code : ℕ) (cs : List (Call B))
        → Evades (read_from b ∷ write_header code ∷ cs) code (some 200)
    takes_over : Evades (hijack ∷ []) 0 none
    pushes :
        (target : String) {code : ℕ} {sent : Option ℕ} {cs : List (Call B)}
        → Evades cs code sent
        → Evades (push target ∷ cs) code sent

  on_call-passed :
      (c : Call B) (rrw : RecordingResponseWriter B) → (on_call c rrw).passed ≡ rrw.passed ++ c ∷ []
  unfolding on_call
  on_call-passed c rrw = ground arith

  on_calls-passed :
      (cs : List (Call B)) (rrw : RecordingResponseWriter B)
      → (on_calls cs rrw).passed ≡ rrw.passed ++ cs
  unfolding on_calls
  on_calls-passed [] rrw = sym (append-nil rrw.passed)
  on_calls-passed (c ∷ cs) rrw =
      on_calls-passed cs (on_call c rrw)
      ∙ ap (λ l. l ++ cs) (on_call-passed c rrw)
      ∙ append_assoc rrw.passed (c ∷ []) cs

  on_call-written :
      (c : Call B) (rrw : RecordingResponseWriter B)
      → rrw.written ≡ true
      → ((on_call c rrw).written ≡ true) × ((on_call c rrw).status ≡ rrw.status)
  unfolding on_call
  on_call-written c rrw h = ground arith

  on_calls-written :
      (cs : List (Call B)) (rrw : RecordingResponseWriter B)
      → rrw.written ≡ true
      → (on_calls cs rrw).status ≡ rrw.status
  unfolding on_calls
  on_calls-written [] rrw h = refl
  on_calls-written (c ∷ cs) rrw h =
      let (written, same) = on_call-written c rrw h in
      on_calls-written cs (on_call c rrw) written ∙ same

  on_calls-status :
      {cs : List (Call B)} {code : ℕ} (rrw : RecordingResponseWriter B)
      → rrw.written ≡ false
      → Answers cs code
      → ((on_calls cs rrw).status ≡ code) × (sent_status cs ≡ some code)
  unfolding on_calls on_call sent_status
  on_calls-status rrw h (writes b cs) = ground (arith, on_calls-written cs (on_call (write b) rrw))
  on_calls-status rrw h (decides code cs valid final) =
      ground (arith, on_calls-written cs (on_call (write_header code) rrw))
  on_calls-status rrw h (Answers.pushes target {code} {cs} a) =
      on_calls-status (on_call (push target) rrw) h a

  on_calls-Evades :
      {cs : List (Call B)} {code : ℕ} {sent : Option ℕ} (rrw : RecordingResponseWriter B)
      → rrw.written ≡ false
      → rrw.status ≡ 0
      → Evades cs code sent
      → ((on_calls cs rrw).status ≡ code) × (sent_status cs ≡ sent)
  unfolding on_calls on_call sent_status
  on_calls-Evades rrw h z silent = (z, refl)
  on_calls-Evades rrw h z (hints code final cs info sent) =
      ground (arith, on_calls-written cs (on_call (write_header code) rrw))
  on_calls-Evades rrw h z flushes = (z, refl)
  on_calls-Evades rrw h z (flushes_early code cs) =
      ground (arith, on_calls-written cs (on_call (write_header code) (on_call flush rrw)))
  on_calls-Evades rrw h z (copies b) = (z, refl)
  on_calls-Evades rrw h z (copies_early b code cs) =
      ground (arith, on_calls-written cs (on_call (write_header code) (on_call (read_from b) rrw)))
  on_calls-Evades rrw h z takes_over = (z, refl)
  on_calls-Evades rrw h z (Evades.pushes target e) =
      on_calls-Evades (on_call (push target) rrw) h z e

module _ {T P B Ctx Req : Type 0} (extract : P → Req → Ctx) (start_span : T → Ctx → Ctx)
    (url : Req → String) where
  -- For a handler that answers by `Write`, or by `WriteHeader` with a final status that net/http
  -- takes, before it flushes, copies or takes the connection over, the span has the status that
  -- net/http sends. The client's writer gets the handler's calls, as they were and in their order.
  -- What the pool's writer recorded before is of no effect.
  pub serve_http-Answers :
      (pooled : RecordingResponseWriter B) (tw : TraceWrapper T P (Ctx → Req → List (Call B)))
      (r : Req) (code : ℕ)
      → Answers (tw.handler (start_span tw.tracer (extract tw.propagators r)) r) code
      → let calls = tw.handler (start_span tw.tracer (extract tw.propagators r)) r in
        (sent_status calls ≡ some code)
        × (serve_http extract start_span url pooled tw r ≡ record {
          name = url r;
          server_name = tw.server_name;
          status_code = code;
          response = calls;
        })
  unfolding serve_http get_rrw
  serve_http-Answers pooled tw r code a =
      let calls = tw.handler (start_span tw.tracer (extract tw.propagators r)) r in
      let (recorded, sent) = on_calls-status (get_rrw pooled) refl a in
      (sent, rw (recorded, on_calls-passed calls (get_rrw pooled)) refl)

  -- Handlers that do not answer so, apart from pushes before the calls that are named. Of one that
  -- makes no call, or one flush or one copy to the writer and no more, the span has the status 0
  -- and the client gets 200. Of one that flushes or copies once and calls `WriteHeader` then, the
  -- span has the status of that call and the client gets 200. Of one that first sends an
  -- informational status the span has that status, and the client gets the final one that the
  -- calls behind it send. Of one that takes the connection over the span has the status 0, and
  -- net/http sends none.
  pub serve_http-Evades :
      (pooled : RecordingResponseWriter B) (tw : TraceWrapper T P (Ctx → Req → List (Call B)))
      (r : Req) (code : ℕ) (sent : Option ℕ)
      → Evades (tw.handler (start_span tw.tracer (extract tw.propagators r)) r) code sent
      → ((serve_http extract start_span url pooled tw r).status_code ≡ code)
        × (sent_status (tw.handler (start_span tw.tracer (extract tw.propagators r)) r) ≡ sent)
  unfolding serve_http get_rrw
  serve_http-Evades pooled tw r code sent e = on_calls-Evades (get_rrw pooled) refl refl e

apply_all-append :
    {T P : Type 0} (opts more : List (HttpMiddlewareOption T P)) (cfg : HttpMiddlewareConfig T P)
    → apply_all (opts ++ more) cfg ≡ apply_all more (apply_all opts cfg)
unfolding apply_all
apply_all-append [] more cfg = refl
apply_all-append (o ∷ opts) more cfg = apply_all-append opts more (o cfg)

-- An option that is given last decides, and a nil propagator leaves the global one.
pub middleware-options :
    {T P H : Type 0} (global_t : T) (global_p : P) (name : String)
    (opts : List (HttpMiddlewareOption T P)) (t : T) (p : Option P) (handler : H)
    → middleware global_t global_p name
        (opts ++ with_propagators p ∷ with_tracer_provider (some t) ∷ [])
        handler
      ≡ record {
        server_name = name;
        tracer = t;
        propagators = elim p [ none ↦ global_p | some q ↦ q ];
        handler = handler;
      }
unfolding middleware apply_all with_propagators with_tracer_provider
middleware-options global_t global_p name opts t p handler =
    rw
      (apply_all-append opts (with_propagators p ∷ with_tracer_provider (some t) ∷ [])
        (record { tracer_provider = none; propagators = none }))
      (ground arith)
