-- ===== src/Otel/HttpHandler/Tests.antt =====
-- Requests through the middleware, and the laws at concrete handlers.
use gopack.Prelude.{ℕ, ◌≡◌, refl, true, String, List, [], ◌∷◌, some}
use gopack.Otel.HttpHandler.{
  Call, write, write_header, flush, push, RecordingResponseWriter, TraceWrapper, serve_http,
}
use gopack.Otel.HttpHandler.Laws.{
  sent_status, Answers, decides, flushes_early, serve_http-Answers, serve_http-Evades,
}

abbrev extract : ℕ → String → ℕ
extract p r = p

abbrev start_span : ℕ → ℕ → ℕ
start_span t c = c

abbrev url : String → String
url r = r

abbrev missing : ℕ → String → List (Call String)
missing c r = push "/x.css" ∷ write_header 404 ∷ write "gone" ∷ write_header 500 ∷ []

abbrev wrapper : TraceWrapper ℕ ℕ (ℕ → String → List (Call String))
wrapper = record { server_name = "api"; tracer = 1; propagators = 2; handler = missing }

abbrev stale : RecordingResponseWriter String
stale = record { written = true; status = 503; passed = [] }

serve_http-Answers_example :
    (sent_status (missing 2 "/x") ≡ some 404)
    × (serve_http extract start_span url stale wrapper "/x"
        ≡ record { name = "/x"; server_name = "api"; status_code = 404; response = missing 2 "/x" })
serve_http-Answers_example =
    serve_http-Answers extract start_span url stale wrapper "/x" 404
      (Answers.pushes "/x.css" (decides 404 _ refl refl))

-- The status comes behind a flush.
abbrev early : ℕ → String → List (Call String)
early c r = flush ∷ write_header 404 ∷ write "page" ∷ []

abbrev flushing : TraceWrapper ℕ ℕ (ℕ → String → List (Call String))
flushing = record wrapper { handler = early }

serve_http-Evades_example :
    ((serve_http extract start_span url stale flushing "/x").status_code ≡ 404)
    × (sent_status (early 2 "/x") ≡ some 200)
serve_http-Evades_example =
    serve_http-Evades extract start_span url stale flushing "/x" 404 (some 200)
      (flushes_early 404 (write "page" ∷ []))
