-- ===== src/Log/Zapl/Laws.antt =====
-- What a logger writes, and how its calls end (log/zapl/log.go).
use gopack.Prelude.{
  ◌≡◌, ◌≢◌, refl, ap, ◌∙◌, String, List, [], ◌∷◌, Option, none, some, arith, leb, All, map,
  if◌then◌else◌,
}
use text.Mathlib.TextEquality.{eq_iff}
use gopack.Requestid.{Contexts, from_context, context}
use gopack.Requestid.Laws.{context_lem}
use gopack.Log.{
  Level, info_level, warning_level, error_level, fatal_level, panic_level, debug_level,
  invalid_level, other_level,
}
use gopack.Log.Logger.{named, severity, Method, plain, formatted, method_level, level_end}
use gopack.Log.Zapl.{
  rank, Field, Line, Zap, Operand, sprint, to_zap, from_zap, Logged, new, log_level, sugared, debug,
  debugf, panic, panicf, fatal, fatalf, error, errorf, warn, warnf, info, infof, context_fields,
  with_context,
}

abbrev pub HasNoField : {W : Type 0} → W × Line → Type 0
HasNoField (w, line) = line.line_fields ≡ []

-- a line without fields
abbrev pub line_at : Level → String → Line
line_at m s = record { line_level = to_zap m; line_message = s; line_fields = [] }

-- the line, for each writer
abbrev pub sent_to : {W : Type 0} → List W → Level → String → List (W × Line)
sent_to ws m s = map (λ w. (w, line_at m s)) ws

-- what a call at level `m` writes through a logger for level `l`
abbrev pub written : {W : Type 0} → List W → Level → Level → String → List (W × Line)
written ws l m s = if leb (severity l) (severity m) then sent_to ws m s else []

-- at the debug level nothing is held back
pub written-debug :
    {W : Type 0} (ws : List W) (m : Level) (s : String)
    → written ws debug_level m s ≡ sent_to ws m s
written-debug ws m s = ground arith

severity-rank :
    (l m : Level) → leb (rank (to_zap l)) (rank (to_zap m)) ≡ leb (severity l) (severity m)
unfolding to_zap
severity-rank l m = ground arith

module _ {W : Type 0} (zap : Zap W) where
  open zap use {Logger, new_logger, level-new, lines-new}

  -- A logger says the level that it was made for, and the debug level where that has no writing of
  -- its own. It is also zap's global logger.
  pub log_level-new :
      (l : Level) (ws : List W)
      → (log_level zap (new zap l ws).0 ≡ named l) × ((new zap l ws).1 ≡ (new zap l ws).0)
  unfolding log_level new to_zap from_zap
  log_level-new l ws = (ap from_zap (level-new (to_zap l) ws) ∙ from_to l, refl)
    where
      from_to : (l : Level) → from_zap (to_zap l) ≡ named l
      from_to l = ground arith

  ending_of : (l : Level) (s : String) → zap.ending (to_zap l) s ≡ level_end (named l) s
  unfolding to_zap
  ending_of info_level s = zap.ending-info s
  ending_of warning_level s = zap.ending-warn s
  ending_of error_level s = zap.ending-error s
  ending_of fatal_level s = zap.ending-fatal s
  ending_of panic_level s = zap.ending-panic s
  ending_of debug_level s = zap.ending-debug s
  ending_of invalid_level s = zap.ending-debug s
  ending_of (other_level n) s = zap.ending-debug s

  module _ (sprintf : String → List Operand → String) where
    -- the text of a message, by its method; only a method with a format reads it
    abbrev pub method_text : Method → String → List Operand → String
    method_text (plain l) format v = sprint v
    method_text (formatted l) format v = sprintf format v

    -- the methods of a logger
    unfoldable pub call : Method → String → List Operand → Logger → Logged W
    call (plain info_level) format v lg = info zap sprintf v lg
    call (plain warning_level) format v lg = warn zap sprintf v lg
    call (plain error_level) format v lg = error zap sprintf v lg
    call (plain fatal_level) format v lg = fatal zap sprintf v lg
    call (plain panic_level) format v lg = panic zap sprintf v lg
    call (plain _) format v lg = debug zap sprintf v lg
    call (formatted info_level) format v lg = infof zap sprintf format v lg
    call (formatted warning_level) format v lg = warnf zap sprintf format v lg
    call (formatted error_level) format v lg = errorf zap sprintf format v lg
    call (formatted fatal_level) format v lg = fatalf zap sprintf format v lg
    call (formatted panic_level) format v lg = panicf zap sprintf format v lg
    call (formatted _) format v lg = debugf zap sprintf format v lg

    call-sugared :
        (m : Method) (format : String) (v : List Operand) (lg : Logger)
        → call m format v lg ≡ sugared zap (to_zap (method_level m)) (method_text m format v) lg
    unfolding call to_zap info warn error fatal panic debug infof warnf errorf fatalf panicf debugf
    call-sugared (plain info_level) format v lg = refl
    call-sugared (plain _) format v lg = refl
    call-sugared (formatted info_level) format v lg = refl
    call-sugared (formatted _) format v lg = refl

    lines_of :
        (l m : Level) (ws : List W) (s : String)
        → zap.lines (new_logger (to_zap l) ws) (to_zap m) s ≡ written ws l m s
    lines_of l m ws s = lines-new (to_zap l) (to_zap m) ws s ∙ rw (severity-rank l m) (ground arith)

    named_method : (m : Method) → named (method_level m) ≡ method_level m
    named_method (plain l) = ground arith
    named_method (formatted l) = ground arith

    sent_to-HasNoField : (ws : List W) (m : Level) (s : String) → All HasNoField (sent_to ws m s)
    sent_to-HasNoField [] m s = tt
    sent_to-HasNoField (w ∷ ws) m s = (refl, sent_to-HasNoField ws m s)

    written-HasNoField :
        (ws : List W) (l m : Level) (s : String) → All HasNoField (written ws l m s)
    written-HasNoField ws l m s = ground (arith, sent_to-HasNoField ws m s)

    -- A call of any of the twelve methods on a logger that was made for a level writes its text in
    -- one line, without fields, to each writer exactly if the method's level is at least as severe as the
    -- logger's. Whether it writes or not, a call at the panic level panics with the text, one at
    -- the fatal level exits, and any other returns.
    pub call-new :
        (m : Method) (format : String) (v : List Operand) (l : Level) (ws : List W)
        → call m format v (new zap l ws).0 ≡ (
          written ws l (method_level m) (method_text m format v),
          level_end (method_level m) (method_text m format v),
        )
    unfolding new sugared
    call-new m format v l ws =
        let k = method_level m in
        let t = method_text m format v in
        call-sugared m format v (new_logger (to_zap l) ws)
        ∙ ap (λ ls. (ls, zap.ending (to_zap k) t)) (lines_of l k ws t)
        ∙ ap (λ e. (written ws l k t, e)) (ending_of k t ∙ ap (λ n. level_end n t) (named_method m))

    pub with_context-same :
        (ctxs : Contexts) (span : ctxs.Context → Option (String × String)) (ctx : ctxs.Context)
        (lg : Logger)
        → with_context zap ctxs span ctx lg ≡ lg
    unfolding with_context
    with_context-same ctxs span ctx lg = ground arith

    -- Through `WithContext` nothing of a context reaches a line: with the request id that `Context`
    -- put into the context, which it made as a text that is not empty, or found there, the fields
    -- that `WithContext` collects begin with that id, and what a call of any method writes through
    -- the logger that it returns has no field at all.
    pub call-with_context :
        (ctxs : Contexts) (span : ctxs.Context → Option (String × String)) (m : Method)
        (format : String) (v : List Operand) (l : Level) (ws : List W) (fresh : String)
        (ctx : ctxs.Context)
        → fresh ≢ ""
        → let d = context ctxs fresh ctx in
          ((rest : List Field) × (context_fields zap ctxs span d
              ≡ record { key = "request_id"; value = from_context ctxs d } ∷ rest))
          × All HasNoField (call m format v (with_context zap ctxs span d (new zap l ws).0)).0
    unfolding context_fields
    call-with_context ctxs span m format v l ws fresh ctx h =
        let d = context ctxs fresh ctx in
        let id = (context_lem ctxs fresh fresh ctx h).0 in
        let ids : List Field = elim (span d) [
          | none ↦ []
          | some (trace_id, span_id) ↦
              record { key = "trace_id"; value = trace_id }
              ∷ record { key = "span_id"; value = span_id }
              ∷ []
        ] in
        (
          (ids, ground (arith, eq_iff (from_context ctxs d) "")),
          rw (with_context-same ctxs span d (new zap l ws).0, call-new m format v l ws)
              (written-HasNoField ws l (method_level m) (method_text m format v)),
        )
