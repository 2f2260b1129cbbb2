-- ===== src/Log/Zapl/Interface.antt =====
-- The logger of log/zapl/log.go as one of log/logger.go.
use gopack.Prelude.{
  Bool, true, false, ◌≡◌, refl, ap, ◌∙◌, String, List, [], ◌∷◌, map, Option, arith, leb,
  if◌then◌else◌,
}
use gopack.Requestid.{Contexts}
use gopack.Log.{Level, info_level}
use gopack.Log.Logger
use gopack.Log.Logger.{
  named, severity, Method, plain, formatted, method_level, End, level_end, with_contexts, Logs,
}
use gopack.Log.Zapl.{
  Zap, Operand, from_zap, to_zap, Logged, new, log_level, debug, debugf, panic, panicf, fatal,
  fatalf, error, errorf, warn, warnf, info, infof, with_context,
}
use gopack.Log.Zapl.Laws.{
  method_text, call, call-new, written, sent_to, log_level-new, with_context-same,
}

-- A call by its lines with their writers, levels and texts, and its end.
abbrev pub seen : {W : Type 0} → Logged W → List (W × Level × String) × End
seen (ls, end) = (map (λ (w, line). (w, from_zap line.line_level, line.line_message)) ls, end)

module _ {W : Type 0} (zap : Zap W) (sprintf : String → List Operand → String) (ctxs : Contexts)
    (span : ctxs.Context → Option (String × String)) where
  -- `var _ log.Logger = &Log{}`
  pub implementation : Logger.Logger zap.Logger Operand ctxs.Context (Logged W)
  unfolding info infof warn warnf error errorf fatal fatalf panic panicf debug debugf log_level
      with_context
  implementation = record {
    info = info zap sprintf;
    infof = infof zap sprintf;
    warn = warn zap sprintf;
    warnf = warnf zap sprintf;
    error = error zap sprintf;
    errorf = errorf zap sprintf;
    fatal = fatal zap sprintf;
    fatalf = fatalf zap sprintf;
    panic = panic zap sprintf;
    panicf = panicf zap sprintf;
    debug = debug zap sprintf;
    debugf = debugf zap sprintf;
    log_level = log_level zap;
    with_context = with_context zap ctxs span;
  }

  call-implementation :
      (m : Method) (format : String) (v : List Operand) (lg : zap.Logger)
      → Logger.call implementation m format v lg ≡ call zap sprintf m format v lg
  unfolding implementation call
  call-implementation (plain info_level) format v lg = refl
  call-implementation (plain _) format v lg = refl
  call-implementation (formatted info_level) format v lg = refl
  call-implementation (formatted _) format v lg = refl

  with_contexts-same :
      (cs : List ctxs.Context) (lg : zap.Logger) → with_contexts implementation cs lg ≡ lg
  unfolding implementation
  with_contexts-same [] lg = refl
  with_contexts-same (c ∷ cs) lg =
      ap (with_contexts implementation cs) (with_context-same zap sprintf ctxs span c lg)
      ∙ with_contexts-same cs lg

  seen-sent_to :
      (ws : List W) (m : Level) (s : String) (end : End)
      → from_zap (to_zap m) ≡ m
      → (seen (sent_to ws m s, end)).0 ≡ map (λ w. (w, m, s)) ws
  seen-sent_to [] m s end h = refl
  seen-sent_to (w ∷ ws) m s end h = ground (arith, h, seen-sent_to ws m s end h)

  from_to : (m : Method) → from_zap (to_zap (method_level m)) ≡ method_level m
  unfolding from_zap to_zap
  from_to (plain l) = ground arith
  from_to (formatted l) = ground arith

  severity-named : (l : Level) → severity (named l) ≡ severity l
  severity-named l = ground arith

  seen-written :
      (ws : List W) (l : Level) (m : Method) (s : String) (end : End)
      → seen (written ws l (method_level m) s, end) ≡ (
        if leb (severity (named l)) (severity (method_level m))
            then map (λ w. (w, method_level m, s)) ws
            else [],
        end,
      )
  seen-written ws l m s end =
      rw (severity-named l) (by_test (leb (severity l) (severity (method_level m))))
    where
      by_test :
          (b : Bool)
          → seen (if b then sent_to ws (method_level m) s else [], end)
            ≡ (if b then map (λ w. (w, method_level m, s)) ws else [], end)
      by_test true = ap (λ ls. (ls, end)) (seen-sent_to ws (method_level m) s end (from_to m))
      by_test false = refl

  -- A logger that `New` made for any level and writers does what the interface asks of one, also
  -- behind any calls of `WithContext`: a call of each of its twelve methods writes its text in
  -- one line at its level to each of the writers exactly if that is at least as severe as what `LogLevel` returns, and it
  -- panics at the panic level, exits at the fatal level, and returns at the others.
  pub new-Logs :
      (l : Level) (ws : List W) (cs : List ctxs.Context) (m : Method) (format : String)
      (v : List Operand)
      → Logs implementation
          (method_text zap sprintf)
          ws
          seen
          (with_contexts implementation cs (new zap l ws).0)
          m
          format
          v
  unfolding implementation
  new-Logs l ws cs m format v =
      let s = method_text zap sprintf m format v in
      rw (with_contexts-same cs (new zap l ws).0, (log_level-new zap l ws).0)
        (ap seen
            (call-implementation m format v (new zap l ws).0 ∙ call-new zap sprintf m format v l ws)
          ∙ seen-written ws l m s (level_end (method_level m) s))
