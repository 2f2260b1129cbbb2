-- ===== src/Log/Zapl/Default.antt =====
-- log/zapl/log.go: the functions of the package, which call the default logger.
-- `DefaultLogger` is a variable of the package that nothing in the repository assigns again; `zap` and
-- `sprintf` are as in the parent, `stdout` and `stderr` the writers of the process.
use gopack.Prelude.{
  Bool, ltb, if◌then◌else◌, arith, some, none, ◌≡◌, ◌∙◌, ap, String, List, [], ◌∷◌, Option,
}
use gopack.Requestid.{Contexts}
use gopack.Log.{info_level, warning_level, error_level, fatal_level, panic_level, debug_level}
use gopack.Log.Zapl
use gopack.Log.Zapl.{Zap, Operand, Logged, Line, new, with_context}
use gopack.Log.Logger.{Method, plain, formatted, method_level, level_end, severity}
use gopack.Log.Zapl.Laws.{method_text, call, call-new, sent_to, written-debug}

module _ {W : Type 0} (zap : Zap W) (stdout stderr : W) where
  open zap use {Logger}

  pub default_logger : Logger
  unfolding new
  default_logger = (new zap debug_level (stdout ∷ stderr ∷ [])).0

  pub default_with_context :
      (ctxs : Contexts) (span : ctxs.Context → Option (String × String)) → ctxs.Context → Logger
  unfolding with_context default_logger
  default_with_context ctxs span ctx = with_context zap ctxs span ctx default_logger

  module _ (sprintf : String → List Operand → String) where
    pub info : List Operand → Logged W
    unfolding default_logger
    info v = Zapl.info zap sprintf v default_logger

    pub infof : String → List Operand → Logged W
    unfolding default_logger
    infof format v = Zapl.infof zap sprintf format v default_logger

    pub warning : List Operand → Logged W
    unfolding default_logger
    warning v = Zapl.warn zap sprintf v default_logger

    pub warningf : String → List Operand → Logged W
    unfolding default_logger
    warningf format v = Zapl.warnf zap sprintf format v default_logger

    pub error : List Operand → Logged W
    unfolding default_logger
    error v = Zapl.error zap sprintf v default_logger

    pub errorf : String → List Operand → Logged W
    unfolding default_logger
    errorf format v = Zapl.errorf zap sprintf format v default_logger

    pub fatal : List Operand → Logged W
    unfolding default_logger
    fatal v = Zapl.fatal zap sprintf v default_logger

    pub fatalf : String → List Operand → Logged W
    unfolding default_logger
    fatalf format v = Zapl.fatalf zap sprintf format v default_logger

    pub panic : List Operand → Logged W
    unfolding default_logger
    panic v = Zapl.panic zap sprintf v default_logger

    pub panicf : String → List Operand → Logged W
    unfolding default_logger
    panicf format v = Zapl.panicf zap sprintf format v default_logger

    -- The functions, by the method that they stand for.
    pub function : Method → String → List Operand → Option (Logged W)
    unfolding info infof warning warningf error errorf fatal fatalf panic panicf
    function (plain info_level) format v = some (info v)
    function (plain warning_level) format v = some (warning v)
    function (plain error_level) format v = some (error v)
    function (plain fatal_level) format v = some (fatal v)
    function (plain panic_level) format v = some (panic v)
    function (plain _) format v = none
    function (formatted info_level) format v = some (infof format v)
    function (formatted warning_level) format v = some (warningf format v)
    function (formatted error_level) format v = some (errorf format v)
    function (formatted fatal_level) format v = some (fatalf format v)
    function (formatted panic_level) format v = some (panicf format v)
    function (formatted _) format v = none

    -- the package has no function for the debug level
    abbrev pub is_offered : Method → Bool
    is_offered m = ltb 0 (severity (method_level m))

    function-call :
        (m : Method) (format : String) (v : List Operand)
        → function m format v
          ≡ (if is_offered m then some (call zap sprintf m format v default_logger) else none)
    unfolding function info infof warning warningf error errorf fatal fatalf panic panicf call
    function-call m format v = ground arith

    -- Every function of the package writes its text, in one line of its own level without fields
    -- to each of the standard output and the standard error:
    -- the default logger holds nothing back. A function at the panic level then panics with the
    -- text, one at the fatal level exits, and the others return. There is none for the debug level.
    pub function-writes :
        (m : Method) (format : String) (v : List Operand)
        → function m format v ≡ (
            if is_offered m
            then some (
              sent_to (stdout ∷ stderr ∷ []) (method_level m) (method_text zap sprintf m format v),
              level_end (method_level m) (method_text zap sprintf m format v),
            )
            else none)
    unfolding default_logger
    function-writes m format v =
        function-call m format v
        ∙ ap (λ r. if is_offered m then some r else none)
            (call-new zap sprintf m format v debug_level (stdout ∷ stderr ∷ [])
              ∙ ap (λ ls. (ls, level_end (method_level m) (method_text zap sprintf m format v)))
                  (written-debug (stdout ∷ stderr ∷ []) (method_level m)
                    (method_text zap sprintf m format v)))
