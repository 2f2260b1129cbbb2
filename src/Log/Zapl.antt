-- ===== src/Log/Zapl.antt =====
-- log/zapl/log.go: the logger over go.uber.org/zap.
-- zap is the parameter `Zap`, with what its documentation says of loggers; `W` is the type of
-- writers. An operand of a message is a string, or another value by its text, and what
-- `fmt.Sprintf` makes of a format and operands is the parameter `sprintf`.
pub mod Laws
pub mod Default
pub mod Interface
mod Tests
use gopack.Prelude.{
  ltb, length, ℕ, ◌≡◌, ◌≤◌, Bool, true, false, not, ◌&&◌, String, List, [], ◌∷◌, ◌++◌, map, Option,
  none, some, ℤ, leb, if◌then◌else◌,
}
use text.Mathlib.Text.{◌==◌}
use Prim.Native.String
use gopack.Requestid.{Contexts, from_context}
use gopack.Log.Logger.{End, returns, exits, panics}
use gopack.Log.{
  Level, info_level, warning_level, error_level, fatal_level, panic_level, debug_level,
  invalid_level, other_level,
}

-- zapcore.Level
pub data ZapLevel : Type 0 where
  zap_debug zap_info zap_warn zap_error zap_dpanic zap_panic zap_fatal : ZapLevel
  zap_other : ℤ → ZapLevel

-- the order of zap's levels
abbrev pub rank : ZapLevel → ℕ
rank zap_debug = 0
rank zap_info = 1
rank zap_warn = 2
rank zap_error = 3
rank zap_dpanic = 4
rank zap_panic = 5
rank zap_fatal = 6
rank (zap_other n) = 7

pub record Field : Type 0 where
  pub key : String
  pub value : String

pub record Line : Type 0 where
  pub line_level : ZapLevel
  pub line_message : String
  pub line_fields : List Field

pub record Zap (W : Type 0) : Type 1 where
  pub Logger : Type 0
  pub new_logger : ZapLevel → List W → Logger
  pub level : Logger → ZapLevel
  pub with_fields : List Field → Logger → Logger
  pub lines : Logger → ZapLevel → String → List (W × Line)
  pub ending : ZapLevel → String → End
  pub level-new : (l : ZapLevel) (ws : List W) → level (new_logger l ws) ≡ l
  pub lines-new :
      (l m : ZapLevel) (ws : List W) (s : String)
      → lines (new_logger l ws) m s ≡ (elim (leb (rank l) (rank m)) [
        | true ↦ map (λ w. (w, record { line_level = m; line_message = s; line_fields = [] })) ws
        | false ↦ []
      ])
  pub ending-panic : (s : String) → ending zap_panic s ≡ panics s
  pub ending-fatal : (s : String) → ending zap_fatal s ≡ exits
  pub ending-debug : (s : String) → ending zap_debug s ≡ returns
  pub ending-info : (s : String) → ending zap_info s ≡ returns
  pub ending-warn : (s : String) → ending zap_warn s ≡ returns
  pub ending-error : (s : String) → ending zap_error s ≡ returns

pub data Operand : Type 0 where
  string_operand : String → Operand
  other_operand : String → Operand

abbrev operand_text : Operand → String
operand_text (string_operand s) = s
operand_text (other_operand s) = s

abbrev is_string : Operand → Bool
is_string (string_operand s) = true
is_string (other_operand s) = false

-- fmt.Sprint: a space stands between two operands when neither is a string
pub sprint : List Operand → String
sprint [] = ""
sprint (a ∷ []) = operand_text a
sprint (a ∷ b ∷ vs) =
    let rest = sprint (b ∷ vs) in
    let spaced = String.◌++◌ " " rest in
    String.◌++◌ (operand_text a) (if not (is_string a) && not (is_string b) then spaced else rest)

-- the switch of `New`
pub to_zap : Level → ZapLevel
to_zap info_level = zap_info
to_zap debug_level = zap_debug
to_zap warning_level = zap_warn
to_zap error_level = zap_error
to_zap panic_level = zap_panic
to_zap fatal_level = zap_fatal
to_zap invalid_level = zap_debug
to_zap (other_level n) = zap_debug

-- the switch of `LogLevel`
pub from_zap : ZapLevel → Level
from_zap zap_fatal = fatal_level
from_zap zap_panic = panic_level
from_zap zap_error = error_level
from_zap zap_info = info_level
from_zap zap_debug = debug_level
from_zap zap_warn = warning_level
from_zap zap_dpanic = invalid_level
from_zap (zap_other n) = invalid_level

-- What a call leaves: its lines, each with the writer that gets it, and its end.
abbrev pub Logged : Type 0 → Type 0
Logged W = List (W × Line) × End

module _ {W : Type 0} (zap : Zap W) where
  open zap use {Logger, new_logger, level, with_fields, lines, ending}

  -- `New`: the logger, and the one that it leaves as zap's global logger
  pub new : Level → List W → Logger × Logger
  unfolding to_zap
  new l writers = let logger = new_logger (to_zap l) writers in (logger, logger)

  -- `LogLevel`
  pub log_level : Logger → Level
  unfolding from_zap
  log_level l = from_zap (level l)

  -- a call of a method of `l.Logger.Sugar()`
  pub sugared : ZapLevel → String → Logger → Logged W
  sugared m s l = (lines l m s, ending m s)

  module _ (sprintf : String → List Operand → String) where
    pub debug : List Operand → Logger → Logged W
    unfolding sugared sprint
    debug v l = sugared zap_debug (sprint v) l

    pub debugf : String → List Operand → Logger → Logged W
    unfolding sugared
    debugf format v l = sugared zap_debug (sprintf format v) l

    pub panic : List Operand → Logger → Logged W
    unfolding sugared sprint
    panic v l = sugared zap_panic (sprint v) l

    pub panicf : String → List Operand → Logger → Logged W
    unfolding sugared
    panicf format v l = sugared zap_panic (sprintf format v) l

    pub fatal : List Operand → Logger → Logged W
    unfolding sugared sprint
    fatal v l = sugared zap_fatal (sprint v) l

    pub fatalf : String → List Operand → Logger → Logged W
    unfolding sugared
    fatalf format v l = sugared zap_fatal (sprintf format v) l

    pub error : List Operand → Logger → Logged W
    unfolding sugared sprint
    error v l = sugared zap_error (sprint v) l

    pub errorf : String → List Operand → Logger → Logged W
    unfolding sugared
    errorf format v l = sugared zap_error (sprintf format v) l

    pub warn : List Operand → Logger → Logged W
    unfolding sugared sprint
    warn v l = sugared zap_warn (sprint v) l

    pub warnf : String → List Operand → Logger → Logged W
    unfolding sugared
    warnf format v l = sugared zap_warn (sprintf format v) l

    pub info : List Operand → Logger → Logged W
    unfolding sugared sprint
    info v l = sugared zap_info (sprint v) l

    pub infof : String → List Operand → Logger → Logged W
    unfolding sugared
    infof format v l = sugared zap_info (sprintf format v) l

  module _ (ctxs : Contexts) (span : ctxs.Context → Option (String × String)) where
    open ctxs use {Context}

    -- the fields that `WithContext` collects; `span` has the texts of the trace and the span id
    pub context_fields : Context → List Field
    context_fields ctx =
        let request_id = from_context ctxs ctx in
        (if not (request_id == "")
          then record { key = "request_id"; value = request_id } ∷ []
          else [])
        ++ (elim (span ctx) [
          | none ↦ []
          | some (trace_id, span_id) ↦
              record { key = "trace_id"; value = trace_id }
              ∷ record { key = "span_id"; value = span_id }
              ∷ []
        ])

    -- `WithContext`: the logger that `With` returns is dropped
    pub with_context : Context → Logger → Logger
    unfolding context_fields
    with_context ctx l =
        let fields = context_fields ctx in
        if ltb 0 (length fields) then (let fielded = with_fields fields l in l) else l
