-- ===== src/Log/Logger.antt =====
-- log/logger.go: the interface of the loggers, and what it asks of an implementation.
-- `L` is the type that implements the interface, `V` that of the operands of a message, `C` that of
-- contexts, and `R` is what a call leaves. `W` is the type of writers.
use gopack.Prelude.{map, ◌≡◌, String, List, [], ◌∷◌, leb, if◌then◌else◌, ℕ}
use gopack.Log.{
  Level, info_level, warning_level, error_level, fatal_level, panic_level, debug_level,
  invalid_level, other_level,
}

-- A level that has no writing of its own counts as the debug level.
abbrev pub named : Level → Level
named invalid_level = debug_level
named (other_level n) = debug_level
named l = l

-- how severe a level is
abbrev pub severity : Level → ℕ
severity debug_level = 0
severity info_level = 1
severity warning_level = 2
severity error_level = 3
severity panic_level = 4
severity fatal_level = 5
severity invalid_level = 0
severity (other_level n) = 0

-- The methods: one for each level, with operands alone or with a format.
pub data Method : Type 0 where
  plain formatted : Level → Method

abbrev pub method_level : Method → Level
method_level (plain l) = named l
method_level (formatted l) = named l

-- How a call of a logger ends: it returns, the process exits, or the goroutine panics.
pub data End : Type 0 where
  returns exits : End
  panics : String → End

-- A panic is the end of the panic level, an exit that of the fatal level.
abbrev pub level_end : Level → String → End
level_end panic_level s = panics s
level_end fatal_level s = exits
level_end _ s = returns

-- `Logger`
pub record Logger (L V C R : Type 0) : Type 0 where
  pub info : List V → L → R
  pub infof : String → List V → L → R
  pub warn : List V → L → R
  pub warnf : String → List V → L → R
  pub error : List V → L → R
  pub errorf : String → List V → L → R
  pub fatal : List V → L → R
  pub fatalf : String → List V → L → R
  pub panic : List V → L → R
  pub panicf : String → List V → L → R
  pub debug : List V → L → R
  pub debugf : String → List V → L → R
  pub log_level : L → Level
  pub with_context : C → L → L

module _ {L V C R : Type 0} (i : Logger L V C R) where
  -- a call of the interface, by its method; only a method with a format reads it
  abbrev pub call : Method → String → List V → L → R
  call (plain info_level) format v lg = i.info v lg
  call (plain warning_level) format v lg = i.warn v lg
  call (plain error_level) format v lg = i.error v lg
  call (plain fatal_level) format v lg = i.fatal v lg
  call (plain panic_level) format v lg = i.panic v lg
  call (plain _) format v lg = i.debug v lg
  call (formatted info_level) format v lg = i.infof format v lg
  call (formatted warning_level) format v lg = i.warnf format v lg
  call (formatted error_level) format v lg = i.errorf format v lg
  call (formatted fatal_level) format v lg = i.fatalf format v lg
  call (formatted panic_level) format v lg = i.panicf format v lg
  call (formatted _) format v lg = i.debugf format v lg

  -- the loggers behind some calls of `WithContext`
  abbrev pub with_contexts : List C → L → L
  with_contexts [] lg = lg
  with_contexts (c ∷ cs) lg = with_contexts cs (i.with_context c lg)

  -- What the interface says of a call through a logger `lg`, when `text` is what the methods make of
  -- their operands, `ws` the writers and `seen` what a call leaves, as lines with their writers and
  -- levels, and an end: it writes its text in one line at its level to each writer exactly if that is at least as severe as what `LogLevel`
  -- returns, and it ends as its level asks for.
  abbrev pub Logs :
      {W : Type 0}
      → (Method → String → List V → String)
      → List W
      → (R → List (W × Level × String) × End)
      → L
      → Method
      → String
      → List V
      → Type 0
  Logs text ws seen lg m format v = seen (call m format v lg) ≡ (
    if leb (severity (i.log_level lg)) (severity (method_level m))
        then map (λ w. (w, method_level m, text m format v)) ws
        else [],
    level_end (method_level m) (text m format v),
  )
