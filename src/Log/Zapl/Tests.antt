-- ===== src/Log/Zapl/Tests.antt =====
-- The logger over a logger that holds its level and its fields.
use gopack.Prelude.{
  map, ℕ, ◌≡◌, ◌≢◌, ◌++◌, refl, arith, String, List, [], ◌∷◌, Option, none, true, false, leb, All,
}
use text.Mathlib.TextEquality.{eq_iff}
use gopack.Samples.{Held, holding, background}
use gopack.Requestid.{from_context, context}
use gopack.Log.{warning_level, error_level, info_level, panic_level}
use gopack.Log.Zapl.{
  ZapLevel, zap_panic, zap_fatal, rank, Field, Line, Zap, Operand, string_operand, other_operand,
  sprint, new, info, with_context, context_fields,
}
use gopack.Log.Logger.{with_contexts, Logs, formatted, End, returns, exits, panics}
use gopack.Log.Zapl.Interface.{seen, implementation, new-Logs}
use gopack.Log.Zapl.Laws.{method_text, HasNoField, call, call-with_context}

abbrev HeldLogger : Type 0
HeldLogger = ZapLevel × List Field × List ℕ

abbrev held_lines : HeldLogger → ZapLevel → String → List (ℕ × Line)
held_lines (l, fs, ws) m s = elim (leb (rank l) (rank m)) [
  | true ↦ map (λ w. (w, record { line_level = m; line_message = s; line_fields = fs })) ws
  | false ↦ []
]

abbrev held_ending : ZapLevel → String → End
held_ending zap_panic s = panics s
held_ending zap_fatal s = exits
held_ending _ s = returns

abbrev holding_level : Zap ℕ
holding_level = record {
  Logger = HeldLogger;
  new_logger = λ l ws. (l, [], ws);
  level = λ l. l.0;
  with_fields = λ fs l. (l.0, l.1 ++ fs, l.2);
  lines = held_lines;
  ending = held_ending;
  level-new = λ l ws. refl;
  lines-new = λ l m ws s. refl;
  ending-panic = λ s. refl;
  ending-fatal = λ s. refl;
  ending-debug = λ s. refl;
  ending-info = λ s. refl;
  ending-warn = λ s. refl;
  ending-error = λ s. refl;
}

-- a format alone
abbrev format_only : String → List Operand → String
format_only s v = s

sprint_mixed :
    sprint (other_operand "1" ∷ other_operand "2" ∷ string_operand "x" ∷ other_operand "3" ∷ [])
    ≡ "1 2x3"
unfolding sprint
sprint_mixed = refl

held_back :
    info holding_level format_only
      (string_operand "x" ∷ [])
      (new holding_level warning_level (1 ∷ [])).0
    ≡ ([], returns)
unfolding info new
held_back = refl

abbrev no_span : Held → Option (String × String)
no_span c = none

abc_not_empty : ◌≢◌ {A = String} "abc" ""
abc_not_empty = ground (arith, eq_iff "abc" "")

call-with_context_example :
    let d = context holding "abc" background in
    ((rest : List Field) × (context_fields holding_level holding no_span d
        ≡ record { key = "request_id"; value = from_context holding d } ∷ rest))
    × All HasNoField
        (call holding_level format_only (formatted error_level) "failed" [] (
          with_context holding_level holding no_span d (new holding_level info_level (1 ∷ [])).0)).0
call-with_context_example =
    call-with_context holding_level format_only holding no_span (formatted error_level) "failed" []
      info_level (1 ∷ []) "abc" background abc_not_empty

abbrev x_line : ZapLevel → Line
x_line m = record { line_level = m; line_message = "x"; line_fields = [] }

-- behind two contexts, at a level that writes and at one that is held back
new-Logs_example :
    let made = (new holding_level warning_level (1 ∷ 2 ∷ [])).0 in
    let i = implementation holding_level format_only holding no_span in
    Logs i
      (method_text holding_level format_only)
      (1 ∷ 2 ∷ [])
      seen
      (with_contexts i (background ∷ background ∷ []) made)
      (formatted panic_level)
      "x"
      []
new-Logs_example =
    new-Logs holding_level format_only holding no_span warning_level (1 ∷ 2 ∷ [])
      (background ∷ background ∷ []) (formatted panic_level) "x" []
