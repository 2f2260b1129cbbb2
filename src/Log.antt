-- ===== src/Log.antt =====
-- log/level.go: the levels of the loggers, and their names.
pub mod Logger
pub mod Zapl
use gopack.Prelude.{◌≡◌, refl, String, Option, none, some, arith, ℤ}
use text.Mathlib.TextEquality.{eq_iff}

-- `Level`: its constants, or another number
pub data Level : Type 0 where
  info_level warning_level error_level fatal_level panic_level debug_level invalid_level : Level
  other_level : ℤ → Level

-- `String`; none is the panic
pub level_string : Level → Option String
level_string info_level = some "info"
level_string debug_level = some "debug"
level_string warning_level = some "warn"
level_string fatal_level = some "fatal"
level_string panic_level = some "panic"
level_string error_level = some "error"
level_string invalid_level = none
level_string (other_level n) = none
