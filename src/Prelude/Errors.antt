-- ===== src/Prelude/Errors.antt =====
-- Go's `error` values. A nil error is `none`.
use Prim.Native.Nat.{ℕ}
use Prim.Native.String.{String}
use mathlib.Core.Path.{◌≡◌}
use mathlib.Core.List.{List, [], ◌++◌}
use mathlib.Core.Logic.{◌≢◌}
use mathlib.Core.Option.{Option, none, some}

-- `message` is `errors.New` and `fmt.Errorf` with no `%w`; `wrapped` is `fmt.Errorf` with `%w`,
-- its text before the cause; `joined` holds the two errors that multierr appended; `foreign` is
-- an error that code outside the repository made. The errors of `errors.Join`, whose parts multierr
-- takes apart in `Errors` and not in `Append`, are not among these values.
pub data Error : Type 0 where
  message : String → Error
  wrapped : String → Error → Error
  joined : Error → Error → Error
  foreign : ℕ → Error

-- go.uber.org/multierr: `Append` and `Errors`, with what its documentation says of them
-- for these errors.
pub record Multierr : Type 0 where
  pub append : Option Error → Option Error → Option Error
  pub errors : Option Error → List Error
  pub errors-none : errors none ≡ []
  pub errors-some : (e : Error) → errors (some e) ≢ []
  pub errors-append : (a b : Option Error) → errors (append a b) ≡ errors a ++ errors b
