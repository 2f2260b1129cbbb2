-- ===== src/Errorschain.antt =====
-- errorschain/errorschain.go: a chain of errors and its two ways to report them.
-- `*Chain` is a record, and a method returns the changed record.
pub mod Laws
mod Tests
use gopack.Prelude.{
  Bool, true, false, List, [], ◌∷◌, ◌++◌, Option, none, some, Error, Multierr, if◌then◌else◌,
}

pub record Chain : Type 0 where
  pub return_first : Bool
  pub errs : List (Option Error)

abbrev pub ChainOption : Type 0
ChainOption = Chain → Chain

unfoldable pub return_first : ChainOption
return_first c = record c { return_first = true }

unfoldable pub return_all : ChainOption
return_all c = record c { return_first = false }

-- the loop of `New` over its options
unfoldable pub apply_options : List ChainOption → Chain → Chain
apply_options [] c = c
apply_options (opt ∷ opts) c = apply_options opts (opt c)

unfoldable pub new : List ChainOption → Chain
unfolding apply_options
new opts = apply_options opts (record { return_first = false; errs = [] })

pub add_error : Option Error → Chain → Chain
add_error err c = record c { errs = c.errs ++ err ∷ [] }

unfoldable pub add_errors : List (Option Error) → Chain → Chain
add_errors errs c = record c { errs = c.errs ++ errs }

module _ (m : Multierr) where
  -- the loop of `Error`; `acc` is its variable `err`
  unfoldable pub error_from : Bool → Option Error → List (Option Error) → Option Error
  error_from first acc [] = acc
  error_from first acc (none ∷ vs) = error_from first acc vs
  error_from first acc (some v ∷ vs) =
      let rest = error_from first (m.append acc (some v)) vs in if first then some v else rest

  unfoldable pub error : Chain → Option Error
  unfolding error_from
  error c = error_from c.return_first none c.errs
