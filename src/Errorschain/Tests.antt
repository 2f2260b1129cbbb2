-- ===== src/Errorschain/Tests.antt =====
-- Runs of error chains, and the laws at concrete chains.
use gopack.Prelude.{◌≡◌, refl, false, true, List, [], ◌∷◌, Option, none, some, Error, message}
use gopack.Samples.{joining}
use gopack.Errorschain.{Chain, return_first, return_all, new, apply_options, add_errors, error}
use gopack.Errorschain.Laws.{reports, errors-error}

abbrev held : List (Option Error)
held = none ∷ some (message "one") ∷ none ∷ some (message "two") ∷ []

abbrev collecting : Chain
collecting = record { return_first = false; errs = held }

abbrev stopping : Chain
stopping = record { return_first = true; errs = held }

options_in_order : add_errors held (new (return_first ∷ return_all ∷ [])) ≡ collecting
unfolding add_errors new return_first return_all apply_options
options_in_order = refl

errors-error_example : joining.errors (error joining collecting) ≡ reports joining held
errors-error_example = errors-error joining collecting refl
