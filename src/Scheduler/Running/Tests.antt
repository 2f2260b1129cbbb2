-- ===== src/Scheduler/Running/Tests.antt =====
-- A process in which one job fails at its second run.
use gopack.Prelude.{
  ℕ, zero, suc, ◌≡◌, refl, Bool, true, false, String, List, [], ◌∷◌, ◌++◌, Option, none, some,
  Error, message, if◌then◌else◌,
}
use gopack.Scheduler.{
  Job, Registration, Effect, registration, start, stop, find, new_jobs_scheduler,
}
use gopack.Scheduler.Running.{
  Process, Action, new_process, starts, stops, proceeds, adds, runs, started, run,
}
use gopack.Scheduler.Running.Laws.{reports, run-printed}

abbrev parse : String → Option Error
parse s = none

abbrev on_do : List (Registration ℕ) → Registration ℕ → Option Error
on_do before r = none

abbrev wrap : Error → String → Error
wrap e s = message s

-- gocron runs what it holds when it was started
abbrev may_run : List Effect → List (Registration ℕ) → ℕ → Bool
may_run es calls i = started es

abbrev name_of : Registration ℕ → String
name_of r = r.name

abbrev at_first : ℕ → Bool
at_first zero = true
at_first (suc n) = false

abbrev worker : Job ℕ
worker = record {
  id = "a";
  run = λ moment ctx. if at_first moment then none else some (message "no disk");
}

abbrev acts : List (Action ℕ)
acts =
    adds 5 "@daily" worker
    ∷ starts
    ∷ proceeds
    ∷ proceeds
    ∷ runs 0 0
    ∷ adds 6 "@daily" worker
    ∷ runs 0 1
    ∷ stops
    ∷ proceeds
    ∷ []

abbrev ended : Process ℕ
ended = record {
  scheduler = record { calls = registration "@daily" worker 5 ∷ []; jobs = ("a", worker) ∷ [] };
  effects = start ++ stop.0;
  pending = [];
  printed = "Panic in job: a" ∷ [];
  panic = none;
}

reached : run parse on_do wrap may_run name_of acts new_process ≡ some ended
unfolding run registration start stop find started new_process new_jobs_scheduler
reached = refl

may_run-idle :
    (es : List Effect) (calls : List (Registration ℕ)) (i : ℕ)
    → started es ≡ false
    → may_run es calls i ≡ false
may_run-idle es calls i h = h

run-printed_example :
    (ended.panic ≡ none) × (ended.printed ≡ reports name_of ended.scheduler.calls acts)
run-printed_example = run-printed parse on_do wrap may_run name_of may_run-idle acts ended reached
