-- ===== src/Scheduler/Tests.antt =====
-- Jobs that are added to a scheduler, and the laws at concrete calls.
use gopack.Prelude.{
  ℕ, ◌≡◌, refl, String, List, [], ◌∷◌, Option, none, some, Error, message, if◌then◌else◌,
}
use text.Mathlib.Text.{◌==◌}
use gopack.Scheduler.{Job, Registration, JobsScheduler, find, add_jobs, new_jobs_scheduler}
use gopack.Scheduler.Laws.{IsConsistent, add_jobs-IsConsistent}

abbrev parse : String → Option Error
parse s = if s == "" then some (message "empty spec string") else none

-- gocron refuses the job "c"
abbrev on_do : List (Registration ℕ) → Registration ℕ → Option Error
on_do before r = if r.name == "c" then some (message "refused") else none

abbrev job : String → Job ℕ
job id = record { id = id; run = λ n c. none }

abbrev more : List (ℕ × String × Job ℕ)
more =
    (0, "* * * * *", job "a")
    ∷ (0, "", job "b")
    ∷ (1, "* * * * *", job "c")
    ∷ (2, "@daily", job "a")
    ∷ (2, "@daily", job "b")
    ∷ []

holds_a_and_b :
    (add_jobs parse on_do more new_jobs_scheduler).jobs ≡ ("a", job "a") ∷ ("b", job "b") ∷ []
unfolding add_jobs find new_jobs_scheduler
holds_a_and_b = refl

add_jobs-IsConsistent_example :
    IsConsistent parse on_do (add_jobs parse on_do more new_jobs_scheduler)
add_jobs-IsConsistent_example = add_jobs-IsConsistent parse on_do more

abbrev holder : JobsScheduler ℕ
holder = record { calls = []; jobs = ("a", job "a") ∷ [] }
