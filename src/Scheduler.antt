-- ===== src/Scheduler.antt =====
-- scheduler/scheduler.go: the jobs that a scheduler holds.
-- github.com/robfig/cron and github.com/go-co-op/gocron are parameters: `parse` is the error of the
-- expression parser, and `on_do` answers a call of `Do` by the calls before it. What the scheduler
-- of gocron holds is the list of these calls. `C` is the type of contexts.
pub mod Jobs
pub mod Laws
pub mod Running
mod Tests
use gopack.Prelude.{
  ℕ, ◌≡◌, Bool, true, false, String, List, [], ◌∷◌, ◌++◌, Option, none, some, Error, message,
  is_some, if◌then◌else◌,
}
use text.Mathlib.Text.{◌==◌}
use Prim.Native.String

pub record Job (C : Type 0) : Type 0 where
  pub id : String
  -- what `Run` returns, which may differ from one moment to another
  pub run : ℕ → C → Option Error

-- a call of `Do`, with what the calls before it in the chain set, and what its function holds
pub record Registration (C : Type 0) : Type 0 where
  pub cron : String
  pub name : String
  pub tag : String
  pub singleton : Bool
  pub job : Job C
  pub ctx : C

-- The map has its keys in the order of insertion.
pub record JobsScheduler (C : Type 0) : Type 0 where
  pub calls : List (Registration C)
  pub jobs : List (String × Job C)

pub data Effect : Type 0 where
  set_panic_handler start_async notify stop_scheduler : Effect
  exit : Effect

abbrev pub already_added : String → Error
already_added id = message (String.◌++◌ (String.◌++◌ "job (" id) ") is already added")

-- `SetPanicHandler` and `StartAsync`
pub start : List Effect
start = set_panic_handler ∷ start_async ∷ []

pub stop : List Effect × Option Error
stop = (stop_scheduler ∷ [], none)

-- `Run`, from the call to the exit; the panic when `Stop` fails is the second component
pub run_scheduler : List Effect × Option Error
unfolding start stop
run_scheduler = elim stop.1 [
  | some err ↦ (start ++ notify ∷ stop.0, some err)
  | none ↦ (start ++ notify ∷ (stop.0 ++ exit ∷ []), none)
]

module _ {C : Type 0} where
  -- `NewJobsScheduler`
  pub new_jobs_scheduler : JobsScheduler C
  new_jobs_scheduler = record { calls = []; jobs = [] }

  -- `s.jobs[id]`
  unfoldable pub find : String → List (String × Job C) → Option (Job C)
  find id [] = none
  find id ((k, j) ∷ m) = let rest = find id m in if k == id then some j else rest

  -- `s.jobs[id] = job`
  pub insert : String → Job C → List (String × Job C) → List (String × Job C)
  insert id job [] = (id, job) ∷ []
  insert id job ((k, j) ∷ m) =
      let rest = insert id job m in if k == id then (k, job) ∷ m else (k, j) ∷ rest

  -- What `AddJob` hands to `Do`.
  pub registration : String → Job C → C → Registration C
  registration expr job ctx = record {
    cron = expr;
    name = job.id;
    tag = job.id;
    singleton = true;
    job = job;
    ctx = ctx;
  }

  -- The function that gocron runs: the error that it panics with. `wrap` is `Wrapf` of
  -- github.com/pkg/errors.
  pub hook : (Error → String → Error) → ℕ → Registration C → Option Error
  hook wrap moment r = elim (r.job.run moment r.ctx) [
    | none ↦ none
    | some err ↦ some (wrap err (String.◌++◌ (String.◌++◌ "job (" r.job.id) ") failed to run"))
  ]

  module _ (parse : String → Option Error)
      (on_do : List (Registration C) → Registration C → Option Error) where
    -- `AddJob` behind the two tests
    pub register : Registration C → Job C → JobsScheduler C → JobsScheduler C × Option Error
    unfolding insert
    register r job s = elim (on_do s.calls r) [
      | some err ↦ (record s { calls = s.calls ++ r ∷ [] }, some err)
      | none ↦ (record { calls = s.calls ++ r ∷ []; jobs = insert job.id job s.jobs }, none)
    ]

    -- `AddJob`
    pub add_job : C → String → Job C → JobsScheduler C → JobsScheduler C × Option Error
    unfolding find registration register
    add_job ctx expr job s = elim (parse expr) [
      | some err ↦ (s, some err)
      | none ↦
          if is_some (find job.id s.jobs)
          then (s, some (already_added job.id))
          else register (registration expr job ctx) job s
    ]

    -- a sequence of calls
    pub add_jobs : List (C × String × Job C) → JobsScheduler C → JobsScheduler C
    unfolding add_job
    add_jobs [] s = s
    add_jobs ((ctx, expr, job) ∷ more) s = add_jobs more (add_job ctx expr job s).0
