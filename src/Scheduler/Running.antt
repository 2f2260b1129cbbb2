-- ===== src/Scheduler/Running.antt =====
-- The process in which a scheduler runs its jobs (scheduler/scheduler.go): `Start`, `Stop` and
-- `AddJob` in any order, call by call, and gocron, which runs the function of a call of `Do`.
-- gocron is a parameter: `may_run` says by what was called so far whether it can run the function
-- of a call of `Do` now, and `name_of` is the name that it gives the panic handler. A function that
-- panics ends the process, but that gocron recovers it when a panic handler is set.
pub mod Laws
mod Tests
use gopack.Prelude.{
  ℕ, ◌≡◌, Bool, true, false, String, List, [], ◌∷◌, ◌++◌, Option, none, some, Error, get_elem?,
  if◌then◌else◌, is_some,
}
use Prim.Native.String
use gopack.Scheduler.{
  Job, Registration, JobsScheduler, Effect, set_panic_handler, start_async, start, stop,
  new_jobs_scheduler, hook, add_job,
}

pub record Process (C : Type 0) : Type 0 where
  pub scheduler : JobsScheduler C
  -- the calls of gocron, those of `Do` apart
  pub effects : List Effect
  -- what calls of `Start` and `Stop` have still to call
  pub pending : List Effect
  pub printed : List String
  pub panic : Option Error

pub data Action (C : Type 0) : Type 0 where
  starts stops : Action C
  -- the next of the calls that `Start` and `Stop` make
  proceeds : Action C
  adds : C → String → Job C → Action C
  -- gocron runs the function of a call of `Do` at a moment
  runs : ℕ → ℕ → Action C

pub handled : List Effect → Bool
handled [] = false
handled (set_panic_handler ∷ es) = true
handled (_ ∷ es) = handled es

pub started : List Effect → Bool
started [] = false
started (start_async ∷ es) = true
started (_ ∷ es) = started es

-- what the panic handler prints
pub panic_in : String → String
panic_in name = String.◌++◌ "Panic in job: " name

module _ {C : Type 0} where
  pub new_process : Process C
  new_process = record {
    scheduler = new_jobs_scheduler;
    effects = [];
    pending = [];
    printed = [];
    panic = none;
  }

  pub with_pending : List Effect → Process C → Process C
  with_pending es p = record p { pending = p.pending ++ es }

  -- the first of the calls that are pending
  pub proceed : List Effect → Process C → Option (Process C)
  proceed [] p = none
  proceed (e ∷ es) p = some (record p { effects = p.effects ++ e ∷ []; pending = es })

  module _ (parse : String → Option Error)
      (on_do : List (Registration C) → Registration C → Option Error)
      (wrap : Error → String → Error) (may_run : List Effect → List (Registration C) → ℕ → Bool)
      (name_of : Registration C → String) where
    -- the function of `Do` panics
    pub fails : Error → Registration C → Process C → Process C
    unfolding handled panic_in
    fails e r p =
        if handled p.effects
        then record p { printed = p.printed ++ panic_in (name_of r) ∷ [] }
        else record p { panic = some e }

    pub run_step : ℕ → ℕ → Process C → Option (Process C)
    unfolding fails hook
    run_step i moment p = elim (get_elem? p.scheduler.calls i) [
      | none ↦ none
      | some r ↦
          if may_run p.effects p.scheduler.calls i
          then elim (hook wrap moment r) [ none ↦ some p | some e ↦ some (fails e r p) ]
          else none
    ]

    -- A process that has panicked makes no further step.
    pub step : Action C → Process C → Option (Process C)
    unfolding start stop with_pending proceed add_job run_step
    step starts p = if is_some p.panic then none else some (with_pending start p)
    step stops p = if is_some p.panic then none else some (with_pending stop.0 p)
    step proceeds p = if is_some p.panic then none else proceed p.pending p
    step (adds ctx expr job) p =
        if is_some p.panic
        then none
        else some (record p { scheduler = (add_job parse on_do ctx expr job p.scheduler).0 })
    step (runs i moment) p = if is_some p.panic then none else run_step i moment p

    pub run : List (Action C) → Process C → Option (Process C)
    unfolding step
    run [] p = some p
    run (a ∷ more) p = elim (step a p) [ none ↦ none | some q ↦ run more q ]
