-- ===== src/Future/Tests.antt =====
-- Schedules of a future, and the laws at states that they reach.
use gopack.Prelude.{
  ℕ, ◌≡◌, refl, ◌≤◌, inl, ◌++◌, true, false, List, [], ◌∷◌, none, some, Error, message, length,
}
use gopack.Future.{
  Result, timer, context, Task, finished, selecting, returned, System, Action, begin, give_up,
  store, release, construct, call, await, send, close, fire, new, step, run, next_message,
  has_result, waiting,
}
use gopack.Future.Invariant.{Inv}
use gopack.Future.Refinement.{
  empty, taken, silent, fills, reads, observe, replay, events, run_refines,
}
use gopack.Future.Laws.{run-Inv, result_unchanged, settles, work_left, calls_left, choice}

abbrev late : Error
late = message "timeout after 1.000000 seconds"

abbrev quiet : Task ℕ
quiet = record { sent = []; closed = false }

-- The caller waits, the timer fires, and a message comes too late.
abbrev timed_out : List (Action ℕ)
timed_out = begin ∷ construct ∷ call ∷ fire ∷ give_up ∷ store ∷ send (some 7) ∷ release ∷ await ∷ []

abbrev failure : Result ℕ
failure = record { success = none; failure = some late }

abbrev after_timeout : System ℕ
after_timeout = record {
  future = record { triggered = true; result = some failure; wg = 0 };
  starts = 0;
  limit = timer late;
  task = record { sent = some 7 ∷ []; closed = false };
  expired = some late;
  worker = finished;
  caller = returned (some failure);
}

reached : run timed_out (new (timer late) quiet) ≡ some after_timeout
unfolding run new step
reached = refl

run-Inv_example : Inv after_timeout
run-Inv_example = run-Inv (timer late) quiet timed_out reached

result_unchanged_example :
    (after_timeout.future.result ≡ some failure) × (has_result after_timeout.future ≡ true)
unfolding run
result_unchanged_example =
    result_unchanged (timer late) quiet timed_out after_timeout reached [] after_timeout failure
      refl refl

-- A closed channel, before the worker looks at it.
abbrev closed_early : System ℕ
closed_early = record {
  future = record { triggered = false; result = none; wg = 1 };
  starts = 0;
  limit = context;
  task = record { sent = []; closed = true };
  expired = none;
  worker = selecting;
  caller = waiting;
}

closes : run (begin ∷ construct ∷ close ∷ call ∷ []) (new context quiet) ≡ some closed_early
unfolding run new step
closes = refl

settles_example :
    (t : System ℕ) × (r : Result ℕ) × (run
        (work_left selecting (choice closed_early) ++ calls_left waiting)
        closed_early
      ≡ some t)
    × (t.worker ≡ finished)
    × (t.caller ≡ returned (some r))
    × (length (work_left {A = ℕ} selecting (choice closed_early) ++ calls_left {A = ℕ} waiting) ≤ 7)
unfolding next_message
settles_example =
    settles context quiet (begin ∷ construct ∷ close ∷ call ∷ []) closed_early closes (inl refl)

-- The timeout is what the cell is filled with, and what the reader gets.
visible :
    replay (silent ∷ silent ∷ fills failure ∷ silent ∷ reads ∷ []) empty ≡ some (taken failure)
unfolding replay observe
visible = refl

run_refines_example :
    (replay (events timed_out (new (timer late) quiet)) empty ≡ some (taken failure))
    × (has_result after_timeout.future ≡ true)
run_refines_example = run_refines (timer late) quiet timed_out after_timeout reached
