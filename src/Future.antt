-- ===== src/Future.antt =====
-- future/future.go: a future, the goroutine that completes it, and one of its listeners.
-- A schedule is a list of actions: those of the worker goroutine (`waitTimeout`, `wait`), of a caller
-- that makes the future and asks for its result, and of the environment, which sends on the task's
-- channel, closes it, lets the timer fire or cancels the context. `step` makes one action, or
-- returns `none` where it would block. Callers change nothing; Listeners has any
-- number of them.
pub mod Invariant
pub mod Laws
pub mod Refinement
pub mod Sources
pub mod Listeners
mod Tests
use gopack.Prelude.{
  ℕ, zero, suc, Bool, true, false, List, [], ◌∷◌, ◌++◌, Option, none, some, Error, if◌then◌else◌,
  eqb,
}

-- A nil message is `none`, and so is a nil failure.
pub record Result (A : Type 0) : Type 0 where
  pub success : Option A
  pub failure : Option Error

-- `lock` is held for one action at a time; `wg` is the counter of the wait group.
pub record Future (A : Type 0) : Type 0 where
  pub triggered : Bool
  pub result : Option (Result A)
  pub wg : ℕ

-- The channel of the task: what was sent and not received, and whether it is closed.
pub record Task (A : Type 0) : Type 0 where
  pub sent : List (Option A)
  pub closed : Bool

-- What ends the wait: a timer, with the error of the timeout, or a context.
pub data Limit : Type 0 where
  timer : Error → Limit
  context : Limit

-- The worker: before its `wg.Done()`, at its `select`, in `setResult` with its arguments, at the
-- `wg.Done()` there, at its end, or in a panic for a negative counter.
pub data Worker (A : Type 0) : Type 0 where
  starting selecting : Worker A
  setting : Option A → Option Error → Worker A
  releasing finished crashed : Worker A

-- The caller: in `New`, before a call of `Result`, behind the test of `triggered` there, at the
-- `f.wg.Wait()`, and with what `Result` returned, a nil pointer being `none`.
pub data Caller (A : Type 0) : Type 0 where
  constructing idle reading waiting : Caller A
  returned : Option (Result A) → Caller A

pub record System (A : Type 0) : Type 0 where
  pub future : Future A
  pub starts : ℕ  -- the counter of the wait group that `New` waits for
  pub limit : Limit
  pub task : Task A
  pub expired : Option Error
  pub worker : Worker A
  pub caller : Caller A

pub data Action (A : Type 0) : Type 0 where
  begin receive give_up store release : Action A
  construct call read await : Action A
  send : Option A → Action A
  close fire : Action A
  cancel : Error → Action A

-- `wg.Done()`; `none` is the panic for a negative counter
pub done : ℕ → Option ℕ
done zero = none
done (suc n) = some n

module _ {A : Type 0} where
  -- `New` and `NewWithContext`, up to their `wg.Wait()`
  unfoldable pub new : Limit → Task A → System A
  new limit task = record {
    future = record { triggered = false; result = none; wg = 1 };
    starts = 1;
    limit = limit;
    task = task;
    expired = none;
    worker = starting;
    caller = constructing;
  }

  -- what `<-ch` gives: the oldest message, or nil from a closed channel
  pub next_message : Task A → Option (Option A × Task A)
  next_message t = elim t.sent [
    | [] ↦ if t.closed then some (none, t) else none
    | v ∷ vs ↦ some (v, record t { sent = vs })
  ]

  -- the first part of `setResult`, which holds the lock
  pub set_result : Option A → Option Error → Future A → Future A
  set_result s e f = record f {
    triggered = true;
    result = some (record { success = s; failure = e });
  }

  pub has_result : Future A → Bool
  has_result f = f.triggered

  begin_step : System A → Option (System A)
  unfolding done
  begin_step s = elim s.worker [
    | starting ↦ elim (done s.starts) [
      | none ↦ some (record s { worker = crashed })
      | some n ↦ some (record s { starts = n; worker = selecting })
    ]
    | _ ↦ none
  ]

  receive_step : System A → Option (System A)
  unfolding next_message
  receive_step s = elim s.worker [
    | selecting ↦ elim (next_message s.task) [
      | none ↦ none
      | some (v, task) ↦ some (record s { task = task; worker = setting v none })
    ]
    | _ ↦ none
  ]

  give_up_step : System A → Option (System A)
  give_up_step s = elim s.worker [
    | selecting ↦ elim s.expired [
      | none ↦ none
      | some e ↦ some (record s { worker = setting none (some e) })
    ]
    | _ ↦ none
  ]

  store_step : System A → Option (System A)
  unfolding set_result
  store_step s = elim s.worker [
    | setting v e ↦ some (record s { future = set_result v e s.future; worker = releasing })
    | _ ↦ none
  ]

  release_step : System A → Option (System A)
  unfolding done
  release_step s = elim s.worker [
    | releasing ↦ elim (done s.future.wg) [
      | none ↦ some (record s { worker = crashed })
      | some n ↦ some (record s { future = record (s.future) { wg = n }; worker = finished })
    ]
    | _ ↦ none
  ]

  -- `New` returns
  construct_step : System A → Option (System A)
  construct_step s = elim s.caller [
    | constructing ↦ if eqb s.starts 0 then some (record s { caller = idle }) else none
    | _ ↦ none
  ]

  -- the test at the head of `(*Future).Result`
  call_step : System A → Option (System A)
  call_step s = elim s.caller [
    | idle ↦ some (record s { caller = if s.future.triggered then reading else waiting })
    | _ ↦ none
  ]

  read_step : System A → Option (System A)
  read_step s = elim s.caller [
    | reading ↦ some (record s { caller = returned s.future.result })
    | _ ↦ none
  ]

  await_step : System A → Option (System A)
  await_step s = elim s.caller [
    | waiting ↦
        if eqb s.future.wg 0 then some (record s { caller = returned s.future.result }) else none
    | _ ↦ none
  ]

  -- The timer is made by the worker behind its `wg.Done()`.
  fire_step : System A → Option (System A)
  fire_step s = elim s.limit [
    | timer e ↦ elim s.worker [ starting ↦ none | _ ↦ some (record s { expired = some e }) ]
    | context ↦ none
  ]

  cancel_step : Error → System A → Option (System A)
  cancel_step e s = elim s.limit [
    | timer _ ↦ none
    | context ↦ elim s.expired [ none ↦ some (record s { expired = some e }) | some _ ↦ none ]
  ]

  send_step : Option A → System A → Option (System A)
  send_step v s =
      if s.task.closed
      then none
      else some (record s { task = record (s.task) { sent = s.task.sent ++ v ∷ [] } })

  close_step : System A → Option (System A)
  close_step s =
      if s.task.closed then none else some (record s { task = record (s.task) { closed = true } })

  pub step : Action A → System A → Option (System A)
  unfolding begin_step receive_step give_up_step store_step release_step construct_step call_step
      read_step await_step fire_step cancel_step send_step close_step
  step begin s = begin_step s
  step receive s = receive_step s
  step give_up s = give_up_step s
  step store s = store_step s
  step release s = release_step s
  step construct s = construct_step s
  step call s = call_step s
  step read s = read_step s
  step await s = await_step s
  step fire s = fire_step s
  step (cancel e) s = cancel_step e s
  step (send v) s = send_step v s
  step close s = close_step s

  -- a schedule; an action that would block ends it
  pub run : List (Action A) → System A → Option (System A)
  run [] s = some s
  run (a ∷ as') s = elim (step a s) [ none ↦ none | some t ↦ run as' t ]
