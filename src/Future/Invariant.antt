-- ===== src/Future/Invariant.antt =====
-- What holds of a future in every state that a schedule reaches.
use gopack.Prelude.{ℕ, ◌≡◌, Bool, true, false, Option, none, some, Error, arith, is_some}
use gopack.Future.{
  Result, Future, Limit, timer, context, Task, Worker, starting, setting, releasing, finished,
  crashed, Caller, reading, returned, System, Action, begin, new, step,
}

-- the counters of the two wait groups, and whether the result is set, by where the worker is
abbrev pub unstarted : {A : Type 0} → Worker A → ℕ
unstarted starting = 1
unstarted _ = 0

abbrev pub pending : {A : Type 0} → Worker A → ℕ
pending finished = 0
pending _ = 1

abbrev pub is_set : {A : Type 0} → Worker A → Bool
is_set releasing = true
is_set finished = true
is_set _ = false

-- the error of a timer; of a context any
abbrev pub Allowed : Limit → Error → Type 0
Allowed (timer e) d = d ≡ e
Allowed context d = Unit

-- No error, or no message and an error, that of the timer where there is one. `Sources` says where
-- messages and errors come from.
abbrev pub IsOutcome : {A : Type 0} → Limit → Option A → Option Error → Type 0
IsOutcome limit v none = Unit
IsOutcome limit none (some d) = Allowed limit d
IsOutcome limit (some v) (some d) = ⊥

abbrev pub WorkerOk : {A : Type 0} → Limit → Worker A → Type 0
WorkerOk limit (setting v e) = IsOutcome limit v e
WorkerOk limit crashed = ⊥
WorkerOk limit _ = Unit

abbrev pub ResultOk : {A : Type 0} → Limit → Option (Result A) → Type 0
ResultOk limit none = Unit
ResultOk limit (some r) = IsOutcome limit r.success r.failure

abbrev pub ExpiredOk : Limit → Option Error → Type 0
ExpiredOk limit none = Unit
ExpiredOk limit (some d) = Allowed limit d

-- Behind the test the result is set, and what a caller has is the result.
abbrev pub CallerOk : {A : Type 0} → Future A → Caller A → Type 0
CallerOk f reading = f.triggered ≡ true
CallerOk f (returned r) = (f.triggered ≡ true) × (r ≡ f.result)
CallerOk f _ = Unit

pub record Inv {A : Type 0} (s : System A) : Type 0 where
  pub starts : s.starts ≡ unstarted s.worker
  pub wg : s.future.wg ≡ pending s.worker
  pub triggered : s.future.triggered ≡ is_set s.worker
  pub result : is_some s.future.result ≡ is_set s.worker
  pub worker_ok : WorkerOk s.limit s.worker
  pub result_ok : ResultOk s.limit s.future.result
  pub expired_ok : ExpiredOk s.limit s.expired
  pub caller_ok : CallerOk s.future s.caller

module _ {A : Type 0} where
  pub new-Inv : (limit : Limit) (task : Task A) → Inv (new limit task)
  unfolding new
  new-Inv limit task = ground arith

  -- Every action keeps the invariant.
  pub step-Inv : (a : Action A) (s : System A) {t : System A} → Inv s → step a s ≡ some t → Inv t
  unfolding step
  step-Inv begin s h e = ground arith
  step-Inv _ s h e = ground arith
