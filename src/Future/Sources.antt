-- ===== src/Future/Sources.antt =====
-- Where the result of a future comes from (future/future.go): the messages and the errors that the
-- environment gave.
use gopack.Prelude.{
  ◌≡◌, Bool, true, false, [], ◌∷◌, Option, none, some, Error, All, All-append, arith,
}
use gopack.Future.{
  Result, Limit, timer, context, Task, Worker, setting, System, Action, begin, receive, give_up,
  store, release, construct, call, read, await, send, close, fire, cancel, new, step,
}

-- `Message` holds of what the channel gives, and `Failure` of the errors of the limit.
module _ {A : Type 0} (Message : Option A → Type 0) (Failure : Error → Type 0) where
  abbrev pub Comes : Option A → Option Error → Type 0
  Comes v none = Message v
  Comes v (some e) = (v ≡ none) × Failure e

  abbrev pub LimitComes : Limit → Type 0
  LimitComes (timer e) = Failure e
  LimitComes context = Unit

  abbrev WorkerComes : Worker A → Type 0
  WorkerComes (setting v e) = Comes v e
  WorkerComes _ = Unit

  abbrev pub ResultComes : Option (Result A) → Type 0
  ResultComes none = Unit
  ResultComes (some r) = Comes r.success r.failure

  abbrev ErrorComes : Option Error → Type 0
  ErrorComes none = Unit
  ErrorComes (some e) = Failure e

  abbrev pub ClosedComes : Bool → Type 0
  ClosedComes false = Unit
  ClosedComes true = Message none

  pub record Sourced (s : System A) : Type 0 where
    pub sent : All Message s.task.sent
    pub closed : ClosedComes s.task.closed
    pub limit : LimitComes s.limit
    pub expired : ErrorComes s.expired
    pub worker : WorkerComes s.worker
    pub result : ResultComes s.future.result

  -- what an action brings
  abbrev pub Brings : Limit → Action A → Type 0
  Brings limit (send v) = Message v
  Brings limit close = Message none
  Brings context (cancel e) = Failure e
  Brings (timer _) (cancel e) = Unit
  Brings limit _ = Unit

  pub new-Sourced :
      (limit : Limit) (task : Task A)
      → LimitComes limit
      → All Message task.sent
      → ClosedComes task.closed
      → Sourced (new limit task)
  unfolding new
  new-Sourced limit task l m c = record {
    sent = m;
    closed = c;
    limit = l;
    expired = tt;
    worker = tt;
    result = tt;
  }

  pub step-Sourced :
      (a : Action A) (s t : System A) → Brings s.limit a → Sourced s → step a s ≡ some t → Sourced t
  unfolding step
  step-Sourced begin s t b h e = ground arith
  step-Sourced receive s t b h e = ground arith
  step-Sourced give_up s t b h e = ground arith
  step-Sourced store s t b h e = ground arith
  step-Sourced release s t b h e = ground arith
  step-Sourced construct s t b h e = ground arith
  step-Sourced call s t b h e = ground arith
  step-Sourced read s t b h e = ground arith
  step-Sourced await s t b h e = ground arith
  step-Sourced (send v) s t b h e =
      ground (arith, All-append Message s.task.sent (v ∷ []) h.sent (b, tt))
  step-Sourced close s t b h e = ground arith
  step-Sourced fire s t b h e = ground arith
  step-Sourced (cancel err) s t b h e = ground arith
