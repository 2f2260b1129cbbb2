-- ===== src/Future/Listeners/Tests.antt =====
-- Two listeners of one future (future/future.go).
use gopack.Prelude.{true, false, ◌≡◌, refl, List, [], ◌∷◌, Option, none, some, ℕ}
use gopack.Future.{
  Result, context, idle, finished, returned, begin, construct, call, read, await, send, receive,
  store, release, new, step,
}
use gopack.Future.Sources.{Comes}
use gopack.Future.Listeners.Sources.{IsMessage, IsFailure, listeners_agree-Comes}
use gopack.Future.Listeners.{Shared, Deed, of_system, listen, of_listener, deed_step, deeds, shared}

-- Two listeners, one before the result and one behind it.
abbrev two_listeners : List (Deed ℕ)
two_listeners =
    of_system begin
    ∷ of_system construct
    ∷ listen
    ∷ listen
    ∷ of_listener 0 call
    ∷ of_system (send (some 5))
    ∷ of_system receive
    ∷ of_system store
    ∷ of_listener 1 call
    ∷ of_listener 1 read
    ∷ of_system release
    ∷ of_listener 0 await
    ∷ []

abbrev five : Result ℕ
five = record { success = some 5; failure = none }

abbrev listened : Shared ℕ
listened = record {
  system = record {
    future = record { triggered = true; result = some five; wg = 0 };
    starts = 0;
    limit = context;
    task = record { sent = []; closed = false };
    expired = none;
    worker = finished;
    caller = idle;
  };
  listeners = returned (some five) ∷ returned (some five) ∷ [];
}

reached_listened :
    deeds two_listeners (shared context (record { sent = []; closed = false })) ≡ some listened
unfolding deeds deed_step step new
reached_listened = refl

listeners_agree-Comes_example :
    (x : Result ℕ) × (◌≡◌ {A = Option (Result ℕ)} (some five) (some x))
    × (◌≡◌ {A = Option (Result ℕ)} (some five) (some x))
    × (listened.system.future.result ≡ some x)
    × Comes
        (IsMessage context (record { sent = []; closed = false }) two_listeners)
        (IsFailure context (record { sent = []; closed = false }) two_listeners)
        x.success
        x.failure
listeners_agree-Comes_example =
    listeners_agree-Comes context (record { sent = []; closed = false }) two_listeners listened 0 1
      (some five) (some five) reached_listened refl refl
