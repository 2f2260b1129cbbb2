-- ===== src/Otel/Testkit.antt =====
-- otel/testkit/: a collector of metrics for tests, with its service, storage and listener.
-- `M` is the type of metrics, `D` that of gRPC metadata. A method that holds the lock is one
-- function; the delay of the service only makes it wait.
pub mod Laws
mod Tests
use Prim.Native.String
use gopack.Std.Strconv.{int_text}
use gopack.Prelude.{
  ℤ, ℕ, zero, suc, ◌+◌, Bool, true, false, String, List, [], ◌∷◌, ◌++◌, Option, none, some, Error,
  message, ltb, length, get_elem?, if◌then◌else◌,
}

-- `GetResourceMetrics` of a request: for each resource its scopes, and for each scope its metrics.
abbrev pub Request : Type 0 → Type 0
Request M = List (List (List M))

pub record MetricService (M D : Type 0) : Type 0 where
  pub requests : ℕ
  pub errors : List (Option Error)
  pub headers : Option D
  pub storage : List M

-- `C` is a buffered channel: whether its one place is taken, and whether it is closed.
pub record Listener : Type 0 where
  pub close_once : Bool
  pub signal : Bool
  pub closed : Bool

-- What `Accept` of the wrapped listener returns: a connection, the error of a closed connection, or
-- another error.
pub data Accepted : Type 0 where
  conn closed_conn failed : Accepted

-- How `Accept` ends: it returns what the wrapped listener gave, or it panics.
pub data Accept : Type 0 where
  returns : Listener → Accepted → Accept
  panics : Accept

pub record Collector (M D : Type 0) : Type 0 where
  pub metric_svc : MetricService M D
  pub endpoint : String
  pub ln : Option Listener
  pub stop_func : Bool
  pub stop_once : Bool
  pub stop_calls : ℕ  -- the calls of `stopFunc`

pub data Start (M D : Type 0) : Type 0 where
  started : Collector M D → Start M D
  refused : Error → Start M D

abbrev pub err_already_stopped : Error
err_already_stopped = message "already stopped"

abbrev pub flat : {A : Type 0} → Option (Option A) → Option A
flat none = none
flat (some a) = a

-- `NewListener`
pub new_listener : Listener
new_listener = record { close_once = false; signal = false; closed = false }

-- `close(l.C)`, at most once
pub close_channel : Listener → Listener
close_channel l = if l.close_once then l else record l { close_once = true; closed = true }

-- `(*Listener).Accept`; a send on a closed channel panics
pub accept : Accepted → Listener → Accept
unfolding close_channel
accept failed l = returns l failed
accept closed_conn l = returns (close_channel l) closed_conn
accept conn l = if l.closed then panics else returns (record l { signal = true }) conn

-- `WaitForConn`: the listener when it returns, or none where it goes on to wait
pub wait_for_conn : Listener → Option Listener
wait_for_conn l =
    if l.signal then some (record l { signal = false }) else if l.closed then some l else none

-- `AddMetrics`
pub add_metrics : {M : Type 0} → Request M → List M → List M
add_metrics [] metrics = metrics
add_metrics ([] ∷ rms) metrics = add_metrics rms metrics
add_metrics ((scope ∷ _) ∷ rms) metrics = add_metrics rms (metrics ++ scope)

module _ {M D : Type 0} where
  -- `Export`; `incoming` is what `FromIncomingContext` returns
  pub export : Option D → Request M → MetricService M D → MetricService M D × Option Error
  unfolding add_metrics
  export incoming exp s =
      if ltb s.requests (length s.errors)
      then (record s { requests = s.requests + 1 }, flat (get_elem? s.errors s.requests))
      else (
        record s {
          requests = s.requests + 1;
          headers = incoming;
          storage = add_metrics exp s.storage;
        },
        none,
      )

  -- a sequence of requests, with what the service answers
  pub exports :
      List (Option D × Request M) → MetricService M D → MetricService M D × List (Option Error)
  unfolding export
  exports [] s = (s, [])
  exports ((incoming, exp) ∷ more) s =
      let (t, err) = export incoming exp s in let (u, errs) = exports more t in (u, err ∷ errs)

  -- `NewTestCollector`
  pub new_test_collector : List (Option Error) → Collector M D
  new_test_collector errors = record {
    metric_svc = record { requests = 0; errors = errors; headers = none; storage = [] };
    endpoint = "";
    ln = none;
    stop_func = false;
    stop_once = false;
    stop_calls = 0;
  }

  pub set_end_point : String → Collector M D → Collector M D
  set_end_point endpoint c = record c { endpoint = endpoint }

  -- `SetStopFn`, with a function that is not nil
  pub set_stop_fn : Collector M D → Collector M D
  set_stop_fn c = record c { stop_func = true }

  pub set_listener : Listener → Collector M D → Collector M D
  set_listener listener c = record c { ln = some listener }

  -- `StartOtelCollectorWithConfig`; `listen` is what `net.Listen` returns: an error, or the address
  pub start_otel_collector_with_config : Option Error → String → List (Option Error) → Start M D
  unfolding new_test_collector new_listener set_listener set_end_point set_stop_fn
  start_otel_collector_with_config (some err) addr errors = refused err
  start_otel_collector_with_config none addr errors =
      started
        (set_stop_fn (set_end_point addr (set_listener new_listener (new_test_collector errors))))

  -- `StartOtelCollectorWithEndpoint`; `listen` gives an error, or the address, for an endpoint
  pub start_otel_collector_with_endpoint : (String → Option Error × String) → String → Start M D
  unfolding start_otel_collector_with_config
  start_otel_collector_with_endpoint listen endpoint =
      let (err, addr) = listen endpoint in start_otel_collector_with_config err addr []

  -- `StartOtelCollector`; `port` is what `dynaport.Get` gives
  pub start_otel_collector : (String → Option Error × String) → ℤ → Start M D
  unfolding start_otel_collector_with_endpoint
  start_otel_collector listen port =
      start_otel_collector_with_endpoint listen (String.◌++◌ "localhost:" (int_text port))

  -- `GetMetrics`
  pub get_metrics : Collector M D → List M
  get_metrics c = c.metric_svc.storage

  -- `(*collector).stop`
  pub stop : Collector M D → Collector M D × Option Error
  stop c = if c.stop_once then (c, some err_already_stopped) else (
    record c {
      stop_once = true;
      stop_calls = if c.stop_func then c.stop_calls + 1 else c.stop_calls;
    },
    none,
  )

  -- `n` calls of `Stop`
  pub stops : ℕ → Collector M D → Collector M D × List (Option Error)
  unfolding stop
  stops zero c = (c, [])
  stops (suc n) c = let (d, err) = stop c in let (e, errs) = stops n d in (e, err ∷ errs)
