-- ===== src/Grpc/Testkit.antt =====
-- grpc/testkit.go: a server in the process, for tests.
-- The server of google.golang.org/grpc is known by what its documentation says of `Serve` and `Stop`:
-- `Serve` on a server that was stopped returns an error, and else it returns nil when the server is
-- stopped. `H` is the type of a service. A schedule is a list of actions: those of the test, and
-- `serv` of a goroutine that `Start` has started.
pub mod Laws
mod Tests
use gopack.Prelude.{
  ℕ, zero, suc, ◌+◌, Bool, true, false, String, List, [], ◌∷◌, ◌++◌, Option, none, some,
  if◌then◌else◌,
}
use gopack.Grpc.ServerBuilder.{Interceptor, ServerOption, chain_stream, chain_unary, creds}

-- `InProcessServerBuilder`
pub record InProcessServerBuilder : Type 0 where
  pub options : List ServerOption

pub new_in_process_server_builder : InProcessServerBuilder
new_in_process_server_builder = record { options = [] }

pub with_option : ServerOption → InProcessServerBuilder → InProcessServerBuilder
with_option o sb = record { options = sb.options ++ o ∷ [] }

pub with_stream_interceptors : List Interceptor → InProcessServerBuilder → InProcessServerBuilder
unfolding with_option
with_stream_interceptors interceptors sb = with_option (chain_stream interceptors) sb

pub with_unary_interceptors : List Interceptor → InProcessServerBuilder → InProcessServerBuilder
unfolding with_option
with_unary_interceptors interceptors sb = with_option (chain_unary interceptors) sb

pub with_tls_cert : ℕ → InProcessServerBuilder → InProcessServerBuilder
unfolding with_option
with_tls_cert cert sb = with_option (creds cert) sb

-- `TestClientConn`: `dial` is `grpc.DialContext`, `dialer` the option with the dialer of the listener,
-- and `insecure` that without TLS
pub test_client_conn :
    {Dial Conn : Type 0} → (String → List Dial → Conn) → Dial → Dial → List Dial → Conn
test_client_conn dial dialer insecure options =
    let dial_options = options ++ dialer ∷ [] in dial "bufconn" (dial_options ++ insecure ∷ [])

pub data Phase : Type 0 where
  ready serving stopped : Phase

-- `testServer`, with the options of its gRPC server and what was registered; `pending` goroutines
-- are on the way to `Serve`, and `exited` is set by `log.Fatalf`
pub record TestServer (H : Type 0) : Type 0 where
  pub options : List ServerOption
  pub registered : List H
  pub phase : Phase
  pub listener_closed : Bool
  pub pending : ℕ
  pub exited : Bool

pub data Action (H : Type 0) : Type 0 where
  start serv cleanup : Action H
  register : H → Action H

module _ {H : Type 0} where
  -- `TestServer`
  pub test_server : List ServerOption → TestServer H
  test_server options = record {
    options = options;
    registered = [];
    phase = ready;
    listener_closed = false;
    pending = 0;
    exited = false;
  }

  -- `Build`
  pub build : InProcessServerBuilder → TestServer H
  unfolding test_server
  build sb = test_server sb.options

  -- `Start`: `go s.serv()`, and nil
  pub start_server : TestServer H → TestServer H
  start_server s = record s { pending = s.pending + 1 }

  pub register_service : H → TestServer H → TestServer H
  register_service h s = record s { registered = s.registered ++ h ∷ [] }

  -- `Cleanup`
  pub clean_up : TestServer H → TestServer H
  clean_up s = record s { phase = stopped; listener_closed = true }

  -- `serv` up to where `Serve` blocks, or to its `log.Fatalf`
  pub serve : Phase → ℕ → TestServer H → TestServer H
  serve stopped n s = record s { pending = n; exited = true }
  serve _ n s = record s { pending = n; phase = serving }

  pub serv_step : TestServer H → Option (TestServer H)
  unfolding serve
  serv_step s = elim s.pending [ zero ↦ none | suc n ↦ some (serve s.phase n s) ]

  step_of : Action H → TestServer H → Option (TestServer H)
  unfolding start_server serv_step clean_up register_service
  step_of start s = some (start_server s)
  step_of serv s = serv_step s
  step_of cleanup s = some (clean_up s)
  step_of (register h) s = some (register_service h s)

  -- nothing happens in a process that has exited
  pub step : Action H → TestServer H → Option (TestServer H)
  unfolding step_of
  step a s = if s.exited then none else step_of a s

  pub run : List (Action H) → TestServer H → Option (TestServer H)
  run [] s = some s
  run (a ∷ acts) s = elim (step a s) [ none ↦ none | some t ↦ run acts t ]
