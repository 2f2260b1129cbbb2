-- ===== src/Grpc/Testkit/Tests.antt =====
-- Schedules of a server for tests.
use gopack.Prelude.{ℕ, true, []}
use gopack.Grpc.Testkit.{stopped, TestServer}

-- the goroutine comes late
abbrev raced : TestServer ℕ
raced = record {
  options = [];
  registered = [];
  phase = stopped;
  listener_closed = true;
  pending = 0;
  exited = true;
}
