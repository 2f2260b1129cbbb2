-- ===== src/Lib.antt =====
-- The gopack toolkit: a library of Go packages for services.
--
-- The packages are largely independent. `grpc` builds servers and clients: its request id
-- interceptors use `requestid`, as the loggers of `log` do, and the server's shutdown reports through
-- `errorschain`; its providers are those of `otel`. `postgres` reads and writes, `future` waits for a result,
-- `validation` checks input, `scheduler` keeps jobs, `llm` asks a language model, `log` writes
-- lines.
--
-- Files and code
--   Prelude, Prelude/...           shared tests, lists, errors and integers. An error is a value, by
--                                  its text; `Multierr` is what the code relies on of
--                                  go.uber.org/multierr
--   Std, Std/...                   the functions of Go's standard library that the code calls:
--                                  strings.TrimSpace, strconv.Atoi, net.SplitHostPort, over lists of
--                                  code points, with laws for the texts that the theorems are about
--   Errorschain                    errorschain/errorschain.go
--   Validation                     validation/; Validation/TcpAddress and Validation/Accepted are
--                                  about tcp_address.go, Validation/Nested about chains of chains
--   Future                         future/future.go; Future/Invariant is what holds in every state,
--                                  Future/Refinement the cell that a future refines,
--                                  Future/Listeners any number of listeners,
--                                  Future/Sources what the result is made of
--   Postgres/TxRunner              postgres/tx_runner.go; Postgres/TxRunner/Contract is what a
--                                  runner asks of a transaction, Postgres/TxRunner/Atomicity and
--                                  Postgres/TxRunner/Cancellation show it of the transactions of
--                                  database/sql
--   Postgres/Connection            postgres/postgres.go, postgres/config.go
--   Postgres/Testkit               postgres/testkit.go; Postgres/Testkit/TestDb is the database
--   Requestid                      requestid/request_id.go
--   Grpc/RequestIdInterceptors     grpc/request_id_interceptors.go
--   Grpc/Interceptors              grpc/recovery_interceptors.go, grpc/metric_interceptors.go,
--                                  grpc/trace_interceptors.go, and chains of interceptors;
--                                  Grpc/Interceptors/EndToEnd joins a client and a server
--   Grpc/Server                    grpc/server.go; Grpc/Server/Running is a process with its
--                                  goroutines, Grpc/Server/Tracing puts it together with the
--                                  builder and the trace provider
--   Grpc/ServerBuilder             grpc/server_builder.go, grpc/config.go
--   Grpc/RateLimiter               grpc/ratelimiter.go
--   Grpc/Client                    grpc/client.go
--   Grpc/Testkit                   grpc/testkit.go
--   Scheduler                      scheduler/scheduler.go; Scheduler/Running is the process in which
--                                  gocron runs the jobs, with its panic handler
--   Otel/HttpHandler               otel/trace/http_handler.go
--   Otel/Provider                  otel/trace/provider.go, otel/metric/provider.go,
--                                  otel/trace/span_context.go
--   Otel/Testkit                   otel/testkit/
--   Llm/ToolBox                    llm/toolbox.go
--   Llm/Openai                     llm/openai/openai.go, message.go and util.go; Llm/Openai/Tokens is
--                                  tokensCount, Llm/Openai/Api is NewAPI with llm/openai/config.go
--                                  and llm/openai/option.go, Llm/Openai/Calls the queries
--                                  of what it makes
--   Log, Log/Logger, Log/Zapl      log/level.go, log/logger.go, log/zapl/log.go; Log/Zapl/Default has
--                                  the functions of the package, Log/Zapl/Interface the logger
--                                  as one of the interface
--
-- A component's file has its definitions. Below it, `Tests` has runs at concrete values, and the other
-- modules have the theorems. `Samples` has concrete values for what the models take as parameters.
--
-- Bounds and fuel: loops over slices are recursions on lists, and a schedule of goroutines is a list
-- of actions. `count` of Llm/Openai/Tokens runs on fuel 2, since the call that tokensCount makes of
-- itself makes none, `decimal` of Std/Strconv on fuel n + 1 for the digits of n, and `validate_at` of
-- Validation/Nested on as much as there are chains, or on more than the
-- length of the longest way through them. Numbers are
-- unbounded but where the code sees the width: strconv.Atoi refuses what does not fit an int64.
--
-- What stands outside the repository is a parameter: multierr, Wrap of github.com/pkg/errors, the
-- ids that google/uuid makes, contexts and gRPC metadata, the match of a regular expression, the
-- answers of a database, the way its driver reads a connection string, the transport of a gRPC call,
-- the answers of a network and of the OpenTelemetry providers, the parser of cron
-- expressions and gocron, the limiter of golang.org/x/time, zap, docker, the gRPC middlewares, and the
-- OpenAI client with its tokenizer and backoff.
--
-- Not modelled: spans and their attributes but for the status of a response, the
-- encoding of a line of the log, the encoding of an image, and what the gRPC server, the providers,
-- docker and the drivers do inside. test/data is generated.
mod Samples
pub mod Prelude
pub mod Errorschain
pub mod Std
pub mod Validation
pub mod Future
pub mod Postgres
pub mod Requestid
pub mod Grpc
pub mod Scheduler
pub mod Otel
pub mod Llm
pub mod Log
