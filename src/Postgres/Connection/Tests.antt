-- ===== src/Postgres/Connection/Tests.antt =====
-- A connection string and a connection, and the laws at concrete ones.
use gopack.Prelude.{
  ℕ, ◌+◌, ◌≡◌, refl, String, [], ◌∷◌, none, some, Error, message, wrapped, arith, pos, true,
}
use gopack.Std.Strings.{codes}
use gopack.Std.Strconv.{int_codes}
use gopack.Postgres.Connection.{
  Config, Postgres, Driver, registered, opened, new, connect, select, exec, nil_pointer,
}
use gopack.Postgres.Connection.Settings.{read-new}
use gopack.Postgres.Connection.Samples.{plain_reader}
use gopack.Postgres.Connection.Laws.{Connects, connect-Connects}

abbrev config : Config
config = record {
  db_host = codes "localhost";
  db_port = pos 5432;
  db_name = codes "accounts";
  db_user = codes "app";
  db_password = [];
  db_schema = codes "public";
  max_open_connections = pos 4;
  max_idle_connections = pos 2;
  connection_max_lifetime = pos 60;
}

abbrev store : Postgres ℕ
unfolding new
store = new config

read-new_example :
    plain_reader.read (new {D = ℕ} config).conn_str
    ≡ some (
        (codes "host", codes "localhost")
        ∷ (codes "port", int_codes (pos 5432))
        ∷ (codes "user", codes "app")
        ∷ (codes "dbname", codes "accounts")
        ∷ (codes "sslmode", codes "disable")
        ∷ (codes "search_path", codes "public")
        ∷ [])
read-new_example =
    read-new plain_reader ℕ config
      (ground arith, ground arith, ground arith, ground arith, ground arith)

-- a driver that gives the handle 7
abbrev driver : Driver ℕ
driver = record {
  register = registered "otel-postgres";
  open_db = λ name s. opened 7;
  ping = λ d. none;
}

abbrev wrap : Error → String → Error
wrap e s = wrapped s e

connect-Connects_example : Connects wrap driver (λ d. d + 1) store (connect wrap driver store)
connect-Connects_example = connect-Connects wrap driver (λ d. d + 1) store

unconnected : exec (λ d. d) store ≡ nil_pointer
unfolding exec store
unconnected = refl

no_rows_is_no_error : select (λ e. true) (some (message "no rows")) ≡ none
unfolding select
no_rows_is_no_error = refl
