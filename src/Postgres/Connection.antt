-- ===== src/Postgres/Connection.antt =====
-- postgres/postgres.go and postgres/config.go: the connection to the database.
-- Texts are lists of code points. What the driver, database/sql and sqlscan answer is a parameter;
-- `wrap` is `Wrap` of github.com/pkg/errors. Spans are left out.
pub mod Settings
pub mod Samples
pub mod Laws
mod Tests
use gopack.Prelude.{
  ℕ, ◌≡◌, Bool, true, false, not, String, List, [], ◌∷◌, ◌++◌, Option, none, some, Error, is_some,
  ℤ, pos, negsuc, if◌then◌else◌,
}
use gopack.Std.Strings.{codes}
use gopack.Std.Strconv.{int_codes}

-- `Config`
pub record Config : Type 0 where
  pub db_host : List ℕ
  pub db_port : ℤ
  pub db_name : List ℕ
  pub db_user : List ℕ
  pub db_password : List ℕ
  pub db_schema : List ℕ
  pub max_open_connections : ℤ
  pub max_idle_connections : ℤ
  pub connection_max_lifetime : ℤ

-- An open sql.DB by its settings; `D` is what `sql.Open` returns.
pub record Db (D : Type 0) : Type 0 where
  pub handle : D
  pub max_open : ℤ
  pub max_idle : ℤ
  pub max_lifetime : ℤ

-- `postgres`
pub record Postgres (D : Type 0) : Type 0 where
  pub conn_str : List ℕ
  pub db_connection : Option (Db D)
  pub config : Config

pub data Open (D : Type 0) : Type 0 where
  opened : D → Open D
  open_failed : Error → Open D

-- What the calls of `Connect` answer: the name of the registered driver or an error, the handle for
-- a driver and a connection string, and the error of a ping.
pub data Register : Type 0 where
  registered : String → Register
  register_failed : Error → Register

pub record Driver (D : Type 0) : Type 0 where
  pub register : Register
  pub open_db : String → List ℕ → Open D
  pub ping : D → Option Error

-- The result of a method that calls the handle: it panics when the handle is nil.
pub data Answer (R : Type 0) : Type 0 where
  answered : R → Answer R
  nil_pointer : Answer R

abbrev pub is_empty : List ℕ → Bool
is_empty [] = true
is_empty (_ ∷ _) = false

-- `fmt.Sprintf(" <key>=%s", value)`
abbrev pub setting : String → List ℕ → List ℕ
setting key value = codes key ++ b'=' ∷ value

-- `createConnectionString`
pub create_connection_string : List ℕ → ℤ → List ℕ → List ℕ → List ℕ → List ℕ → List ℕ
create_connection_string host port name user password schema =
    let info =
      setting "host" host
      ++ b' '
        ∷ (setting "port" (int_codes port)
            ++ b' '
              ∷ (setting "user" user
                  ++ b' '
                    ∷ (setting "dbname" name ++ b' ' ∷ setting "sslmode" (codes "disable")))) in
    let with_password =
      if not (is_empty password) then info ++ b' ' ∷ setting "password" password else info in
    if not (is_empty schema)
    then with_password ++ b' ' ∷ setting "search_path" schema
    else with_password

module _ {D : Type 0} where
  unfoldable pub new : Config → Postgres D
  unfolding create_connection_string
  new config = record {
    conn_str =
        create_connection_string config.db_host config.db_port config.db_name config.db_user
          config.db_password config.db_schema;
    db_connection = none;
    config = config;
  }

  module _ (wrap : Error → String → Error) where
    -- `Connect` behind `sql.Open`
    pub connect_opened : Driver D → D → Postgres D → Postgres D × Option Error
    connect_opened driver db p = elim (driver.ping db) [
      | some err ↦ (p, some (wrap err "failed to ping database connection"))
      | none ↦ (
        record p {
          db_connection = some (record {
            handle = db;
            max_open = p.config.max_open_connections;
            max_idle = p.config.max_idle_connections;
            max_lifetime = p.config.connection_max_lifetime;
          });
        },
        none,
      )
    ]

    -- `Connect`
    pub connect : Driver D → Postgres D → Postgres D × Option Error
    unfolding connect_opened
    connect driver p = elim driver.register [
      | register_failed err ↦
          (p, some (wrap err "failed to hook the tracer to the database driver"))
      | registered name ↦ elim (driver.open_db name p.conn_str) [
        | open_failed err ↦ (p, some (wrap err "failed to open connection"))
        | opened db ↦ connect_opened driver db p
      ]
    ]

  -- `Exec` and `BeginTx`: `call` is the method of the handle
  unfoldable pub exec : {R : Type 0} → (D → R) → Postgres D → Answer R
  exec call p = elim p.db_connection [ none ↦ nil_pointer | some db ↦ answered (call db.handle) ]

  pub begin_tx : {R : Type 0} → (D → R) → Postgres D → Answer R
  begin_tx call p = elim p.db_connection [
    | none ↦ nil_pointer
    | some db ↦ answered (call db.handle)
  ]

  -- `Disconnect`
  pub disconnect : (D → Option Error) → Postgres D → Option Error
  disconnect close p = elim p.db_connection [ none ↦ none | some db ↦ close db.handle ]

-- `SelectAll` and `Select`: `scanned` is what sqlscan returns, and `is_no_rows` is
-- `errors.Is(err, sql.ErrNoRows)`.
module _ (is_no_rows : Error → Bool) where
  pub select_all : Option Error → Option Error
  select_all none = none
  select_all (some err) = if is_no_rows err then none else some err

  unfoldable pub select : Option Error → Option Error
  select none = none
  select (some err) = if is_no_rows err then none else some err
