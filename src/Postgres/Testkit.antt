-- ===== src/Postgres/Testkit.antt =====
-- postgres/testkit.go: a container for tests, and the helpers over its database.
-- Docker and the database are the parameters `Docker` and `Database`, by what they answer. Texts are
-- lists of code points; `sslmode` and the other parts of a URL or a statement are as in the code.
pub mod TestDb
pub mod Laws
mod Tests
use gopack.Prelude.{
  ℕ, ◌≡◌, Bool, true, false, ◌&&◌, List, [], ◌∷◌, ◌++◌, map, String, Option, none, some, Error, ℤ,
  pos, negsuc, eqb, if◌then◌else◌,
}
use gopack.Std.Strings.{codes}
use gopack.Std.Strconv.{Parsed, number, malformed, num_error, atoi}
use gopack.Std.Net.{HostPort, parts, refused, addr_error, split_host_port}
use gopack.Postgres.Connection.{Config, Postgres, Answer, answered, nil_pointer, new, exec, select}

-- `splitHostAndPort`
pub split_host_and_port : List ℕ → List ℕ × ℤ × Option Error
split_host_and_port host_and_port = elim (split_host_port host_and_port) [
  | refused err ↦ ([], negsuc 0, some (addr_error err))
  | parts host port ↦ elim (atoi port) [
    | malformed err ↦ ([], negsuc 0, some (num_error err))
    | number port_value ↦ (host, port_value, none)
  ]
]

-- `TestContainer`; `R` is the type of the resources of the pool
pub record TestContainer (R : Type 0) : Type 0 where
  pub host : List ℕ
  pub port : ℤ
  pub schema : List ℕ
  pub resource : R
  pub db_user : List ℕ
  pub db_name : List ℕ
  pub db_pass : List ℕ

-- `dockertest.RunOptions`
pub record RunOptions : Type 0 where
  pub repository : List ℕ
  pub tag : List ℕ
  pub env : List (List ℕ)
  pub cmd : List (List ℕ)

pub data Started (R : Type 0) : Type 0 where
  started : R → Started R
  start_failed : Error → Started R

-- What docker answers: to `NewPool`, `RunWithOptions`, `GetHostPort` and `Purge`; what `sql.Open` and
-- a ping say of a URL at an attempt; and what `Retry` makes of the attempts.
pub record Docker (R : Type 0) : Type 0 where
  pub new_pool : Option Error
  pub run_with_options : RunOptions → Started R
  pub get_host_port : R → List ℕ → List ℕ
  pub open_db : List ℕ → ℕ → Option Error
  pub ping : List ℕ → ℕ → Option Error
  pub retry : (ℕ → Option Error) → Option Error
  pub purge : R → Option Error

-- `log.Fatalf` ends the process, with a text and an error.
pub data Setup (A : Type 0) : Type 0 where
  made : A → Setup A
  fatal : String → Error → Setup A

abbrev pub run_options : List ℕ → List ℕ → List ℕ → RunOptions
run_options db_name db_user db_password = record {
  repository = codes "postgres";
  tag = codes "11";
  env =
      (codes "POSTGRES_PASSWORD=" ++ db_password)
      ∷ (codes "POSTGRES_USER=" ++ db_user)
      ∷ (codes "POSTGRES_DB=" ++ db_name)
      ∷ codes "listen_addresses = '*'"
      ∷ [];
  cmd = map codes (
      "postgres" ∷ "-c" ∷ "log_statement=all" ∷ "-c" ∷ "log_connections=on" ∷ "-c"
      ∷ "log_disconnections=on" ∷ []);
}

abbrev pub database_url : List ℕ → List ℕ → List ℕ → List ℕ → List ℕ
database_url db_name db_user db_password host_and_port =
    codes "postgres://"
    ++ db_user
    ++ b':'
      ∷ (db_password ++ b'@' ∷ (host_and_port ++ b'/' ∷ (db_name ++ codes "?sslmode=disable")))

module _ {R : Type 0} where
  -- the function that is tried again and again
  pub attempt : Docker R → List ℕ → ℕ → Option Error
  attempt docker url i = elim (docker.open_db url i) [
    | some err ↦ some err
    | none ↦ docker.ping url i
  ]

  -- `NewTestContainer` from the host and port on
  pub connect_container : Docker R → List ℕ → List ℕ → List ℕ → R → List ℕ → Setup (TestContainer R)
  unfolding split_host_and_port attempt
  connect_container docker db_name db_user db_password resource host_and_port =
      elim (docker.retry
        (attempt docker (database_url db_name db_user db_password host_and_port))) [
          | some err ↦ fatal "Could not connect to docker" err
          | none ↦
              let (host, port, failed) = split_host_and_port host_and_port in
              elim failed [
                | some err ↦ fatal "Unable to get database host and port" err
                | none ↦ made (record {
                  host = host;
                  port = port;
                  schema = codes "public";
                  resource = resource;
                  db_user = db_user;
                  db_name = db_name;
                  db_pass = db_password;
                })
              ]
        ]

  -- `NewTestContainer`
  pub new_test_container : Docker R → List ℕ → List ℕ → List ℕ → Setup (TestContainer R)
  unfolding connect_container
  new_test_container docker db_name db_user db_password = elim docker.new_pool [
    | some err ↦ fatal "Could not connect to docker" err
    | none ↦ elim (docker.run_with_options (run_options db_name db_user db_password)) [
      | start_failed err ↦ fatal "Could not start resource" err
      | started resource ↦
          connect_container docker db_name db_user db_password resource
            (docker.get_host_port resource (codes "5432/tcp"))
    ]
  ]

  -- the configuration that `GetTestDB` makes
  abbrev pub config_of : TestContainer R → Config
  config_of c = record {
    db_host = c.host;
    db_port = c.port;
    db_name = c.db_name;
    db_user = c.db_user;
    db_password = c.db_pass;
    db_schema = c.schema;
    max_open_connections = pos 0;
    max_idle_connections = pos 0;
    connection_max_lifetime = pos 0;
  }

  -- `GetTestDB`
  pub get_test_db : {D : Type 0} → TestContainer R → Postgres D
  unfolding new
  get_test_db c = new (config_of c)

  -- `Cleanup`
  pub cleanup : Docker R → TestContainer R → Setup Unit
  cleanup docker c = elim (docker.purge c.resource) [
    | some err ↦ fatal "Could not purge resource" err
    | none ↦ made tt
  ]
