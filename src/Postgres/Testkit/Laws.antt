-- ===== src/Postgres/Testkit/Laws.antt =====
-- The address of a container for tests, and the connection to its database (postgres/testkit.go).
use gopack.Prelude.{
  ℕ, ◌≡◌, ◌≤◌, refl, List, [], ◌∷◌, ◌++◌, map, Option, none, some, Error, ℤ, pos, negsuc, arith,
}
use gopack.Std.Strings.{codes}
use gopack.Std.Strconv.{Parsed, number, malformed, num_error, atoi, decimal, int_codes, max_int64}
use gopack.Std.Strconv.Laws.{atoi-decimal, decimal-All}
use gopack.Std.Net.{HostPort, parts, refused, addr_error, split_host_port}
use gopack.Std.Net.Laws.{IsPlain, digits-IsPlain, split_host_port_of_plain}
use gopack.Std.Net.Sound.{Address, split_host_port_sound}
use gopack.Postgres.Connection.Settings
use gopack.Postgres.Connection.Settings.{ConnectionStrings, IsValue, read-new, optional}
use gopack.Postgres.Testkit.{
  split_host_and_port, TestContainer, Docker, started, made, run_options, database_url, attempt,
  connect_container, new_test_container, get_test_db, config_of,
}

-- What `splitHostAndPort` may answer to a text.
pub data Splits (host_and_port : List ℕ) : List ℕ × ℤ × Option Error → Type 0 where
  splits :
      (host port : List ℕ) (n : ℤ)
      → Address host_and_port host port
      → atoi port ≡ number n
      → Splits host_and_port (host, n, none)
  fails : (e : Error) → Splits host_and_port ([], negsuc 0, some e)

-- `splitHostAndPort` returns no error only for a text of the form `host:port` or `[host]:port` whose
-- port reads as a number, and then the host and that number; with an error it returns an empty host
-- and the port -1.
pub split_host_and_port-Splits :
    (host_and_port : List ℕ) → Splits host_and_port (split_host_and_port host_and_port)
unfolding split_host_and_port
split_host_and_port-Splits hp = go (split_host_port hp) refl
  where
    read :
        (host port : List ℕ) (p : Parsed)
        → split_host_port hp ≡ parts host port
        → atoi port ≡ p
        → Splits hp (elim p [
          | malformed err ↦ ([], negsuc 0, some (num_error err))
          | number port_value ↦ (host, port_value, none)
        ])
    read host port (number n) e f = splits host port n (split_host_port_sound hp host port e) f
    read host port (malformed err) e f = fails (num_error err)

    go :
        (r : HostPort)
        → split_host_port hp ≡ r
        → Splits hp (elim r [
          | refused err ↦ ([], negsuc 0, some (addr_error err))
          | parts host port ↦ elim (atoi port) [
            | malformed err ↦ ([], negsuc 0, some (num_error err))
            | number port_value ↦ (host, port_value, none)
          ]
        ])
    go (refused err) e = fails (addr_error err)
    go (parts host port) e = read host port (atoi port) e refl

split_host_and_port-parts :
    (hp host port : List ℕ) (z : ℤ)
    → split_host_port hp ≡ parts host port
    → atoi port ≡ number z
    → split_host_and_port hp ≡ (host, z, none)
unfolding split_host_and_port
split_host_and_port-parts hp host port z e f = ground arith

abbrev pub address : List ℕ → ℕ → List ℕ
address host n = host ++ b':' ∷ decimal n

module _ {R : Type 0} (docker : Docker R) (db_name db_user db_password : List ℕ) (r : R)
    (host : List ℕ) (n : ℕ) where
  abbrev pub container : TestContainer R
  container = record {
    host = host;
    port = pos n;
    schema = codes "public";
    resource = r;
    db_user = db_user;
    db_name = db_name;
    db_pass = db_password;
  }

  connect_container-made :
      docker.retry (attempt docker (database_url db_name db_user db_password (address host n)))
        ≡ none
      → split_host_and_port (address host n) ≡ (host, pos n, none)
      → connect_container docker db_name db_user db_password r (address host n) ≡ made container
  unfolding connect_container
  connect_container-made answers split = ground arith

  new_test_container-made :
      docker.new_pool ≡ none
      → docker.run_with_options (run_options db_name db_user db_password) ≡ started r
      → docker.get_host_port r (codes "5432/tcp") ≡ address host n
      → connect_container docker db_name db_user db_password r (address host n) ≡ made container
      → new_test_container docker db_name db_user db_password ≡ made container
  unfolding new_test_container
  new_test_container-made pool ran published connected = ground arith

  -- When docker has a pool, starts the container and publishes its port as `host:n`, for a host
  -- without colons and brackets and an `n` of an int64, and the database answers there before the
  -- retries end, `NewTestContainer` returns. Of the connection string of the database of `GetTestDB`
  -- the driver reads that host and port, the user, the database and the password of the container,
  -- if there is one, and the schema public, when these texts are plain and the first three are not
  -- empty.
  pub get_test_db-new_test_container :
      (driver : ConnectionStrings) (D : Type 0)
      → docker.new_pool ≡ none
      → docker.run_with_options (run_options db_name db_user db_password) ≡ started r
      → docker.get_host_port r (codes "5432/tcp") ≡ address host n
      → docker.retry (attempt docker (database_url db_name db_user db_password (address host n)))
        ≡ none
      → IsPlain host
      → n ≤ max_int64
      → IsValue host × IsValue db_user × IsValue db_name × Settings.IsPlain db_password
      → (new_test_container docker db_name db_user db_password ≡ made container)
        × (driver.read (get_test_db {D = D} container).conn_str
            ≡ some (
                map
                  (λ (k, v). (codes k, v))
                  ((("host", host)
                      ∷ ("port", decimal n)
                      ∷ ("user", db_user)
                      ∷ ("dbname", db_name)
                      ∷ ("sslmode", codes "disable")
                      ∷ optional "password" db_password)
                    ++ ("search_path", codes "public") ∷ [])))
  unfolding get_test_db int_codes
  get_test_db-new_test_container driver D pool ran published answers plain fits (h, u, d, p) =
      let split =
        split_host_and_port-parts (address host n) host (decimal n) (pos n)
          (split_host_port_of_plain host (decimal n) plain
            (digits-IsPlain (decimal n) (decimal-All n)))
          (atoi-decimal n fits) in
      (
        new_test_container-made pool ran published (connect_container-made answers split),
        read-new driver D (config_of container) (h, u, d, p, ground arith),
      )
