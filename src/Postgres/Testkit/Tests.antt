-- ===== src/Postgres/Testkit/Tests.antt =====
-- A container, and a database that knows one schema.
use gopack.Prelude.{
  eqb, if◌then◌else◌, ℕ, ◌≡◌, refl, sym, subst, Bool, true, false, not, ◌&&◌, ◌||◌, List, [], ◌∷◌,
  ◌++◌, Option, none, some, Error, message, pos, arith, if◌then◌else◌,
}
use gopack.Std.Strings.{codes}
use gopack.Std.Strconv.{decimal}
use gopack.Postgres.Connection.{Postgres}
use gopack.Postgres.Connection.Samples.{plain_reader}
use gopack.Postgres.Testkit.{attempt, Docker, started, made, new_test_container, get_test_db}
use gopack.Postgres.Testkit.Laws.{container, address, get_test_db-new_test_container}
use gopack.Postgres.Testkit.TestDb.{Scanned, row, scan_failed, same}
use gopack.Postgres.Testkit.TestDb.Schemas.{holds, Found, there, missing, Database}

abbrev name : List ℕ
name = b'a' ∷ []

abbrev no_rows : Error
no_rows = message "no rows"

abbrev create_sql : List ℕ → List ℕ
create_sql n = codes "CREATE SCHEMA " ++ n

abbrev drop_sql : List ℕ → List ℕ
drop_sql n = codes "DROP SCHEMA IF EXISTS " ++ n ++ codes " CASCADE;"

-- `true` where the schema is there
abbrev answer : List ℕ → Bool → Bool × Option Error
answer stmt s =
    if same stmt (create_sql name)
    then (true, if s then some (message "exists") else none)
    else (if same stmt (drop_sql name) then false else s, none)

abbrev answer_row : Bool → Scanned (List ℕ)
answer_row s = elim s [ true ↦ row name | false ↦ scan_failed no_rows ]

abbrev kept : Bool → List (List ℕ)
kept s = if s then name ∷ [] else []

same_sound : (s t : List ℕ) → same s t ≡ true → s ≡ t
unfolding same
same_sound [] [] h = refl
same_sound (c ∷ s) (d ∷ t) h = ground (arith, same_sound s t)
same_sound [] (d ∷ t) h = absurd (ground arith)
same_sound (c ∷ s) [] h = absurd (ground arith)

abbrev IsName : List ℕ → Type 0
IsName n = same n name ≡ true

-- a law of the one name
for_name : (P : List ℕ → Type 0) (n : List ℕ) → IsName n → P name → P n
for_name P n h = subst P (sym (same_sound n name h))

error_keeps :
    (m stmt : List ℕ) (s : Bool) (e : Error)
    → (answer stmt s).1 ≡ some e
    → holds m (kept (answer stmt s).0) ≡ holds m (kept s)
error_keeps m stmt s e h = ground arith

there_when_created :
    (n m : List ℕ) (s : Bool)
    → IsName n
    → (answer (create_sql n) s).1 ≡ none
    → (holds n (kept s) ≡ false)
      × (holds m (kept (answer (create_sql n) s).0) ≡ (same m n || holds m (kept s)))
unfolding same
there_when_created n m s h =
    for_name
      (λ n.
        (answer (create_sql n) s).1 ≡ none
        → (holds n (kept s) ≡ false)
          × (holds m (kept (answer (create_sql n) s).0) ≡ (same m n || holds m (kept s))))
      n h (λ e. ground arith)

gone_when_dropped :
    (n m : List ℕ) (s : Bool)
    → IsName n
    → (answer (drop_sql n) s).1 ≡ none
    → holds m (kept (answer (drop_sql n) s).0) ≡ (not (same m n) && holds m (kept s))
unfolding same
gone_when_dropped n m s h =
    for_name
      (λ n.
        (answer (drop_sql n) s).1 ≡ none
        → holds m (kept (answer (drop_sql n) s).0) ≡ (not (same m n) && holds m (kept s)))
      n h (λ e. ground arith)

found_row :
    (n : List ℕ) (s : Bool) → IsName n → Found n (λ e. true) (holds n (kept s)) (answer_row s)
unfolding same
found_row n true h =
    for_name (λ n. Found n (λ e. true) (holds n (kept true)) (answer_row true)) n h there
found_row n false h = missing no_rows refl

not_a_name : same [] name ≡ false
unfolding same
not_a_name = refl

abbrev small : Database ℕ
small = record {
  State = Bool;
  run = λ d. answer;
  fetch = λ d stmt. answer_row;
  is_no_rows = λ e. true;
  schemas = kept;
  is_name = λ n. same n name;
  name-filled = not_a_name;
  create-failed = λ d n m s e. error_keeps m (create_sql n) s e;
  created = λ d. there_when_created;
  drop-failed = λ d n m s e. error_keeps m (drop_sql n) s e;
  dropped = λ d. gone_when_dropped;
  found = λ d. found_row;
}

abbrev connected : Postgres ℕ
connected = record {
  conn_str = [];
  db_connection =
      some (record { handle = 7; max_open = pos 0; max_idle = pos 0; max_lifetime = pos 0 });
  config = record {
    db_host = [];
    db_port = pos 0;
    db_name = [];
    db_user = [];
    db_password = [];
    db_schema = [];
    max_open_connections = pos 0;
    max_idle_connections = pos 0;
    connection_max_lifetime = pos 0;
  };
}

-- docker starts the container 3
abbrev docker : Docker ℕ
docker = record {
  new_pool = none;
  run_with_options = λ o. started 3;
  get_host_port = λ r p. address (codes "localhost") 32768;
  open_db = λ url i. none;
  ping = λ url i. if eqb i 0 then some (message "starting") else none;
  retry = λ op. op 1;
  purge = λ r. none;
}

get_test_db-new_test_container_example :
    let c = container docker (codes "db") (codes "app") [] 3 (codes "localhost") 32768 in
    (new_test_container docker (codes "db") (codes "app") [] ≡ made c)
    × (plain_reader.read (get_test_db {D = ℕ} c).conn_str
        ≡ some (
            (codes "host", codes "localhost")
            ∷ (codes "port", decimal 32768)
            ∷ (codes "user", codes "app")
            ∷ (codes "dbname", codes "db")
            ∷ (codes "sslmode", codes "disable")
            ∷ (codes "search_path", codes "public")
            ∷ []))
unfolding attempt
get_test_db-new_test_container_example =
    get_test_db-new_test_container docker (codes "db") (codes "app") [] 3 (codes "localhost") 32768
      plain_reader ℕ refl refl refl refl (omega arith) (omega arith)
      (ground arith, ground arith, ground arith, ground arith)
