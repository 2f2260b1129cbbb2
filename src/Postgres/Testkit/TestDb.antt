-- ===== src/Postgres/Testkit/TestDb.antt =====
-- postgres/testkit.go: what `TestDB` asks the database.
-- `run` is what the handle answers to a statement without rows, in a state of the database, and
-- `fetch` what sqlscan answers to a query for one row; `is_no_rows` is `errors.Is(err, sql.ErrNoRows)`.
pub mod Schemas
use gopack.Prelude.{
  ℕ, ◌≡◌, Bool, true, false, ◌&&◌, List, [], ◌∷◌, ◌++◌, String, Option, none, some, Error, ℤ, pos,
  negsuc, eqb, if◌then◌else◌,
}
use gopack.Std.Strings.{codes}
use gopack.Postgres.Connection.{Postgres, Answer, answered, nil_pointer, exec, select}

pub data Scanned (V : Type 0) : Type 0 where
  row : V → Scanned V
  scan_failed : Error → Scanned V

-- `==` of strings
unfoldable pub same : List ℕ → List ℕ → Bool
same [] [] = true
same (c ∷ s) (d ∷ t) = let rest = same s t in eqb c d && rest
same _ _ = false

pub drop_table_stmt : List ℕ → List ℕ
drop_table_stmt table_name = codes "DROP TABLE IF EXISTS " ++ table_name ++ codes " CASCADE;"

pub table_exists_stmt : List ℕ → List ℕ
table_exists_stmt table_name = codes "SELECT to_regclass('" ++ table_name ++ codes "');"

pub count_stmt : List ℕ → List ℕ
count_stmt table_name = codes "SELECT COUNT(*) FROM " ++ table_name

pub create_schema_stmt : List ℕ → List ℕ
create_schema_stmt schema_name = codes "CREATE SCHEMA " ++ schema_name

pub schema_exists_stmt : List ℕ → List ℕ
schema_exists_stmt schema_name =
    codes "SELECT schema_name FROM information_schema.schemata WHERE schema_name = '"
    ++ schema_name
    ++ codes "';"

pub drop_schema_stmt : List ℕ → List ℕ
drop_schema_stmt schema_name = codes "DROP SCHEMA IF EXISTS " ++ schema_name ++ codes " CASCADE;"

-- `TableExists` behind its `Exec`
pub table_found : {S : Type 0} → (Error → Bool) → S × Option Error → S × Option Error
table_found is_no_rows (s, none) = (s, none)
table_found is_no_rows (s, some err) = if is_no_rows err then (s, none) else (s, some err)

module _ {D S : Type 0} (run : D → List ℕ → S → S × Option Error) where
  -- `DropTable`
  pub drop_table : Postgres D → List ℕ → S → Answer (S × Option Error)
  unfolding drop_table_stmt
  drop_table p table_name s = exec (λ d. run d (drop_table_stmt table_name) s) p

  -- `CreateSchema`
  pub create_schema : Postgres D → List ℕ → S → Answer (S × Option Error)
  unfolding create_schema_stmt
  create_schema p schema_name s = exec (λ d. run d (create_schema_stmt schema_name) s) p

  -- `DropSchema`
  pub drop_schema : Postgres D → List ℕ → S → Answer (S × Option Error)
  unfolding drop_schema_stmt
  drop_schema p schema_name s = exec (λ d. run d (drop_schema_stmt schema_name) s) p

  module _ (is_no_rows : Error → Bool) where
    -- `TableExists`
    pub table_exists : Postgres D → List ℕ → S → Answer (S × Option Error)
    unfolding table_exists_stmt table_found
    table_exists p table_name s = elim (exec (λ d. run d (table_exists_stmt table_name) s) p) [
      | nil_pointer ↦ nil_pointer
      | answered r ↦ answered (table_found is_no_rows r)
    ]

-- `Select` into a variable that holds `v`: its value behind the call, and the error
pub select_into : {V : Type 0} → (Error → Bool) → V → Scanned V → V × Option Error
select_into is_no_rows v (row w) = (w, none)
select_into is_no_rows v (scan_failed err) = (v, select is_no_rows (some err))

-- `Count` and `SchemaExists` behind their `Select`
pub counted : ℤ × Option Error → ℤ × Option Error
counted (n, none) = (n, none)
counted (n, some err) = (negsuc 0, some err)

pub schema_found : List ℕ → List ℕ × Option Error → Bool × Option Error
schema_found schema_name (check, some err) = (false, some err)
schema_found schema_name (check, none) =
    if same check schema_name then (true, none) else (false, none)

module _ {D S : Type 0} (is_no_rows : Error → Bool) where
  -- `Count`
  pub count : (D → List ℕ → S → Scanned ℤ) → Postgres D → List ℕ → S → Answer (ℤ × Option Error)
  unfolding counted select_into count_stmt
  count fetch p table_name s = elim p.db_connection [
    | none ↦ nil_pointer
    | some db ↦
        answered
          (counted (select_into is_no_rows (pos 0) (fetch db.handle (count_stmt table_name) s)))
  ]

  -- `SchemaExists`
  pub schema_exists :
      (D → List ℕ → S → Scanned (List ℕ)) → Postgres D → List ℕ → S → Answer (Bool × Option Error)
  unfolding schema_found select_into schema_exists_stmt
  schema_exists fetch p schema_name s = elim p.db_connection [
    | none ↦ nil_pointer
    | some db ↦ answered (
        schema_found schema_name
          (select_into is_no_rows [] (fetch db.handle (schema_exists_stmt schema_name) s)))
  ]
