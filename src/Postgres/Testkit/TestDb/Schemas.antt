-- ===== src/Postgres/Testkit/TestDb/Schemas.antt =====
-- The schemas of a test database (postgres/testkit.go).
use gopack.Prelude.{
  ℕ, ◌≡◌, Bool, true, false, not, ◌&&◌, ◌||◌, List, [], ◌∷◌, ◌++◌, if◌then◌else◌, Option, none,
  some, Error,
}
use gopack.Std.Strings.{codes}
use gopack.Postgres.Connection.{Postgres, Answer, answered, nil_pointer}
use gopack.Postgres.Testkit.TestDb.{Scanned, row, scan_failed, same, create_schema, drop_schema}

abbrev pub holds : List ℕ → List (List ℕ) → Bool
holds n [] = false
holds n (m ∷ ms) = same n m || holds n ms

-- what a query for the name of a schema answers, by whether the schema is there
pub data Found (n : List ℕ) (f : Error → Bool) : Bool → Scanned (List ℕ) → Type 0 where
  there : Found n f true (row n)
  missing : (e : Error) → f e ≡ true → Found n f false (scan_failed e)
  failing : (b : Bool) (e : Error) → f e ≡ false → Found n f b (scan_failed e)

-- A database by its schemas, and by what PostgreSQL says of the three statements. `is_name` says which names need no quotes and no folding of case.
pub record Database (D : Type 0) : Type 1 where
  pub State : Type 0
  pub run : D → List ℕ → State → State × Option Error
  pub fetch : D → List ℕ → State → Scanned (List ℕ)
  pub is_no_rows : Error → Bool
  pub schemas : State → List (List ℕ)
  pub is_name : List ℕ → Bool
  pub name-filled : is_name [] ≡ false
  -- A statement that fails changes nothing, for whatever reason it fails.
  pub create-failed :
      (d : D) (n m : List ℕ) (s : State) (e : Error)
      → (run d (codes "CREATE SCHEMA " ++ n) s).1 ≡ some e
      → holds m (schemas (run d (codes "CREATE SCHEMA " ++ n) s).0) ≡ holds m (schemas s)
  pub created :
      (d : D) (n m : List ℕ) (s : State)
      → is_name n ≡ true
      → (run d (codes "CREATE SCHEMA " ++ n) s).1 ≡ none
      → (holds n (schemas s) ≡ false)
        × (holds m (schemas (run d (codes "CREATE SCHEMA " ++ n) s).0)
            ≡ (same m n || holds m (schemas s)))
  pub drop-failed :
      (d : D) (n m : List ℕ) (s : State) (e : Error)
      → (run d (codes "DROP SCHEMA IF EXISTS " ++ n ++ codes " CASCADE;") s).1 ≡ some e
      → holds m (schemas (run d (codes "DROP SCHEMA IF EXISTS " ++ n ++ codes " CASCADE;") s).0)
        ≡ holds m (schemas s)
  pub dropped :
      (d : D) (n m : List ℕ) (s : State)
      → is_name n ≡ true
      → (run d (codes "DROP SCHEMA IF EXISTS " ++ n ++ codes " CASCADE;") s).1 ≡ none
      → holds m (schemas (run d (codes "DROP SCHEMA IF EXISTS " ++ n ++ codes " CASCADE;") s).0)
        ≡ (not (same m n) && holds m (schemas s))
  -- A query for one row finds the name, or no row, or fails.
  pub found :
      (d : D) (n : List ℕ) (s : State)
      → is_name n ≡ true
      → Found n is_no_rows (holds n (schemas s)) (
          fetch d
            (codes "SELECT schema_name FROM information_schema.schemata WHERE schema_name = '"
              ++ n
              ++ codes "';")
            s)

pub data Op : Type 0 where
  creates drops : List ℕ → Op

-- whether the schema `m` is there behind the operations, if it was there before them or not
abbrev pub replay : List ℕ → List Op → Bool → Bool
replay m [] b = b
replay m (creates n ∷ ops) b = replay m ops (same m n || b)
replay m (drops n ∷ ops) b = replay m ops (not (same m n) && b)

module _ {D : Type 0} (database : Database D) where
  open database use {State, run, fetch, is_no_rows, schemas, is_name}

  abbrev pub Named : Op → Type 0
  Named (creates n) = is_name n ≡ true
  Named (drops n) = is_name n ≡ true

  -- the state that a call leaves, and whether it returned no error; a panic leaves the state
  abbrev pub left : State → Answer (State × Option Error) → State
  left s nil_pointer = s
  left s (answered (t, e)) = t

  abbrev pub went_well : {X : Type 0} → Answer (X × Option Error) → Bool
  went_well nil_pointer = false
  went_well (answered (t, none)) = true
  went_well (answered (t, some e)) = false

  pub call : Postgres D → Op → State → Answer (State × Option Error)
  unfolding create_schema drop_schema
  call p (creates n) s = create_schema run p n s
  call p (drops n) s = drop_schema run p n s

  pub apply : Postgres D → List Op → State → State
  unfolding call
  apply p [] s = s
  apply p (op ∷ ops) s = apply p ops (left s (call p op s))

  -- the operations that returned no error
  pub done : Postgres D → List Op → State → List Op
  unfolding call
  done p [] s = []
  done p (op ∷ ops) s =
      let rest = done p ops (left s (call p op s)) in
      if went_well (call p op s) then op ∷ rest else rest
