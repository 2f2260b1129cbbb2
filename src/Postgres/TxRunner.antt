-- ===== src/Postgres/TxRunner.antt =====
-- postgres/tx_runner.go, over the transactions of database/sql.
-- A transaction is its calls so far and whether it has ended; each call that the database gets is
-- added to them. The database is a parameter that answers each call by the calls before it, as an
-- error or none. A runner works on what calls of a transaction it is given: `sql_tx` are those of a
-- context that is not cancelled, Cancellation has those of one that may be.
pub mod Runs
pub mod Laws
pub mod Contract
pub mod Atomicity
pub mod Cancellation
mod Tests
use gopack.Prelude.{
  Bool, true, false, String, List, [], ◌∷◌, ◌++◌, Option, none, some, Error, message, if◌then◌else◌,
}

pub record Query (A : Type 0) : Type 0 where
  pub statement : String
  pub args : List A

pub data Call (A : Type 0) : Type 0 where
  exec : Query A → Call A
  rollback commit : Call A

-- The answers of the database. A connection gives `begin` as the result of starting a transaction
-- at an isolation level.
pub record Database (A : Type 0) : Type 0 where
  pub on_exec : List (Call A) → Query A → Option Error
  pub on_rollback : List (Call A) → Option Error
  pub on_commit : List (Call A) → Option Error

pub record Tx (A : Type 0) : Type 0 where
  pub ended : Bool
  pub calls : List (Call A)

-- sql.ErrTxDone
abbrev pub err_tx_done : Error
err_tx_done = message "sql: transaction has already been committed or rolled back"

-- What `BuildQuery` of a builder returns.
pub data QueryBuilder (A : Type 0) : Type 0 where
  query : Query A → QueryBuilder A
  broken : Error → QueryBuilder A

pub data Isolation : Type 0 where
  level_default level_read_committed level_serializable : Isolation

pub data BeginResult (T : Type 0) : Type 0 where
  began : T → BeginResult T
  refused : Error → BeginResult T

-- what a runner calls of its transaction, when `T` is the type of transactions
pub record TxOps (A T : Type 0) : Type 0 where
  pub exec_context : Query A → T → T × Option Error
  pub roll_back : T → T × Option Error
  pub commit_tx : T → T × Option Error

pub record TxRunner (A T : Type 0) : Type 0 where
  pub tx : T
  pub builders : List (QueryBuilder A)

pub data NewResult (A T : Type 0) : Type 0 where
  runner : TxRunner A T → NewResult A T
  failed : Error → NewResult A T

pub data Queries (A : Type 0) : Type 0 where
  built : List (Query A) → Queries A
  unbuilt : Error → Queries A

module _ {A : Type 0} where
  -- `NewTxRunner`; `begin_tx` is `db.BeginTx`
  pub new_tx_runner : {T : Type 0} → (Isolation → BeginResult T) → NewResult A T
  new_tx_runner begin_tx = elim (begin_tx level_read_committed) [
    | refused err ↦ failed err
    | began tx ↦ runner (record { tx = tx; builders = [] })
  ]

  pub add_query_builder : {T : Type 0} → QueryBuilder A → TxRunner A T → TxRunner A T
  add_query_builder v r = record r { builders = r.builders ++ v ∷ [] }

  -- the first loop of `Execute`
  pub build_queries : List (QueryBuilder A) → List (Query A) → Queries A
  build_queries [] queries = built queries
  build_queries (query q ∷ bs) queries = build_queries bs (queries ++ q ∷ [])
  build_queries (broken err ∷ bs) queries = unbuilt err

  module _ (db : Database A) where
    -- `(*sql.Tx).ExecContext`, `Rollback` and `Commit`
    pub exec_context : Query A → Tx A → Tx A × Option Error
    exec_context q tx =
        if tx.ended
        then (tx, some err_tx_done)
        else (record tx { calls = tx.calls ++ exec q ∷ [] }, db.on_exec tx.calls q)

    pub roll_back : Tx A → Tx A × Option Error
    roll_back tx =
        if tx.ended
        then (tx, some err_tx_done)
        else (record { ended = true; calls = tx.calls ++ rollback ∷ [] }, db.on_rollback tx.calls)

    pub commit_tx : Tx A → Tx A × Option Error
    commit_tx tx =
        if tx.ended
        then (tx, some err_tx_done)
        else (record { ended = true; calls = tx.calls ++ commit ∷ [] }, db.on_commit tx.calls)

    -- the transactions of database/sql
    abbrev pub sql_tx : TxOps A (Tx A)
    sql_tx = record { exec_context = exec_context; roll_back = roll_back; commit_tx = commit_tx }

  -- `wrap` is `Wrap` of github.com/pkg/errors, and `text` is `Error()` of an error.
  module _ {T : Type 0} (ops : TxOps A T) (wrap : Error → String → Error)
      (text : Error → String) where
    abbrev pub wrapped_by : Error → Option Error → Error
    wrapped_by err none = err
    wrapped_by err (some rollback_err) = wrap err (text rollback_err)

    -- the branch of either loop that rolls back
    pub fail_with : Error → T → T × Option Error
    fail_with err tx =
        let (tx', rollback_err) = ops.roll_back tx in (tx', some (wrapped_by err rollback_err))

    -- the second loop of `Execute`, and the commit behind it
    pub run_queries : List (Query A) → T → T × Option Error
    unfolding fail_with
    run_queries [] tx = ops.commit_tx tx
    run_queries (q ∷ qs) tx = elim (ops.exec_context q tx).1 [
      | none ↦ run_queries qs (ops.exec_context q tx).0
      | some exec_err ↦ fail_with exec_err (ops.exec_context q tx).0
    ]

    pub execute_on : Queries A → T → T × Option Error
    execute_on (unbuilt err) tx = fail_with err tx
    execute_on (built queries) tx = run_queries queries tx

    -- `Execute`
    pub execute : TxRunner A T → TxRunner A T × Option Error
    unfolding execute_on run_queries
    execute r =
        let (tx, err) = execute_on (build_queries r.builders []) r.tx in (record r { tx = tx }, err)
