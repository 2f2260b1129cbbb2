-- ===== src/Postgres/TxRunner/Tests.antt =====
-- Runs of a transaction runner, and the laws at concrete runners.
use gopack.Prelude.{
  List, ◌++◌, ℕ, ◌≡◌, ◌≢◌, ◌⊎◌, map, refl, true, false, String, [], ◌∷◌, none, some, Error, message,
  wrapped, if◌then◌else◌,
}
use text.Mathlib.Text.{◌==◌}
use gopack.Postgres.TxRunner.{
  Query, exec, rollback, commit, Database, Tx, query, broken, TxRunner, build_queries, began,
  new_tx_runner, runner, add_query_builder, sql_tx, exec_context, commit_tx, execute,
}
use gopack.Postgres.TxRunner.Atomicity.{view, published}
use gopack.Postgres.TxRunner.Contract.{all_of}
use gopack.Postgres.TxRunner.Cancellation.{
  Event, quiet, cancelled, swept, Watched, watched_tx, others_see, execute-cancelled,
}
use gopack.Postgres.TxRunner.Laws.{IsAtomic, execute-IsAtomic}

abbrev wrap : Error → String → Error
wrap e s = wrapped s e

abbrev text_of : Error → String
text_of (message s) = s
text_of e = "error"

abbrev plain : String → Query ℕ
plain s = record { statement = s; args = [] }

-- a database that refuses the statement "bad" and cannot roll back
abbrev db : Database ℕ
db = record {
  on_exec = λ calls q. if q.statement == "bad" then some (message "refused") else none;
  on_rollback = λ calls. some (message "lost");
  on_commit = λ calls. none;
}

abbrev opened : Tx ℕ
opened = record { ended = false; calls = [] }

abbrev good : TxRunner ℕ (Tx ℕ)
good = record { tx = opened; builders = query (plain "a") ∷ query (plain "b") ∷ [] }

abbrev bad : TxRunner ℕ (Tx ℕ)
bad = record {
  tx = opened;
  builders = query (plain "a") ∷ query (plain "bad") ∷ query (plain "c") ∷ [];
}

abbrev unbuilt : TxRunner ℕ (Tx ℕ)
unbuilt = record { tx = opened; builders = query (plain "a") ∷ broken (message "no sql") ∷ [] }

abbrev over : TxRunner ℕ (Tx ℕ)
over = record good { tx = record { ended = true; calls = [] } }

starts_empty :
    new_tx_runner {A = ℕ} (λ level. began opened) ≡ runner (record { tx = opened; builders = [] })
unfolding new_tx_runner
starts_empty = refl

adds_in_order :
    add_query_builder
      (query (plain "b"))
      (add_query_builder (query (plain "a")) (record { tx = opened; builders = [] }))
    ≡ good
unfolding add_query_builder
adds_in_order = refl

commits :
    (execute (sql_tx db) wrap text_of good).0.tx.calls
    ≡ exec (plain "a") ∷ exec (plain "b") ∷ commit ∷ []
unfolding execute build_queries exec_context commit_tx
commits = refl

execute-IsAtomic_example : IsAtomic db wrap text_of bad (execute (sql_tx db) wrap text_of bad)
execute-IsAtomic_example = execute-IsAtomic db wrap text_of bad refl

-- The state is the statements that were run.
abbrev record_of : Query ℕ → List String → List String
record_of q s = s ++ q.statement ∷ []

-- The context is cancelled before the second query, and the package has rolled back by the time that
-- the runner does.
abbrev late : List Event
late = quiet ∷ cancelled ∷ swept ∷ []

execute-cancelled_example :
    let w : Watched ℕ = record { tx = opened; done = false; events = late } in
    let r : TxRunner ℕ (Watched ℕ) = record { tx = w; builders = good.builders } in
    let (after, err) = execute (watched_tx db (message "canceled")) wrap text_of r in
    ((qs : List (Query ℕ)) × (err ≡ none)
      × (good.builders ≡ map query qs)
      × (others_see db (message "canceled") record_of ("z" ∷ []) after.tx
          ≡ all_of record_of qs ("z" ∷ [])))
    ⊎ ((err ≢ none) × (others_see db (message "canceled") record_of ("z" ∷ []) after.tx ≡ "z" ∷ []))
execute-cancelled_example =
    execute-cancelled db (message "canceled") record_of ("z" ∷ []) wrap text_of good.builders late

rolled_back :
    published db record_of
      ("z" ∷ [])
      (record { ended = true; calls = exec (plain "a") ∷ rollback ∷ [] })
    ≡ "z" ∷ []
unfolding view
rolled_back = refl
