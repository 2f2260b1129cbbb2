-- ===== src/Postgres/TxRunner/Laws.antt =====
-- Atomicity of `Execute` (postgres/tx_runner.go).
use mathlib.Core.List.{map-append}
use gopack.Prelude.{
  ◌≡◌, refl, ◌≢◌, sym, ap, ◌∙◌, true, false, String, List, [], ◌∷◌, ◌++◌, map, append_assoc,
  append-nil, Option, none, some, Error, arith, inl, inr, ◌⊎◌,
}
use gopack.Postgres.TxRunner.{
  Query, Call, exec, rollback, commit, Database, Tx, QueryBuilder, query, broken, TxRunner, Queries,
  built, unbuilt, build_queries, exec_context, roll_back, commit_tx, fail_with, run_queries,
  execute_on, execute, wrapped_by, sql_tx,
}
use gopack.Postgres.TxRunner.Runs.{
  build_queries-query, build_queries-broken, built_inv, AllPass, run_queries-pass, run_queries-fail,
  Failure, first-Failure,
}

module _ {A : Type 0} where
  module _ (db : Database A) (wrap : Error → String → Error) (text : Error → String) where
    on_built :
        (r : TxRunner A (Tx A)) (qs : List (Query A))
        → r.tx.ended ≡ false
        → build_queries r.builders [] ≡ built qs
        → execute (sql_tx db) wrap text r ≡ (
            let (tx, err) =
              run_queries (sql_tx db) wrap text qs (record { ended = false; calls = r.tx.calls }) in
            (record r { tx = tx }, err))
    unfolding execute execute_on
    on_built r qs opened made = rw made (
        ap
          (λ b.
            let (tx, err) =
              run_queries (sql_tx db) wrap text qs (record { ended = b; calls = r.tx.calls }) in
            (record { tx = tx; builders = r.builders }, err))
          opened)

    on_unbuilt :
        (r : TxRunner A (Tx A)) (e : Error)
        → r.tx.ended ≡ false
        → build_queries r.builders [] ≡ unbuilt e
        → execute (sql_tx db) wrap text r ≡ (
          record r { tx = record { ended = true; calls = r.tx.calls ++ rollback ∷ [] } },
          some (wrapped_by (sql_tx db) wrap text e (db.on_rollback r.tx.calls)),
        )
    unfolding execute execute_on fail_with roll_back
    on_unbuilt r e opened broke = rw broke (ground arith)

    -- How `Execute` ends a transaction: it has run the queries `ran`, and then rolled back and
    -- returned an error, or committed every query of the builders and returned the commit's result.
    abbrev pub IsAtomic : TxRunner A (Tx A) → TxRunner A (Tx A) × Option Error → Type 0
    IsAtomic r run =
        (run.0.tx.ended ≡ true)
        × ((ran : List (Query A)) × (last : Call A) × (run.0.tx.calls
              ≡ (r.tx.calls ++ map exec ran) ++ last ∷ [])
            × (((last ≡ rollback) × (run.1 ≢ none))
                ⊎ ((last ≡ commit)
                    × (r.builders ≡ map query ran)
                    × (run.1 ≡ db.on_commit (r.tx.calls ++ map exec ran)))))

    IsAtomic-built :
        (r : TxRunner A (Tx A)) (qs : List (Query A))
        → r.builders ≡ map query qs
        → AllPass db wrap text r.tx.calls qs ⊎ Failure db wrap text r.tx.calls qs
        → IsAtomic r (
            let (tx, err) =
              run_queries (sql_tx db) wrap text qs (record { ended = false; calls = r.tx.calls }) in
            (record r { tx = tx }, err))
    IsAtomic-built r qs all (inl pass) =
        rw (run_queries-pass db wrap text r.tx.calls qs pass)
          (refl, (qs, commit, refl, inr (refl, all, refl)))
    IsAtomic-built r qs all (inr (pre, q, post, e, split, before, failed)) =
        rw (split, run_queries-fail db wrap text r.tx.calls pre q post e before failed)
          (
            refl,
            (
              pre ++ q ∷ [],
              rollback,
              ap (λ t. t ++ rollback ∷ [])
                  (append_assoc r.tx.calls (map exec pre) (exec q ∷ [])
                    ∙ ap (λ t. r.tx.calls ++ t) (sym (map-append exec pre (q ∷ [])))),
              inl (refl, λ n. cc),
            ),
          )

    IsAtomic-of :
        (r : TxRunner A (Tx A))
        → r.tx.ended ≡ false
        → (b : Queries A) → build_queries r.builders [] ≡ b
        → IsAtomic r (execute (sql_tx db) wrap text r)
    IsAtomic-of r opened (built qs) made =
        let (ran, all, same) = built_inv r.builders [] qs made in
        rw (on_built r qs opened made)
          (IsAtomic-built r qs (rw same all) (first-Failure db wrap text r.tx.calls qs))
    IsAtomic-of r opened (unbuilt e) broke = rw (on_unbuilt r e opened broke) (
      refl,
      (
        [],
        rollback,
        ap (λ t. t ++ rollback ∷ []) (sym (append-nil r.tx.calls)),
        inl (refl, λ n. cc),
      ),
    )

    -- `Execute` on an open transaction ends it, and ends it once, with its last call: by a rollback,
    -- and then it returns an error, or by a commit, and then every builder's query was run in the
    -- order of the builders and it returns what the commit returned.
    pub execute-IsAtomic :
        (r : TxRunner A (Tx A)) → r.tx.ended ≡ false → IsAtomic r (execute (sql_tx db) wrap text r)
    execute-IsAtomic r opened = IsAtomic-of r opened (build_queries r.builders []) refl

    -- When every builder makes its query and none of the queries fails, `Execute` runs them in the
    -- order of the builders, commits, and returns what the commit returned.
    pub execute_commits :
        (r : TxRunner A (Tx A)) (qs : List (Query A))
        → r.tx.ended ≡ false
        → r.builders ≡ map query qs
        → AllPass db wrap text r.tx.calls qs
        → let ran = r.tx.calls ++ map exec qs in
          let (after, err) = execute (sql_tx db) wrap text r in
          (after.tx.calls ≡ ran ++ commit ∷ []) × (err ≡ db.on_commit ran)
    execute_commits r qs opened made pass =
        rw
          (
            on_built r qs opened (rw made (build_queries-query qs [])),
            run_queries-pass db wrap text r.tx.calls qs pass,
          )
          (refl, refl)

    -- When one query is the first to fail, the queries behind it are not run, the transaction is
    -- rolled back, and the error of the query is returned, wrapped by that of the rollback if it
    -- failed too.
    pub execute_rolls_back :
        (r : TxRunner A (Tx A)) (pre : List (Query A)) (q : Query A) (post : List (Query A))
        (e : Error)
        → r.tx.ended ≡ false
        → r.builders ≡ map query (pre ++ q ∷ post)
        → AllPass db wrap text r.tx.calls pre
        → db.on_exec (r.tx.calls ++ map exec pre) q ≡ some e
        → let ran = (r.tx.calls ++ map exec pre) ++ exec q ∷ [] in
          let (after, err) = execute (sql_tx db) wrap text r in
          (after.tx.calls ≡ ran ++ rollback ∷ [])
          × (err ≡ some (wrapped_by (sql_tx db) wrap text e (db.on_rollback ran)))
    execute_rolls_back r pre q post e opened made pass fails =
        rw
          (
            on_built r (pre ++ q ∷ post) opened
                (rw made (build_queries-query (pre ++ q ∷ post) [])),
            run_queries-fail db wrap text r.tx.calls pre q post e pass fails,
          )
          (refl, refl)

    -- When a builder fails, no query is run, those of the builders before it neither: the
    -- transaction is rolled back at once.
    pub execute_broken :
        (r : TxRunner A (Tx A)) (qs : List (Query A)) (e : Error) (bs : List (QueryBuilder A))
        → r.tx.ended ≡ false
        → r.builders ≡ map query qs ++ broken e ∷ bs
        → let (after, err) = execute (sql_tx db) wrap text r in
          (after.tx.calls ≡ r.tx.calls ++ rollback ∷ [])
          × (err ≡ some (wrapped_by (sql_tx db) wrap text e (db.on_rollback r.tx.calls)))
    execute_broken r qs e bs opened made =
        rw (on_unbuilt r e opened (rw made (build_queries-broken qs [] e bs))) (refl, refl)

    again :
        (tx : Tx A)
        → tx.ended ≡ true
        → (b : Queries A)
        → ((execute_on (sql_tx db) wrap text b tx).0 ≡ tx)
          × ((execute_on (sql_tx db) wrap text b tx).1 ≢ none)
    unfolding execute_on run_queries exec_context commit_tx fail_with roll_back
    again tx over (unbuilt e) = ground arith
    again tx over (built []) = ground arith
    again tx over (built (q ∷ qs)) = ground arith

    -- A runner is used once: from an ended transaction the database gets no call any more, and an
    -- error is returned.
    pub execute_again :
        (r : TxRunner A (Tx A))
        → r.tx.ended ≡ true
        → let (after, err) = execute (sql_tx db) wrap text r in (after ≡ r) × (err ≢ none)
    unfolding execute
    execute_again r over =
        let (same, err) = again r.tx over (build_queries r.builders []) in
        (ap (λ t. record r { tx = t }) same, err)
