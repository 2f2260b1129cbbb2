-- ===== src/Postgres/TxRunner/Contract.antt =====
-- What a runner asks of a transaction, and what `Execute` then does (postgres/tx_runner.go).
-- `effect` is what a query makes of the state that its transaction sees.
use gopack.Prelude.{
  ◌≡◌, ◌≢◌, refl, sym, ap, ◌∙◌, ◌⊎◌, inl, inr, String, List, [], ◌∷◌, map, Option, none, some,
  Error, Option-cases, arith,
}
use gopack.Postgres.TxRunner.{
  Query, query, TxOps, TxRunner, Queries, built, unbuilt, build_queries, fail_with, run_queries,
  execute_on, execute,
}
use gopack.Postgres.TxRunner.Runs.{built_inv}

-- the queries, one behind the other
abbrev pub all_of : {A S : Type 0} → (Query A → S → S) → List (Query A) → S → S
all_of effect [] s = s
all_of effect (q ∷ qs) s = all_of effect qs (effect q s)

-- A transaction by what others see of the database, and what it sees itself. A query that is run
-- changes its own view only, and nothing but a commit that reports no error changes what others see.
pub record IsTransactional {A T S : Type 0} (ops : TxOps A T) (effect : Query A → S → S)
    (seen own : T → S) : Type 0 where
  pub exec_seen : (q : Query A) (t : T) → seen (ops.exec_context q t).0 ≡ seen t
  pub exec_own :
      (q : Query A) (t : T)
      → (ops.exec_context q t).1 ≡ none
      → own (ops.exec_context q t).0 ≡ effect q (own t)
  pub roll_back_seen : (t : T) → seen (ops.roll_back t).0 ≡ seen t
  pub commit_ok : (t : T) → (ops.commit_tx t).1 ≡ none → seen (ops.commit_tx t).0 ≡ own t
  pub commit_failed :
      (t : T) (e : Error) → (ops.commit_tx t).1 ≡ some e → seen (ops.commit_tx t).0 ≡ seen t

module _ {A T S : Type 0} (ops : TxOps A T) (effect : Query A → S → S) (seen own : T → S)
    (wrap : Error → String → Error) (text : Error → String) where
  -- What `Execute` makes of a transaction, with what it returned: every query of the builders is
  -- published, in order and without an error, or there is an error and nothing is.
  abbrev pub IsAllOrNothing : TxRunner A T → TxRunner A T × Option Error → Type 0
  IsAllOrNothing r run =
      ((qs : List (Query A)) × (run.1 ≡ none)
        × (r.builders ≡ map query qs)
        × (seen run.0.tx ≡ all_of effect qs (own r.tx)))
      ⊎ ((run.1 ≢ none) × (seen run.0.tx ≡ seen r.tx))

  -- the same of the queries alone
  abbrev Ends : List (Query A) → T → T × Option Error → Type 0
  Ends qs t run =
      ((run.1 ≡ none) × (seen run.0 ≡ all_of effect qs (own t)))
      ⊎ ((run.1 ≢ none) × (seen run.0 ≡ seen t))

  module _ (laws : IsTransactional ops effect seen own) where
    fail_with-seen :
        (e : Error) (t : T)
        → ((fail_with ops wrap text e t).1 ≢ none) × (seen (fail_with ops wrap text e t).0 ≡ seen t)
    unfolding fail_with
    fail_with-seen e t = ((λ n. cc), laws.roll_back_seen t)

    run_queries-passed :
        (q : Query A) (qs : List (Query A)) (t : T)
        → (ops.exec_context q t).1 ≡ none
        → run_queries ops wrap text (q ∷ qs) t
          ≡ run_queries ops wrap text qs (ops.exec_context q t).0
    unfolding run_queries
    run_queries-passed q qs t ok = ground arith

    run_queries-failed :
        (q : Query A) (qs : List (Query A)) (t : T) (e : Error)
        → (ops.exec_context q t).1 ≡ some e
        → run_queries ops wrap text (q ∷ qs) t ≡ fail_with ops wrap text e (ops.exec_context q t).0
    unfolding run_queries
    run_queries-failed q qs t e bad = ground arith

    run_queries-Ends : (qs : List (Query A)) (t : T) → Ends qs t (run_queries ops wrap text qs t)
    run_queries-Ends [] t = elim (Option-cases (ops.commit_tx t).1) [
      | inl ok ↦ unfold run_queries in inl (ok, laws.commit_ok t ok)
      | inr (e, bad) ↦ unfold run_queries in inr ((λ n. ground arith), laws.commit_failed t e bad)
    ]
    run_queries-Ends (q ∷ qs) t =
        let u = (ops.exec_context q t).0 in
        let rest = run_queries-Ends qs u in
        elim (Option-cases (ops.exec_context q t).1) [
          | inl ok ↦ rw (run_queries-passed q qs t ok) (elim rest [
            | inl (passed, all) ↦ inl (passed, all ∙ ap (all_of effect qs) (laws.exec_own q t ok))
            | inr (failed, kept) ↦ inr (failed, kept ∙ laws.exec_seen q t)
          ])
          | inr (e, bad) ↦
              rw (run_queries-failed q qs t e bad)
                (let (failed, kept) = fail_with-seen e u in inr (failed, kept ∙ laws.exec_seen q t))
        ]

    execute_on-Ends :
        (r : TxRunner A T) (b : Queries A)
        → build_queries r.builders [] ≡ b
        → let (tx, err) = execute_on ops wrap text b r.tx in
          IsAllOrNothing r (record r { tx = tx }, err)
    unfolding execute_on
    execute_on-Ends r (unbuilt e) made = inr (fail_with-seen e r.tx)
    execute_on-Ends r (built qs) made =
        let (ran, same, all) = built_inv r.builders [] qs made in
        elim (run_queries-Ends qs r.tx) [
          | inl (ok, done) ↦ inl (qs, ok, same ∙ ap (map query) (sym all), done)
          | inr failed ↦ inr failed
        ]

    -- On a transaction that keeps to these laws `Execute` publishes the effects of all queries of the
    -- builders, in their order, and returns no error, or it returns an error and publishes nothing.
    pub execute-IsAllOrNothing_of : (r : TxRunner A T) → IsAllOrNothing r (execute ops wrap text r)
    unfolding execute
    execute-IsAllOrNothing_of r = execute_on-Ends r (build_queries r.builders []) refl
