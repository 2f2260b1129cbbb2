-- ===== src/Postgres/TxRunner/Runs.antt =====
-- The two loops of `Execute` (postgres/tx_runner.go): what the builders make, and how queries run.
use gopack.Prelude.{
  ◌≡◌, refl, sym, ap, ◌∙◌, true, false, String, List, [], ◌∷◌, ◌++◌, map, append_assoc, append-nil,
  none, some, Error, Option-cases, inl, inr, ◌⊎◌,
}
use gopack.Postgres.TxRunner.{
  Query, Call, exec, rollback, commit, Database, QueryBuilder, query, broken, built, unbuilt,
  build_queries, exec_context, roll_back, commit_tx, fail_with, run_queries, wrapped_by, sql_tx,
}

-- the queries that a list of builders makes, if each of them makes one
module _ {A : Type 0} where
  pub build_queries-query :
      (qs acc : List (Query A)) → build_queries (map query qs) acc ≡ built (acc ++ qs)
  unfolding build_queries
  build_queries-query [] acc = ap built (sym (append-nil acc))
  build_queries-query (q ∷ qs) acc =
      build_queries-query qs (acc ++ q ∷ []) ∙ ap built (append_assoc acc (q ∷ []) qs)

  pub build_queries-broken :
      (qs acc : List (Query A)) (e : Error) (bs : List (QueryBuilder A))
      → build_queries (map query qs ++ broken e ∷ bs) acc ≡ unbuilt e
  unfolding build_queries
  build_queries-broken [] acc e bs = refl
  build_queries-broken (q ∷ qs) acc e bs = build_queries-broken qs (acc ++ q ∷ []) e bs

  pub built_inv :
      (bs : List (QueryBuilder A)) (acc qs : List (Query A))
      → build_queries bs acc ≡ built qs
      → (made : List (Query A)) × (bs ≡ map query made) × (qs ≡ acc ++ made)
  unfolding build_queries
  built_inv [] acc qs e = ([], refl, let same : acc ≡ qs = cc in sym same ∙ sym (append-nil acc))
  built_inv (query q ∷ bs) acc qs e =
      let (made, same, all) = built_inv bs (acc ++ q ∷ []) qs e in
      (q ∷ made, ap (λ t. query q ∷ t) same, all ∙ append_assoc acc (q ∷ []) made)
  built_inv (broken b ∷ bs) acc qs e = cc

  module _ (db : Database A) (wrap : Error → String → Error) (text : Error → String) where
    -- no query of the list fails, on a transaction with these calls behind it
    abbrev pub AllPass : List (Call A) → List (Query A) → Type 0
    AllPass calls [] = Unit
    AllPass calls (q ∷ qs) = (db.on_exec calls q ≡ none) × AllPass (calls ++ exec q ∷ []) qs

    pub run_queries-pass :
        (calls : List (Call A)) (qs : List (Query A))
        → AllPass calls qs
        → run_queries (sql_tx db) wrap text qs (record { ended = false; calls = calls }) ≡ (
          record { ended = true; calls = (calls ++ map exec qs) ++ commit ∷ [] },
          db.on_commit (calls ++ map exec qs),
        )
    unfolding run_queries commit_tx exec_context
    run_queries-pass calls [] h = rw (append-nil calls)
    run_queries-pass calls (q ∷ qs) (p, h) = rw p (
        rw (append_assoc calls (exec q ∷ []) (map exec qs)) at
          (run_queries-pass (calls ++ exec q ∷ []) qs h))

    pub run_queries-fail :
        (calls : List (Call A)) (pre : List (Query A)) (q : Query A) (post : List (Query A))
        (e : Error)
        → AllPass calls pre
        → db.on_exec (calls ++ map exec pre) q ≡ some e
        → let made = (calls ++ map exec pre) ++ exec q ∷ [] in
          run_queries
            (sql_tx db)
            wrap
            text
            (pre ++ q ∷ post)
            (record { ended = false; calls = calls })
          ≡ (
            record { ended = true; calls = made ++ rollback ∷ [] },
            some (wrapped_by (sql_tx db) wrap text e (db.on_rollback made)),
          )
    unfolding run_queries exec_context fail_with roll_back
    run_queries-fail calls [] q post e h f =
        let g : db.on_exec calls q ≡ some e = rw (append-nil calls) at f in
        rw (append-nil calls, g, run_queries)
    run_queries-fail calls (p ∷ pre) q post e (k, h) f =
        let a = append_assoc calls (exec p ∷ []) (map exec pre) in
        rw k (rw a at (run_queries-fail (calls ++ exec p ∷ []) pre q post e h (rw a f)))

    -- The first failure in a list of queries, if there is one.
    abbrev pub Failure : List (Call A) → List (Query A) → Type 0
    Failure calls qs =
        (pre : List (Query A)) × (q : Query A) × (post : List (Query A)) × (e : Error) × (qs
          ≡ pre ++ q ∷ post)
        × AllPass calls pre
        × (db.on_exec (calls ++ map exec pre) q ≡ some e)

    pub first-Failure :
        (calls : List (Call A)) (qs : List (Query A)) → AllPass calls qs ⊎ Failure calls qs
    first-Failure calls [] = inl tt
    first-Failure calls (q ∷ qs) = elim (Option-cases (db.on_exec calls q)) [
      | inr (e, failed) ↦ inr ([], q, qs, e, refl, tt, rw (append-nil calls) failed)
      | inl passed ↦ elim (first-Failure (calls ++ exec q ∷ []) qs) [
        | inl rest ↦ inl (passed, rest)
        | inr (pre, f, post, e, split, before, failed) ↦ inr (
          q ∷ pre,
          f,
          post,
          e,
          ap (λ t. q ∷ t) split,
          (passed, before),
          rw (append_assoc calls (exec q ∷ []) (map exec pre)) at failed,
        )
      ]
    ]
