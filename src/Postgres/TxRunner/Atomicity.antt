-- ===== src/Postgres/TxRunner/Atomicity.antt =====
-- What `Execute` does to the state of the database (postgres/tx_runner.go): everything or nothing.
-- `effect` is what a query makes of the state that its transaction sees. A commit that reports an
-- error has not published anything.
use gopack.Prelude.{
  ◌≡◌, ◌≢◌, ◌⊎◌, refl, sym, ap, ◌∙◌, append-nil, append_assoc, map, Bool, true, false, String, List,
  [], ◌∷◌, ◌++◌, none, some, Error, is_some, Bool-cases, inl, inr, arith, if◌then◌else◌,
}
use gopack.Postgres.TxRunner.{
  Query, Call, exec, rollback, commit, Database, Tx, exec_context, roll_back, commit_tx, sql_tx,
  TxRunner, query, execute,
}
use gopack.Postgres.TxRunner.Contract.{all_of, IsTransactional, execute-IsAllOrNothing_of}

module _ {A S : Type 0} (db : Database A) (effect : Query A → S → S) where
  -- What a call makes of the states that others and the transaction see, behind the calls `before`.
  abbrev pub act : List (Call A) → Call A → S × S → S × S
  act before (exec q) (seen, own) = (seen, effect q own)
  act before rollback (seen, own) = (seen, seen)
  act before commit (seen, own) =
      let kept : S × S = (seen, seen) in
      let done : S × S = (own, own) in if is_some (db.on_commit before) then kept else done

  unfoldable pub view : List (Call A) → List (Call A) → S × S → S × S
  view before [] p = p
  view before (c ∷ cs) p = view (before ++ c ∷ []) cs (act before c p)

  view-snoc :
      (before cs : List (Call A)) (c : Call A) (p : S × S)
      → view before (cs ++ c ∷ []) p ≡ act (before ++ cs) c (view before cs p)
  unfolding view
  view-snoc before [] c p = ap (λ b. act b c p) (sym (append-nil before))
  view-snoc before (d ∷ cs) c p =
      view-snoc (before ++ d ∷ []) cs c (act before d p)
      ∙ ap (λ b. act b c (view (before ++ d ∷ []) cs (act before d p)))
          (append_assoc before (d ∷ []) cs)

  -- the states behind the calls of a transaction that was begun in the state `s`
  abbrev pub published : S → Tx A → S
  published s tx = (view [] tx.calls (s, s)).0

  abbrev pub own_view : S → Tx A → S
  own_view s tx = (view [] tx.calls (s, s)).1

  -- what one more call makes of the state that others see
  published-snoc :
      (s : S) (ended : Bool) (cs : List (Call A)) (c : Call A)
      → published s (record { ended = ended; calls = cs ++ c ∷ [] })
        ≡ (act cs c (view [] cs (s, s))).0
  published-snoc s ended cs c = ap (λ (p : S × S). p.0) (view-snoc [] cs c (s, s))

  pub exec_context-published :
      (s : S) (q : Query A) (tx : Tx A) → published s (exec_context db q tx).0 ≡ published s tx
  unfolding exec_context
  exec_context-published s q tx = elim (Bool-cases tx.ended) [
    | inl over ↦ rw over refl
    | inr opened ↦ rw opened (published-snoc s tx.ended tx.calls (exec q))
  ]

  pub exec_context-own_view :
      (s : S) (q : Query A) (tx : Tx A)
      → (exec_context db q tx).1 ≡ none
      → own_view s (exec_context db q tx).0 ≡ effect q (own_view s tx)
  unfolding exec_context
  exec_context-own_view s q tx ok = elim (Bool-cases tx.ended) [
    | inl over ↦ absurd (ground arith)
    | inr opened ↦ rw opened (ap (λ (p : S × S). p.1) (view-snoc [] tx.calls (exec q) (s, s)))
  ]

  pub roll_back-published : (s : S) (tx : Tx A) → published s (roll_back db tx).0 ≡ published s tx
  unfolding roll_back
  roll_back-published s tx = elim (Bool-cases tx.ended) [
    | inl over ↦ rw over refl
    | inr opened ↦ rw opened (published-snoc s true tx.calls rollback)
  ]

  pub commit_tx-published :
      (s : S) (tx : Tx A)
      → (commit_tx db tx).1 ≡ none
      → published s (commit_tx db tx).0 ≡ own_view s tx
  unfolding commit_tx
  commit_tx-published s tx ok = elim (Bool-cases tx.ended) [
    | inl over ↦ absurd (ground arith)
    | inr opened ↦
        let passed : db.on_commit tx.calls ≡ none = ground arith in
        rw opened (published-snoc s true tx.calls commit ∙ rw passed refl)
  ]

  pub commit_tx-kept :
      (s : S) (tx : Tx A) (e : Error)
      → (commit_tx db tx).1 ≡ some e
      → published s (commit_tx db tx).0 ≡ published s tx
  unfolding commit_tx
  commit_tx-kept s tx e bad = elim (Bool-cases tx.ended) [
    | inl over ↦ rw over refl
    | inr opened ↦
        let failed : db.on_commit tx.calls ≡ some e = ground arith in
        rw opened (published-snoc s true tx.calls commit ∙ rw failed refl)
  ]

  sql_tx-IsTransactional : (s : S) → IsTransactional (sql_tx db) effect (published s) (own_view s)
  sql_tx-IsTransactional s = record {
    exec_seen = exec_context-published s;
    exec_own = exec_context-own_view s;
    roll_back_seen = roll_back-published s;
    commit_ok = commit_tx-published s;
    commit_failed = commit_tx-kept s;
  }

  module _ (wrap : Error → String → Error) (text : Error → String) where
    -- Where a commit that reports an error publishes nothing, `Execute` on a new transaction
    -- publishes the effects of all queries of the builders, in their order, and returns no error,
    -- or it returns an error, and what others see is the state in which the transaction was begun.
    pub execute-IsAllOrNothing :
        (r : TxRunner A (Tx A)) (s : S)
        → r.tx ≡ record { ended = false; calls = [] }
        → ((qs : List (Query A)) × ((execute (sql_tx db) wrap text r).1 ≡ none)
            × (r.builders ≡ map query qs)
            × (published s (execute (sql_tx db) wrap text r).0.tx ≡ all_of effect qs s))
          ⊎ (((execute (sql_tx db) wrap text r).1 ≢ none)
              × (published s (execute (sql_tx db) wrap text r).0.tx ≡ s))
    unfolding view
    execute-IsAllOrNothing r s fresh =
        let at_start : published s r.tx ≡ s = ap (published s) fresh in
        let own_start : own_view s r.tx ≡ s = ap (own_view s) fresh in
        elim (execute-IsAllOrNothing_of (sql_tx db) effect (published s) (own_view s) wrap text
          (sql_tx-IsTransactional s) r) [
            | inl (qs, ok, all, done) ↦ inl (qs, ok, all, done ∙ ap (all_of effect qs) own_start)
            | inr (failed, kept) ↦ inr (failed, kept ∙ at_start)
          ]
