-- ===== src/Postgres/TxRunner/Cancellation.antt =====
-- `Execute` when its context may be cancelled at any time (postgres/tx_runner.go).
-- The documentation of database/sql says of the context of a transaction: when it is cancelled, the
-- package rolls the transaction back, and a commit returns an error. A query in a context that is
-- done returns its error and does not reach the database. So a transaction has a list of events, one
-- for each of its calls, which says what comes before that call: nothing, the end of the context, or
-- that and the rollback of the package. `ctx_err` is the error of a context that is done.
use gopack.Prelude.{
  ◌≡◌, ◌≢◌, ◌⊎◌, refl, sym, ap, ◌∙◌, Bool, true, false, not, ◌&&◌, String, List, [], ◌∷◌, map,
  Option, none, some, Error, Bool-cases, inl, inr, arith, if◌then◌else◌,
}
use gopack.Postgres.TxRunner.{
  Query, Database, Tx, exec_context, roll_back, commit_tx, TxOps, TxRunner, QueryBuilder, query,
  execute,
}
use gopack.Postgres.TxRunner.Contract.{all_of, IsTransactional, execute-IsAllOrNothing_of}
use gopack.Postgres.TxRunner.Atomicity.{
  published, own_view, view, exec_context-published, exec_context-own_view, roll_back-published,
  commit_tx-published, commit_tx-kept,
}

pub data Event : Type 0 where
  quiet cancelled swept : Event

pub record Watched (A : Type 0) : Type 0 where
  pub tx : Tx A
  pub done : Bool
  pub events : List Event

module _ {A : Type 0} (db : Database A) (ctx_err : Error) where
  happen : Event → Watched A → Watched A
  happen quiet w = w
  happen cancelled w = record w { done = true }
  happen swept w = record w { tx = (roll_back db w.tx).0; done = true }

  -- the next event
  next_event : List Event → Watched A → Watched A
  unfolding happen
  next_event [] w = w
  next_event (e ∷ es) w = happen e (record w { events = es })

  -- a call that needs the context, behind the next event
  in_context : (Tx A → Tx A × Option Error) → Watched A → Watched A × Option Error
  in_context call w =
      let (tx, err) = call w.tx in
      if w.done && not w.tx.ended then (w, some ctx_err) else (record w { tx = tx }, err)

  -- the transaction of a context that may be cancelled
  abbrev pub watched_tx : TxOps A (Watched A)
  unfolding next_event in_context
  watched_tx = record {
    exec_context = λ q w. in_context (exec_context db q) (next_event w.events w);
    roll_back = λ w.
        let u = next_event w.events w in
        let (tx, err) = roll_back db u.tx in (record u { tx = tx }, err);
    commit_tx = λ w. in_context (commit_tx db) (next_event w.events w);
  }

  module _ {S : Type 0} (effect : Query A → S → S) (s : S) where
    abbrev pub others_see : Watched A → S
    others_see w = published db effect s w.tx

    abbrev own_state : Watched A → S
    own_state w = own_view db effect s w.tx

    event-others_see :
        (es : List Event) (w : Watched A) → others_see (next_event es w) ≡ others_see w
    unfolding next_event happen
    event-others_see [] w = refl
    event-others_see (quiet ∷ es) w = refl
    event-others_see (cancelled ∷ es) w = refl
    event-others_see (swept ∷ es) w = roll_back-published db effect s w.tx

    -- a transaction that goes on behind an event saw nothing of it
    event-own_state :
        (es : List Event) (w : Watched A)
        → (next_event es w).done ≡ false
        → own_state (next_event es w) ≡ own_state w
    unfolding next_event happen
    event-own_state [] w h = refl
    event-own_state (quiet ∷ es) w h = refl
    event-own_state (cancelled ∷ es) w h = absurd (ground arith)
    event-own_state (swept ∷ es) w h = absurd (ground arith)

    -- a call in the context passes only when the context is not done, or the transaction is ended
    in_context-none :
        (call : Tx A → Tx A × Option Error) (u : Watched A)
        → (in_context call u).1 ≡ none
        → ((u.done ≡ false) ⊎ (u.tx.ended ≡ true))
          × ((call u.tx).1 ≡ none)
          × ((in_context call u).0 ≡ record u { tx = (call u.tx).0 })
    unfolding in_context
    in_context-none call u h = ground arith

    in_context-cases :
        (call : Tx A → Tx A × Option Error) (u : Watched A)
        → (((in_context call u).0 ≡ u) × ((in_context call u).1 ≡ some ctx_err))
          ⊎ (((in_context call u).0 ≡ record u { tx = (call u.tx).0 })
              × ((in_context call u).1 ≡ (call u.tx).1))
    unfolding in_context
    in_context-cases call u = elim (Bool-cases (u.done && not u.tx.ended)) [
      | inl stopped ↦ inl (ground arith)
      | inr goes ↦ inr (ground arith)
    ]

    in_context-others_see :
        (call : Tx A → Tx A × Option Error) (w : Watched A)
        → ((tx : Tx A) → published db effect s (call tx).0 ≡ published db effect s tx)
        → others_see (in_context call (next_event w.events w)).0 ≡ others_see w
    in_context-others_see call w h =
        let u = next_event w.events w in
        let at_event = event-others_see w.events w in
        elim (in_context-cases call u) [
          | inl (stopped, _) ↦ ap others_see stopped ∙ at_event
          | inr (goes, _) ↦ ap others_see goes ∙ h u.tx ∙ at_event
        ]

    exec_context-open :
        (q : Query A) (tx : Tx A) → (exec_context db q tx).1 ≡ none → tx.ended ≡ false
    unfolding exec_context
    exec_context-open q tx h = ground arith

    commit_tx-open : (tx : Tx A) → (commit_tx db tx).1 ≡ none → tx.ended ≡ false
    unfolding commit_tx
    commit_tx-open tx h = ground arith

    -- A call that passes does so in a context that is not done, and as the transaction's own.
    in_context-passed :
        (call : Tx A → Tx A × Option Error) (w : Watched A)
        → ((tx : Tx A) → (call tx).1 ≡ none → tx.ended ≡ false)
        → (in_context call (next_event w.events w)).1 ≡ none
        → (u : Watched A) × ((in_context call (next_event w.events w)).0
            ≡ record u { tx = (call u.tx).0 })
          × ((call u.tx).1 ≡ none)
          × (own_state u ≡ own_state w)
    in_context-passed call w opens h =
        let u = next_event w.events w in
        let (how, passed, is) = in_context-none call u h in
        elim how [
          | inl undone ↦ (u, is, passed, event-own_state w.events w undone)
          | inr over ↦ absurd (ground (arith, opens u.tx passed))
        ]

    watched_tx-IsTransactional : IsTransactional watched_tx effect others_see own_state
    unfolding watched_tx
    watched_tx-IsTransactional = record {
      exec_seen =
          λ q w. in_context-others_see (exec_context db q) w (exec_context-published db effect s q);
      exec_own = λ q w h.
          let (u, is, passed, own) =
            in_context-passed (exec_context db q) w (exec_context-open q) h in
          ap own_state is ∙ exec_context-own_view db effect s q u.tx passed ∙ ap (effect q) own;
      roll_back_seen = λ w.
          roll_back-published db effect s (next_event w.events w).tx ∙ event-others_see w.events w;
      commit_ok = λ w h.
          let (u, is, passed, own) = in_context-passed (commit_tx db) w commit_tx-open h in
          ap others_see is ∙ commit_tx-published db effect s u.tx passed ∙ own;
      commit_failed = λ w e h.
          let u = next_event w.events w in
          let at_event = event-others_see w.events w in
          elim (in_context-cases (commit_tx db) u) [
            | inl (stopped, _) ↦ ap others_see stopped ∙ at_event
            | inr (goes, same) ↦
                ap others_see goes ∙ commit_tx-kept db effect s u.tx e (sym same ∙ h) ∙ at_event
          ];
    }

    module _ (wrap : Error → String → Error) (text : Error → String) where
      -- Where a commit that reports an error publishes nothing, `Execute` on a new transaction
      -- publishes the effects of all queries of the builders, in their order, and returns no
      -- error, or it returns an error, and what others see is the state in which the transaction
      -- was begun: also when the context is cancelled before any of its calls, and database/sql
      -- rolls back before that call or a later one.
      pub execute-cancelled :
          (builders : List (QueryBuilder A)) (events : List Event)
          → let fresh : Tx A = record { ended = false; calls = [] } in
            let w : Watched A = record { tx = fresh; done = false; events = events } in
            let r : TxRunner A (Watched A) = record { tx = w; builders = builders } in
            let (after, err) = execute watched_tx wrap text r in
            ((qs : List (Query A)) × (err ≡ none)
              × (builders ≡ map query qs)
              × (others_see after.tx ≡ all_of effect qs s))
            ⊎ ((err ≢ none) × (others_see after.tx ≡ s))
      unfolding view
      execute-cancelled builders events =
          execute-IsAllOrNothing_of watched_tx effect others_see own_state wrap text
            watched_tx-IsTransactional
            (record {
              tx = record {
                tx = record { ended = false; calls = [] };
                done = false;
                events = events;
              };
              builders = builders;
            })
