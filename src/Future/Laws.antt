-- ===== src/Future/Laws.antt =====
-- What the callers of a future may rely on, over all schedules.
use gopack.Prelude.{
  ◌≡◌, refl, ◌⊎◌, inl, inr, true, List, [], ◌∷◌, ◌++◌, Option, none, some, arith, Option-cases,
  is_some, ◌≤◌, length, ◌∙◌,
}
use gopack.Future.{
  Result, Limit, Task, Worker, starting, selecting, setting, releasing, finished, Caller,
  constructing, idle, reading, waiting, returned, System, Action, begin, receive, give_up, store,
  release, construct, call, read, await, new, step, run, next_message, has_result,
}
use gopack.Future.Invariant.{Inv, IsOutcome, new-Inv, step-Inv}

module _ {A : Type 0} where
  run-Inv_from :
      (acts : List (Action A)) (s : System A) {t : System A} → Inv s → run acts s ≡ some t → Inv t
  unfolding run
  run-Inv_from [] s h e = ground arith
  run-Inv_from (a ∷ acts) s h e = elim (Option-cases (step a s)) [
    | inl stuck ↦ absurd (ground arith)
    | inr (u, went) ↦ run-Inv_from acts u (step-Inv a s h went) (ground arith)
  ]

  -- In every state that a schedule of a new future reaches, the counters of both wait groups,
  -- `triggered` and the result fit where the worker is, so that it never panics, and a caller that
  -- has returned has the result.
  pub run-Inv :
      (limit : Limit) (task : Task A) (acts : List (Action A)) {t : System A}
      → run acts (new limit task) ≡ some t
      → Inv t
  run-Inv limit task acts e = run-Inv_from acts (new limit task) (new-Inv limit task) e

  step-result :
      (a : Action A) (s : System A) {t : System A} {r : Result A}
      → Inv s
      → step a s ≡ some t
      → s.future.result ≡ some r
      → t.future.result ≡ some r
  unfolding step
  step-result begin s h e k = ground arith
  step-result _ s h e k = ground arith

  run-result_from :
      (acts : List (Action A)) (s : System A) (t : System A) (r : Result A)
      → Inv s
      → run acts s ≡ some t
      → s.future.result ≡ some r
      → t.future.result ≡ some r
  unfolding run
  run-result_from [] s t r h e k = ground arith
  run-result_from (a ∷ acts) s t r h e k = elim (Option-cases (step a s)) [
    | inl stuck ↦ absurd (ground arith)
    | inr (u, went) ↦
        run-result_from acts u t r (step-Inv a s h went) (ground arith) (step-result a s h went k)
  ]

  -- the actions of the worker that are left, and then those of the caller
  abbrev pub choice : System A → Action A
  choice s = elim (next_message s.task) [ none ↦ give_up | some _ ↦ receive ]

  abbrev pub work_left : Worker A → Action A → List (Action A)
  work_left starting c = begin ∷ c ∷ store ∷ release ∷ []
  work_left selecting c = c ∷ store ∷ release ∷ []
  work_left (setting v e) c = store ∷ release ∷ []
  work_left releasing c = release ∷ []
  work_left _ c = []

  abbrev pub calls_left : Caller A → List (Action A)
  calls_left constructing = construct ∷ call ∷ read ∷ []
  calls_left idle = call ∷ read ∷ []
  calls_left reading = read ∷ []
  calls_left waiting = await ∷ []
  calls_left (returned r) = []

  -- A message is there, or the channel is closed, or the time is up.
  abbrev pub IsReady : System A → Type 0
  IsReady s = (is_some (next_message s.task) ≡ true) ⊎ (is_some s.expired ≡ true)

  -- The run came to a state that satisfies `P`.
  abbrev pub Ends : (System A → Type 0) → Option (System A) → Type 0
  Ends P none = ⊥
  Ends P (some t) = P t

  ends :
      (P : System A → Type 0) (o : Option (System A))
      → Ends P o
      → (t : System A) × (o ≡ some t) × P t
  ends P none h = absurd h
  ends P (some t) h = (t, refl, h)

  run-append :
      (as1 as2 : List (Action A)) (s : System A) {t : System A}
      → run as1 s ≡ some t
      → run (as1 ++ as2) s ≡ run as2 t
  unfolding run
  run-append [] as2 s e = ground arith
  run-append (a ∷ as1) as2 s e = elim (Option-cases (step a s)) [
    | inl stuck ↦ absurd (ground arith)
    | inr (u, went) ↦ rw (went, run) (run-append as1 as2 u (ground arith))
  ]

  work_left-Ends :
      (s : System A) (w : Worker A)
      → Inv s
      → s.worker ≡ w
      → IsReady s
      → Ends (λ t. (t.worker ≡ finished) × (t.caller ≡ s.caller)) (run (work_left w (choice s)) s)
  unfolding run step next_message
  work_left-Ends s starting h e k = ground arith
  work_left-Ends s _ h e k = ground arith

  abbrev pub HasReturned : System A → Type 0
  HasReturned t = (r : Result A) × (t.caller ≡ returned (some r))

  calls_left-Ends :
      (s : System A) (c : Caller A)
      → Inv s
      → s.worker ≡ finished
      → s.caller ≡ c
      → (r : Result A) → s.future.result ≡ some r
      → Ends (λ t. (t.worker ≡ finished) × (t.caller ≡ returned (some r))) (run (calls_left c) s)
  unfolding run step
  calls_left-Ends s constructing h f e r k = ground arith
  calls_left-Ends s _ h f e r k = ground arith

  pub step-limit :
      (a : Action A) (s : System A) {t : System A} → step a s ≡ some t → t.limit ≡ s.limit
  unfolding step
  step-limit begin s e = ground arith
  step-limit _ s e = ground arith

  run-limit : (acts : List (Action A)) (s t : System A) → run acts s ≡ some t → t.limit ≡ s.limit
  unfolding run
  run-limit [] s t e = ground arith
  run-limit (a ∷ acts) s t e = elim (Option-cases (step a s)) [
    | inl stuck ↦ absurd (ground arith)
    | inr (u, went) ↦ run-limit acts u t (ground arith) ∙ step-limit a s went
  ]

  pub result_of_set : (f : Option (Result A)) → is_some f ≡ true → (r : Result A) × (f ≡ some r)
  result_of_set none h = cc
  result_of_set (some r) h = (r, refl)

  at_most :
      (w : Worker A) (c : Caller A) (a : Action A) → length (work_left w a ++ calls_left c) ≤ 7
  at_most w c a = ground arith

  module _ (limit : Limit) (task : Task A) (acts : List (Action A)) (s : System A)
      (reached : run acts (new limit task) ≡ some s) where
    -- A future is completed once: in whatever state a schedule of a new future has set the result,
    -- no schedule from there on changes it, and `HasResult` stays true.
    pub result_unchanged :
        (more : List (Action A)) (t : System A) (r : Result A)
        → run more s ≡ some t
        → s.future.result ≡ some r
        → (t.future.result ≡ some r) × (has_result t.future ≡ true)
    unfolding has_result
    result_unchanged more t r went set =
        let inv = run-Inv limit task acts reached in
        let same = run-result_from more s t r inv went set in
        let later = run-Inv_from more s inv went in (same, ground arith)

    -- What `Result` returns, on either of its paths, is never nil: it is the result of the future,
    -- which has no failure, or no message and an error, that of the timer where there is one.
    pub returned-IsOutcome :
        (r : Option (Result A))
        → s.caller ≡ returned r
        → (x : Result A) × (r ≡ some x)
          × (s.future.result ≡ some x)
          × IsOutcome limit x.success x.failure
    unfolding new
    returned-IsOutcome r e =
        let inv = run-Inv limit task acts reached in
        let lim = run-limit acts (new limit task) s reached in
        let (x, held) = result_of_set s.future.result (ground arith) in
        (x, ground arith, held, ground arith)

    -- Once a message is there, or the channel is closed, or the time is up, some at most seven
    -- further actions of the worker and the caller end with a result in the caller's hands, from
    -- every state that a schedule of a new future reaches.
    pub settles :
        IsReady s
        → (t : System A) × (r : Result A) × (run
              (work_left s.worker (choice s) ++ calls_left s.caller)
              s
            ≡ some t)
          × (t.worker ≡ finished)
          × (t.caller ≡ returned (some r))
          × (length (work_left s.worker (choice s) ++ calls_left s.caller) ≤ 7)
    settles ready =
        let inv = run-Inv limit task acts reached in
        let (t, worked, post) = ends _ _ (work_left-Ends s s.worker inv refl ready) in
        let inv_t = run-Inv_from (work_left s.worker (choice s)) s inv worked in
        let (r, held) = result_of_set t.future.result (ground arith) in
        let (u, called, post') = ends _ _ (calls_left-Ends t s.caller inv_t post.0 post.1 r held) in
        (
          u,
          r,
          run-append (work_left s.worker (choice s)) (calls_left s.caller) s worked ∙ called,
          post'.0,
          post'.1,
          at_most s.worker s.caller (choice s),
        )
