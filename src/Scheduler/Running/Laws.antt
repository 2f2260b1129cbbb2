-- ===== src/Scheduler/Running/Laws.antt =====
-- The jobs of a scheduler that fail (scheduler/scheduler.go).
use gopack.Prelude.{
  ◌||◌, ◌&&◌, get_elem?-append, ℕ, ◌≡◌, refl, Bool, true, false, String, List, [], ◌∷◌, ◌++◌,
  append-nil, append_assoc, Option, none, some, Error, get_elem?, Option-cases, Bool-cases, inl,
  inr, arith,
}
use gopack.Scheduler.{
  Job, Registration, Effect, set_panic_handler, start_async, start, stop, registration, register,
  add_job,
}
use gopack.Scheduler.Running.{
  Process, Action, starts, stops, proceeds, adds, runs, handled, started, panic_in, new_process,
  with_pending, proceed, fails, run_step, step, run,
}

-- no `StartAsync` comes before the panic handler is set
guarded : List Effect → Bool
guarded [] = true
guarded (set_panic_handler ∷ es) = true
guarded (start_async ∷ es) = false
guarded (_ ∷ es) = guarded es

guarded-append :
    (es fs : List Effect) → guarded (es ++ fs) ≡ guarded es && (handled es || guarded fs)
unfolding guarded handled
guarded-append [] fs = refl
guarded-append (e ∷ es) fs = ground (arith, guarded-append es fs)

guarded-handled : (es : List Effect) → guarded es ≡ true → started es ≡ true → handled es ≡ true
unfolding guarded handled started
guarded-handled [] g s = ground arith
guarded-handled (e ∷ es) g s = ground (arith, guarded-handled es)

guarded-prefix : (es fs : List Effect) → guarded (es ++ fs) ≡ true → guarded es ≡ true
guarded-prefix es fs g = ground (arith, guarded-append es fs)

guarded-start : (es : List Effect) → guarded es ≡ true → guarded (es ++ start) ≡ true
unfolding guarded start
guarded-start es g = ground (arith, guarded-append es start)

guarded-stop : (es : List Effect) → guarded es ≡ true → guarded (es ++ stop.0) ≡ true
unfolding guarded stop
guarded-stop es g = ground (arith, guarded-append es stop.0)

module _ {C : Type 0} where
  module _ (name_of : Registration C → String) where
    -- what is to be printed of an action, by the calls of `Do`
    pub report : List (Registration C) → Action C → List String
    report calls (runs i moment) = elim (get_elem? calls i) [
      | none ↦ []
      | some r ↦ elim (r.job.run moment r.ctx) [ none ↦ [] | some e ↦ panic_in (name_of r) ∷ [] ]
    ]
    report calls _ = []

    pub reports : List (Registration C) → List (Action C) → List String
    reports calls [] = []
    reports calls (a ∷ more) = report calls a ++ reports calls more

  module _ (parse : String → Option Error)
      (on_do : List (Registration C) → Registration C → Option Error)
      (wrap : Error → String → Error) (may_run : List Effect → List (Registration C) → ℕ → Bool)
      (name_of : Registration C → String) where
    proceed-keeps :
        (es : List Effect) (p q : Process C)
        → proceed es p ≡ some q
        → (q.effects ++ q.pending ≡ p.effects ++ es)
          × (q.panic ≡ p.panic)
          × (q.scheduler ≡ p.scheduler)
          × (q.printed ≡ p.printed)
    unfolding proceed
    proceed-keeps [] p q e = absurd (ground arith)
    proceed-keeps (x ∷ es) p q e = ground (arith, append_assoc p.effects (x ∷ []) es)

    record Inv (p : Process C) : Type 0 where
      alive : p.panic ≡ none
      order : guarded (p.effects ++ p.pending) ≡ true

    -- a call of `Do` stays where it is
    add_job-grows :
        (ctx : C) (expr : String) (job : Job C) (p : Process C) (i : ℕ) (r : Registration C)
        → get_elem? p.scheduler.calls i ≡ some r
        → get_elem? (add_job parse on_do ctx expr job p.scheduler).0.calls i ≡ some r
    unfolding add_job register
    add_job-grows ctx expr job p i r h =
        ground (arith, get_elem?-append p.scheduler.calls (registration expr job ctx ∷ []) i r h)

    step-grows :
        (a : Action C) (p q : Process C) (i : ℕ) (r : Registration C)
        → step parse on_do wrap may_run name_of a p ≡ some q
        → get_elem? p.scheduler.calls i ≡ some r
        → get_elem? q.scheduler.calls i ≡ some r
    unfolding step with_pending run_step fails
    step-grows starts p q i r e h = ground arith
    step-grows stops p q i r e h = ground arith
    step-grows proceeds p q i r e h = ground (arith, proceed-keeps p.pending p q)
    step-grows (adds ctx expr job) p q i r e h = ground (arith, add_job-grows ctx expr job p i r h)
    step-grows (runs j moment) p q i r e h = ground arith

    run-grows :
        (more : List (Action C)) (p q : Process C) (i : ℕ) (r : Registration C)
        → run parse on_do wrap may_run name_of more p ≡ some q
        → get_elem? p.scheduler.calls i ≡ some r
        → get_elem? q.scheduler.calls i ≡ some r
    unfolding run
    run-grows [] p q i r e h = ground arith
    run-grows (a ∷ more) p q i r e h =
        elim (Option-cases (step parse on_do wrap may_run name_of a p)) [
          | inl stuck ↦ absurd (ground arith)
          | inr (t, went) ↦ run-grows more t q i r (ground arith) (step-grows a p t i r went h)
        ]

    module _
        (idle : (es : List Effect) (calls : List (Registration C)) (i : ℕ)
          → started es ≡ false
          → may_run es calls i ≡ false) where
      step-Inv :
          (a : Action C) (p q : Process C)
          → Inv p
          → step parse on_do wrap may_run name_of a p ≡ some q
          → Inv q
      unfolding step with_pending run_step fails
      step-Inv starts p q h e = ground (
        arith,
        guarded-start (p.effects ++ p.pending) h.order,
        append_assoc p.effects p.pending start,
        h.alive,
      )
      step-Inv stops p q h e = ground (
        arith,
        guarded-stop (p.effects ++ p.pending) h.order,
        append_assoc p.effects p.pending stop.0,
        h.alive,
      )
      step-Inv proceeds p q h e =
          let went : proceed p.pending p ≡ some q = ground (arith, h.alive) in
          ground (arith, h.alive, h.order, proceed-keeps p.pending p q went)
      step-Inv (adds ctx expr job) p q h e = ground (arith, h.alive, h.order)
      step-Inv (runs j moment) p q h e = ground (
        arith,
        idle p.effects p.scheduler.calls j,
        h.alive,
        h.order,
        guarded-prefix p.effects p.pending h.order,
        guarded-handled p.effects,
      )

      step-printed :
          (a : Action C) (p q : Process C) (calls : List (Registration C))
          → Inv p
          → step parse on_do wrap may_run name_of a p ≡ some q
          → ((i : ℕ) (r : Registration C)
              → get_elem? p.scheduler.calls i ≡ some r
              → get_elem? calls i ≡ some r)
          → q.printed ≡ p.printed ++ report name_of calls a
      unfolding step with_pending run_step fails report
      step-printed starts p q calls h e grown = ground (arith, append-nil p.printed)
      step-printed stops p q calls h e grown = ground (arith, append-nil p.printed)
      step-printed proceeds p q calls h e grown =
          ground (arith, append-nil p.printed, proceed-keeps p.pending p q)
      step-printed (adds ctx expr job) p q calls h e grown = ground (arith, append-nil p.printed)
      step-printed (runs j moment) p q calls h e grown =
          elim (Option-cases (get_elem? p.scheduler.calls j)) [
            | inl gone ↦ absurd (ground arith)
            | inr (r, there) ↦
                let here = grown j r there in
                elim (Option-cases (r.job.run moment r.ctx)) [
                  | inl fine ↦ ground (arith, append-nil p.printed)
                  | inr (err, failed) ↦ elim (Bool-cases (started p.effects)) [
                    | inl on ↦
                        let set =
                          guarded-handled p.effects (guarded-prefix p.effects p.pending h.order)
                            on in
                        ground arith
                    | inr off ↦
                        let blocked = idle p.effects p.scheduler.calls j off in
                        absurd (ground arith)
                  ]
                ]
          ]

      run-printed_from :
          (more : List (Action C)) (p q : Process C)
          → Inv p
          → run parse on_do wrap may_run name_of more p ≡ some q
          → (q.panic ≡ none) × (q.printed ≡ p.printed ++ reports name_of q.scheduler.calls more)
      unfolding run reports
      run-printed_from [] p q h e = ground (arith, append-nil p.printed, h.alive)
      run-printed_from (a ∷ more) p q h e =
          elim (Option-cases (step parse on_do wrap may_run name_of a p)) [
            | inl stuck ↦ absurd (ground arith)
            | inr (t, went) ↦
                let rest : run parse on_do wrap may_run name_of more t ≡ some q = ground arith in
                let (alive, said) = run-printed_from more t q (step-Inv a p t h went) rest in
                let first =
                  step-printed a p t q.scheduler.calls h went
                    (λ i r k. run-grows more t q i r rest (step-grows a p t i r went k)) in
                (
                  alive,
                  ground (
                    arith,
                    append_assoc p.printed (report name_of q.scheduler.calls a)
                        (reports name_of q.scheduler.calls more),
                  ),
                )
          ]

      -- In whatever order calls of `Start`, `Stop` and `AddJob` and runs of jobs come, also while
      -- a `Start` is under way, the process goes on: no error of a job ends it. It prints a text
      -- for each run whose job returned an error, in their order, with the name that gocron has for
      -- the job, and nothing else. This is where gocron runs a job only behind a `StartAsync`.
      pub run-printed :
          (more : List (Action C)) (q : Process C)
          → run parse on_do wrap may_run name_of more new_process ≡ some q
          → (q.panic ≡ none) × (q.printed ≡ reports name_of q.scheduler.calls more)
      unfolding new_process guarded
      run-printed more q e =
          run-printed_from more new_process q (record { alive = refl; order = refl }) e
