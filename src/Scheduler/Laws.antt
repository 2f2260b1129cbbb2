-- ===== src/Scheduler/Laws.antt =====
-- Which jobs a scheduler holds (scheduler/scheduler.go).
use gopack.Prelude.{
  ◌≡◌, ◌≢◌, refl, sym, ◌∙◌, ◌⊎◌, true, String, List, [], ◌∷◌, ◌++◌, append-nil, append_assoc,
  Option, none, some, Error, is_some, Option-cases, inl, inr, arith, All, All-append, if◌then◌else◌,
}
use gopack.Scheduler.{
  Job, Registration, JobsScheduler, already_added, new_jobs_scheduler, find, registration, register,
  add_job, add_jobs,
}
use gopack.Scheduler.Jobs.{Unique, insert-new, find-append, Unique-append}

module _ {C : Type 0} where
  module _ (parse : String → Option Error)
      (on_do : List (Registration C) → Registration C → Option Error) where
    -- what gocron accepted of the calls `rs`, which came after the calls `before`, in order
    pub accepted : List (Registration C) → List (Registration C) → List (String × Job C)
    accepted before [] = []
    accepted before (r ∷ rs) =
        let rest = accepted (before ++ r ∷ []) rs in
        if is_some (on_do before r) then rest else (r.name, r.job) ∷ rest

    accepted-append :
        (before rs : List (Registration C)) (r : Registration C)
        → accepted before (rs ++ r ∷ [])
          ≡ accepted before rs
            ++ (if is_some (on_do (before ++ rs) r) then [] else (r.name, r.job) ∷ [])
    unfolding accepted
    accepted-append before [] r = rw (append-nil before) (ground arith)
    accepted-append before (q ∷ rs) r =
        ground (arith, accepted-append (before ++ q ∷ []) rs r, append_assoc before (q ∷ []) rs)

    abbrev pub IsChecked : Registration C → Type 0
    IsChecked r =
        (parse r.cron ≡ none) × (r.tag ≡ r.name) × (r.job.id ≡ r.name) × (r.singleton ≡ true)

    -- The map is what gocron accepted, each id once, and gocron was only asked for what the parser
    -- took, as a singleton under the id of the job.
    pub record IsConsistent (s : JobsScheduler C) : Type 0 where
      pub same : s.jobs ≡ accepted [] s.calls
      pub unique : Unique s.jobs
      pub checked : All IsChecked s.calls

    add_job_unparsed :
        (ctx : C) (expr : String) (job : Job C) (s : JobsScheduler C) (e : Error)
        → parse expr ≡ some e
        → add_job parse on_do ctx expr job s ≡ (s, some e)
    unfolding add_job
    add_job_unparsed ctx expr job s e h = ground arith

    add_job_taken :
        (ctx : C) (expr : String) (job old : Job C) (s : JobsScheduler C)
        → parse expr ≡ none
        → find job.id s.jobs ≡ some old
        → add_job parse on_do ctx expr job s ≡ (s, some (already_added job.id))
    unfolding add_job
    add_job_taken ctx expr job old s p h = ground arith

    add_job_refused :
        (ctx : C) (expr : String) (job : Job C) (s : JobsScheduler C) (e : Error)
        → parse expr ≡ none
        → find job.id s.jobs ≡ none
        → on_do s.calls (registration expr job ctx) ≡ some e
        → add_job parse on_do ctx expr job s
          ≡ (record s { calls = s.calls ++ registration expr job ctx ∷ [] }, some e)
    unfolding add_job register
    add_job_refused ctx expr job s e p n h = ground arith

    add_job_new :
        (ctx : C) (expr : String) (job : Job C) (s : JobsScheduler C)
        → parse expr ≡ none
        → find job.id s.jobs ≡ none
        → on_do s.calls (registration expr job ctx) ≡ none
        → add_job parse on_do ctx expr job s ≡ (
          record {
            calls = s.calls ++ registration expr job ctx ∷ [];
            jobs = s.jobs ++ (job.id, job) ∷ [];
          },
          none,
        )
    unfolding add_job register
    add_job_new ctx expr job s p n h = ground (arith, insert-new job.id job s.jobs n)

    -- the four ways in which a call ends
    abbrev pub Outcome : C → String → Job C → JobsScheduler C → Type 0
    Outcome ctx expr job s =
        ((e : Error) × (parse expr ≡ some e))
        ⊎ ((parse expr ≡ none) × ((old : Job C) × (find job.id s.jobs ≡ some old)))
        ⊎ ((parse expr ≡ none)
            × (find job.id s.jobs ≡ none)
            × ((e : Error) × (on_do s.calls (registration expr job ctx) ≡ some e)))
        ⊎ ((parse expr ≡ none)
            × (find job.id s.jobs ≡ none)
            × (on_do s.calls (registration expr job ctx) ≡ none))

    outcome : (ctx : C) (expr : String) (job : Job C) (s : JobsScheduler C) → Outcome ctx expr job s
    outcome ctx expr job s = elim (Option-cases (parse expr)) [
      | inr (e, h) ↦ inl (e, h)
      | inl p ↦ elim (Option-cases (find job.id s.jobs)) [
        | inr (old, h) ↦ inr (inl (p, (old, h)))
        | inl n ↦ elim (Option-cases (on_do s.calls (registration expr job ctx))) [
          | inr (e, h) ↦ inr (inr (inl (p, n, (e, h))))
          | inl h ↦ inr (inr (inr (p, n, h)))
        ]
      ]
    ]

    All-IsChecked :
        (ctx : C) (expr : String) (job : Job C) (s : JobsScheduler C)
        → parse expr ≡ none
        → All IsChecked s.calls
        → All IsChecked (s.calls ++ registration expr job ctx ∷ [])
    unfolding registration
    All-IsChecked ctx expr job s p h =
        All-append IsChecked s.calls (registration expr job ctx ∷ []) h ((p, refl, refl, refl), tt)

    add_job-IsConsistent :
        (ctx : C) (expr : String) (job : Job C) (s : JobsScheduler C)
        → IsConsistent s
        → IsConsistent (add_job parse on_do ctx expr job s).0
    unfolding registration
    add_job-IsConsistent ctx expr job s h = elim (outcome ctx expr job s) [
      | inl (e, bad) ↦ rw (add_job_unparsed ctx expr job s e bad) h
      | inr (inl (p, (old, there))) ↦ rw (add_job_taken ctx expr job old s p there) h
      | inr (inr (inl (p, n, (e, failed)))) ↦
          rw (add_job_refused ctx expr job s e p n failed) (record {
            same = sym (
                accepted-append [] s.calls (registration expr job ctx)
                ∙ rw (failed, sym h.same) (append-nil s.jobs));
            unique = h.unique;
            checked = All-IsChecked ctx expr job s p h.checked;
          })
      | inr (inr (inr (p, n, ok))) ↦ rw (add_job_new ctx expr job s p n ok) (record {
        same =
            sym (accepted-append [] s.calls (registration expr job ctx) ∙ rw (ok, sym h.same) refl);
        unique = Unique-append job.id job s.jobs h.unique n;
        checked = All-IsChecked ctx expr job s p h.checked;
      })
    ]

    add_jobs-IsConsistent_from :
        (more : List (C × String × Job C)) (s : JobsScheduler C)
        → IsConsistent s
        → IsConsistent (add_jobs parse on_do more s)
    unfolding add_jobs
    add_jobs-IsConsistent_from [] s h = h
    add_jobs-IsConsistent_from ((ctx, expr, job) ∷ more) s h =
        add_jobs-IsConsistent_from more (add_job parse on_do ctx expr job s).0
          (add_job-IsConsistent ctx expr job s h)

    -- After any calls of `AddJob` on a new scheduler, its map holds what gocron accepted, each id
    -- once and in the order of the calls, and gocron was only asked to run jobs whose expression
    -- the parser took, as singletons under the id of the job.
    pub add_jobs-IsConsistent :
        (more : List (C × String × Job C))
        → IsConsistent (add_jobs parse on_do more new_jobs_scheduler)
    unfolding new_jobs_scheduler accepted
    add_jobs-IsConsistent more =
        add_jobs-IsConsistent_from more new_jobs_scheduler
          (record { same = refl; unique = tt; checked = tt })

    -- Every call of `AddJob` ends in one of four ways: it returns the parser's error, or that the id
    -- is taken, and changes nothing, or gocron's error, and leaves the map, or no error, and then
    -- the map has the job under its id.
    pub add_job_lem :
        (ctx : C) (expr : String) (job : Job C) (s : JobsScheduler C)
        → let (t, err) = add_job parse on_do ctx expr job s in
          ((err ≢ none) × (err ≡ parse expr) × (t ≡ s))
          ⊎ ((find job.id s.jobs ≢ none) × (err ≡ some (already_added job.id)) × (t ≡ s))
          ⊎ ((err ≢ none) × (err ≡ on_do s.calls (registration expr job ctx)) × (t.jobs ≡ s.jobs))
          ⊎ ((err ≡ none)
              × (find job.id s.jobs ≡ none)
              × (t.jobs ≡ s.jobs ++ (job.id, job) ∷ [])
              × (find job.id t.jobs ≡ some job))
    add_job_lem ctx expr job s = elim (outcome ctx expr job s) [
      | inl (e, bad) ↦ rw (add_job_unparsed ctx expr job s e bad, bad) (inl (λ n. cc, refl, refl))
      | inr (inl (p, (old, there))) ↦
          rw (add_job_taken ctx expr job old s p there, there) (inr (inl (λ n. cc, refl, refl)))
      | inr (inr (inl (p, n, (e, failed)))) ↦
          rw (add_job_refused ctx expr job s e p n failed, failed)
            (inr (inr (inl (λ n. cc, refl, refl))))
      | inr (inr (inr (p, n, ok))) ↦
          rw (add_job_new ctx expr job s p n ok)
            (inr (inr (inr (refl, n, refl, find-append job.id job s.jobs n))))
    ]
