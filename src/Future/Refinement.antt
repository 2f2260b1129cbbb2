-- ===== src/Future/Refinement.antt =====
-- What a future promises, without its goroutines, locks and wait groups: a cell that is filled once
-- and whose reader gets what fills it. The schedules of future/future.go refine it.
use gopack.Prelude.{
  ◌≡◌, ◌∙◌, Bool, true, false, List, [], ◌∷◌, Option, none, some, arith, Option-cases, inl, inr,
}
use gopack.Future.{
  Result, Limit, Task, Worker, setting, returned, System, Action, begin, store, read, await, new,
  step, run, has_result,
}
use gopack.Future.Laws.{run-Inv}
use gopack.Future.Invariant.{Inv, new-Inv, step-Inv}

-- Empty, filled, or filled and read.
pub data Cell (A : Type 0) : Type 0 where
  empty : Cell A
  filled taken : Result A → Cell A

-- What can be seen of an action: nothing, the result, or that the reader gets it.
pub data Event (A : Type 0) : Type 0 where
  silent reads : Event A
  fills : Result A → Event A

module _ {A : Type 0} where
  -- A full cell is not filled again, and an empty one is not read.
  unfoldable pub observe : Event A → Cell A → Option (Cell A)
  observe silent c = some c
  observe (fills r) empty = some (filled r)
  observe (fills r) _ = none
  observe reads (filled r) = some (taken r)
  observe reads _ = none

  unfoldable pub replay : List (Event A) → Cell A → Option (Cell A)
  replay [] c = some c
  replay (e ∷ es) c = elim (observe e c) [ none ↦ none | some d ↦ replay es d ]

  abbrev pub cell_of : System A → Cell A
  cell_of s = elim s.caller [
    | returned (some r) ↦ taken r
    | _ ↦ elim s.future.result [ none ↦ empty | some r ↦ filled r ]
  ]

  abbrev pub is_full : Cell A → Bool
  is_full empty = false
  is_full _ = true

  abbrev pub stores : Worker A → Event A
  stores (setting v e) = fills (record { success = v; failure = e })
  stores _ = silent

  abbrev pub event_of : Action A → System A → Event A
  event_of store s = stores s.worker
  event_of read s = reads
  event_of await s = reads
  event_of _ s = silent

  pub events : List (Action A) → System A → List (Event A)
  events [] s = []
  events (a ∷ acts) s = elim (step a s) [ none ↦ [] | some t ↦ event_of a s ∷ events acts t ]

  observe-step :
      (a : Action A) (s : System A) {t : System A}
      → Inv s
      → step a s ≡ some t
      → observe (event_of a s) (cell_of s) ≡ some (cell_of t)
  unfolding step observe
  observe-step begin s h e = ground arith
  observe-step _ s h e = ground arith

  events-cons :
      (a : Action A) (acts : List (Action A)) (s u : System A)
      → step a s ≡ some u
      → events (a ∷ acts) s ≡ event_of a s ∷ events acts u
  unfolding events
  events-cons a acts s u h = ground arith

  replay-cons :
      (e : Event A) (es : List (Event A)) (c : Cell A) {d : Cell A}
      → observe e c ≡ some d
      → replay (e ∷ es) c ≡ replay es d
  unfolding replay
  replay-cons e es c h = ground arith

  replay-run :
      (acts : List (Action A)) (s t : System A)
      → Inv s
      → run acts s ≡ some t
      → replay (events acts s) (cell_of s) ≡ some (cell_of t)
  unfolding run replay events
  replay-run [] s t h e = ground arith
  replay-run (a ∷ acts) s t h e = elim (Option-cases (step a s)) [
    | inl stuck ↦ absurd (ground arith)
    | inr (u, went) ↦ rw (events-cons a acts s u went) (
        replay-cons (event_of a s) (events acts u) (cell_of s) (observe-step a s h went)
        ∙ replay-run acts u t (step-Inv a s h went) (ground arith))
  ]

  -- Every schedule of a new future is a schedule of the cell, seen from outside: the result is set
  -- once, to what the worker gives, and a caller of `Result` gets what was set, and never before.
  -- `HasResult` says whether the cell is filled.
  pub run_refines :
      (limit : Limit) (task : Task A) (acts : List (Action A)) (t : System A)
      → run acts (new limit task) ≡ some t
      → (replay (events acts (new limit task)) empty ≡ some (cell_of t))
        × (has_result t.future ≡ is_full (cell_of t))
  unfolding new has_result
  run_refines limit task acts t e =
      let inv = run-Inv limit task acts e in
      (replay-run acts (new limit task) t (new-Inv limit task) e, ground arith)
