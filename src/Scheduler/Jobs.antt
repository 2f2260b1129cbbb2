-- ===== src/Scheduler/Jobs.antt =====
-- The map of jobs under their ids (scheduler/scheduler.go).
use gopack.Prelude.{◌≡◌, ◌≢◌, refl, String, List, [], ◌∷◌, ◌++◌, none, some, arith}
use text.Mathlib.TextEquality.{eq_iff}
use gopack.Scheduler.{Job, find, insert}

module _ {C : Type 0} where
  -- no id twice
  abbrev pub Unique : List (String × Job C) → Type 0
  Unique [] = Unit
  Unique ((k, j) ∷ m) = (find k m ≡ none) × Unique m

  pub insert-new :
      (id : String) (job : Job C) (m : List (String × Job C))
      → find id m ≡ none
      → insert id job m ≡ m ++ (id, job) ∷ []
  unfolding insert find
  insert-new id job [] h = refl
  insert-new id job ((k, j) ∷ m) h = ground (arith, insert-new id job m)

  find-append_other :
      (k id : String) (job : Job C) (m : List (String × Job C))
      → find k m ≡ none
      → k ≢ id
      → find k (m ++ (id, job) ∷ []) ≡ none
  unfolding find
  find-append_other k id job [] h n = ground (arith, eq_iff id k)
  find-append_other k id job ((l, j) ∷ m) h n =
      ground (arith, find-append_other k id job m, eq_iff l k)

  pub find-append :
      (id : String) (job : Job C) (m : List (String × Job C))
      → find id m ≡ none
      → find id (m ++ (id, job) ∷ []) ≡ some job
  unfolding find
  find-append id job [] h = ground (arith, eq_iff id id)
  find-append id job ((l, j) ∷ m) h = ground (arith, find-append id job m)

  pub Unique-append :
      (id : String) (job : Job C) (m : List (String × Job C))
      → Unique m
      → find id m ≡ none
      → Unique (m ++ (id, job) ∷ [])
  unfolding find
  Unique-append id job [] u h = (refl, tt)
  Unique-append id job ((k, j) ∷ m) (fresh, u) h = (
    find-append_other k id job m fresh (λ e. ground (arith, eq_iff k id)),
    Unique-append id job m u (ground arith),
  )
