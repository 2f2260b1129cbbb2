-- ===== src/Future/Listeners/Sources.antt =====
-- What the listeners of a future get (future/future.go): a message of the task or an error of its
-- limit.
use mathlib.Core.List.{Mem, mem-cons_self, mem-cons_of_mem, mem-append_left, mem-append_right}
use gopack.Prelude.{
  ℕ, ◌≡◌, refl, sym, subst, ◌∙◌, Bool, true, false, List, [], ◌∷◌, ◌++◌, Option, none, some, Error,
  get_elem?, All, Option-cases, inl, inr, arith,
}
use gopack.Future.{Result, Limit, timer, context, Task, returned, send, close, cancel, new, step}
use gopack.Future.Laws.{step-limit}
use gopack.Future.Sources.{
  Comes, ResultComes, LimitComes, ClosedComes, Sourced, Brings, new-Sourced, step-Sourced,
}
use gopack.Future.Listeners.{
  Shared, Deed, of_system, listen, of_listener, listener_step, deed_step, deeds, shared,
  listeners_agree,
}

All-Mem : {X : Type 0} (P : X → Type 0) (xs : List X) → ((x : X) → Mem x xs → P x) → All P xs
All-Mem P [] f = tt
All-Mem P (x ∷ xs) f = (f x mem-cons_self, All-Mem P xs (λ y h. f y (mem-cons_of_mem x h)))

module _ {A : Type 0} where
  -- what the deeds put on the channel, a nil for its close
  abbrev pub offers : List (Deed A) → List (Option A)
  offers [] = []
  offers (of_system (send v) ∷ ds) = v ∷ offers ds
  offers (of_system close ∷ ds) = none ∷ offers ds
  offers (_ ∷ ds) = offers ds

  abbrev nil_of : Bool → List (Option A)
  nil_of true = none ∷ []
  nil_of false = []

  -- what the channel of the task can give, with nil where it is closed
  abbrev pub messages : Task A → List (Deed A) → List (Option A)
  messages task ds = task.sent ++ (nil_of task.closed ++ offers ds)

  abbrev pub cancelled : List (Deed A) → List Error
  cancelled [] = []
  cancelled (of_system (cancel e) ∷ ds) = e ∷ cancelled ds
  cancelled (_ ∷ ds) = cancelled ds

  -- the error of the timer, or those with which the context is cancelled
  abbrev pub failures : Limit → List (Deed A) → List Error
  failures (timer e) ds = e ∷ []
  failures context ds = cancelled ds

  module _ (Message : Option A → Type 0) (Failure : Error → Type 0) (limit : Limit) where
    abbrev DeedBrings : Deed A → Type 0
    DeedBrings (of_system a) = Brings Message Failure limit a
    DeedBrings _ = Unit

    deed-Sourced :
        (d : Deed A) (m n : Shared A)
        → DeedBrings d
        → m.system.limit ≡ limit
        → Sourced Message Failure m.system
        → deed_step d m ≡ some n
        → Sourced Message Failure n.system × (n.system.limit ≡ limit)
    unfolding deed_step listener_step
    deed-Sourced (of_system a) m n b l h e = elim (Option-cases (step a m.system)) [
      | inl stuck ↦ absurd (ground arith)
      | inr (t, went) ↦
          let is : t ≡ n.system = ground arith in
          (
            subst (Sourced Message Failure) is (
                step-Sourced Message Failure a m.system t
                  (subst (λ k. Brings Message Failure k a) (sym l) b) h went),
            subst (λ u. u.limit ≡ limit) is (step-limit a m.system went ∙ l),
          )
    ]
    deed-Sourced listen m n b l h e =
        let is : m.system ≡ n.system = ground arith in
        (subst (Sourced Message Failure) is h, subst (λ u. u.limit ≡ limit) is l)
    deed-Sourced (of_listener i a) m n b l h e =
        let is : m.system ≡ n.system = ground arith in
        (subst (Sourced Message Failure) is h, subst (λ u. u.limit ≡ limit) is l)

    deeds-Sourced :
        (ds : List (Deed A)) (m n : Shared A)
        → All DeedBrings ds
        → m.system.limit ≡ limit
        → Sourced Message Failure m.system
        → deeds ds m ≡ some n
        → Sourced Message Failure n.system
    unfolding deeds
    deeds-Sourced [] m n b l h e =
        let is : m ≡ n = ground arith in subst (λ k. Sourced Message Failure k.system) is h
    deeds-Sourced (d ∷ ds) m n (b, bs) l h e = elim (Option-cases (deed_step d m)) [
      | inl stuck ↦ absurd (ground arith)
      | inr (k, went) ↦
          let (s, same) = deed-Sourced d m k b l h went in
          deeds-Sourced ds k n bs same s (ground arith)
    ]

  offers-later :
      (d : Deed A) (ds : List (Deed A)) (v : Option A) → Mem v (offers ds) → Mem v (offers (d ∷ ds))
  offers-later (of_system (send w)) ds v h = mem-cons_of_mem w h
  offers-later (of_system close) ds v h = mem-cons_of_mem none h
  offers-later (of_system _) ds v h = h
  offers-later listen ds v h = h
  offers-later (of_listener i a) ds v h = h

  failures-later :
      (limit : Limit) (d : Deed A) (ds : List (Deed A)) (e : Error)
      → Mem e (failures limit ds)
      → Mem e (failures limit (d ∷ ds))
  failures-later (timer x) d ds e h = h
  failures-later context (of_system (cancel x)) ds e h = mem-cons_of_mem x h
  failures-later context (of_system _) ds e h = h
  failures-later context listen ds e h = h
  failures-later context (of_listener i a) ds e h = h

  module _ (Message : Option A → Type 0) (Failure : Error → Type 0) where
    first-DeedBrings :
        (limit : Limit) (d : Deed A) (ds : List (Deed A))
        → ((v : Option A) → Mem v (offers (d ∷ ds)) → Message v)
        → ((e : Error) → Mem e (failures limit (d ∷ ds)) → Failure e)
        → DeedBrings Message Failure limit d
    first-DeedBrings limit (of_system (send w)) ds f g = f w mem-cons_self
    first-DeedBrings limit (of_system close) ds f g = f none mem-cons_self
    first-DeedBrings context (of_system (cancel x)) ds f g = g x mem-cons_self
    first-DeedBrings (timer x) (of_system (cancel y)) ds f g = tt
    first-DeedBrings limit (of_system _) ds f g = tt
    first-DeedBrings limit listen ds f g = tt
    first-DeedBrings limit (of_listener i a) ds f g = tt

    -- Deeds bring what is among their messages and failures.
    All-DeedBrings :
        (limit : Limit) (ds : List (Deed A))
        → ((v : Option A) → Mem v (offers ds) → Message v)
        → ((e : Error) → Mem e (failures limit ds) → Failure e)
        → All (DeedBrings Message Failure limit) ds
    All-DeedBrings limit [] f g = tt
    All-DeedBrings limit (d ∷ ds) f g = (
      first-DeedBrings limit d ds f g,
      All-DeedBrings limit ds (λ v h. f v (offers-later d ds v h))
          (λ e h. g e (failures-later limit d ds e h)),
    )

  limit-Comes :
      (Message : Option A → Type 0) (limit : Limit) (ds : List (Deed A))
      → LimitComes Message (λ e. Mem e (failures limit ds)) limit
  limit-Comes Message (timer e) ds = mem-cons_self
  limit-Comes Message context ds = tt

  closed-Comes :
      (Failure : Error → Type 0) (sent : List (Option A)) (closed : Bool) (rest : List (Option A))
      → ClosedComes (λ v. Mem v (sent ++ (nil_of closed ++ rest))) Failure closed
  closed-Comes Failure sent true rest = mem-append_right sent mem-cons_self
  closed-Comes Failure sent false rest = tt

  module _ (limit : Limit) (task : Task A) (ds : List (Deed A)) where
    abbrev pub IsMessage : Option A → Type 0
    IsMessage v = Mem v (messages task ds)

    abbrev pub IsFailure : Error → Type 0
    IsFailure e = Mem e (failures limit ds)

    -- However many listeners a future has, and whenever they come and call: each listener whose
    -- `Result` has returned has the result of the future, and so the same as every other. It is not
    -- nil. With no failure it has a message that was sent on the task's channel, or nil where the
    -- channel was closed; with a failure it has no message, and the failure is the error of the
    -- timer, or one with which the context was cancelled.
    pub listeners_agree-Comes :
        (m : Shared A) (i j : ℕ) (r q : Option (Result A))
        → deeds ds (shared limit task) ≡ some m
        → get_elem? m.listeners i ≡ some (returned r)
        → get_elem? m.listeners j ≡ some (returned q)
        → (x : Result A) × (r ≡ some x)
          × (q ≡ some x)
          × (m.system.future.result ≡ some x)
          × Comes IsMessage IsFailure x.success x.failure
    unfolding new
    listeners_agree-Comes m i j r q reached at_i at_j =
        let (x, is_r, is_q, held, ok) = listeners_agree limit task ds m i j r q reached at_i at_j in
        let source =
          deeds-Sourced IsMessage IsFailure limit ds (shared limit task) m
            (All-DeedBrings IsMessage IsFailure limit ds
              (λ v h. mem-append_right task.sent (mem-append_right (nil_of task.closed) h))
              (λ e h. h))
            refl
            (new-Sourced IsMessage IsFailure limit task (limit-Comes IsMessage limit ds)
              (All-Mem IsMessage task.sent (λ v h. mem-append_left _ h))
              (closed-Comes IsFailure task.sent task.closed (offers ds)))
            reached in
        (x, is_r, is_q, held, subst (ResultComes IsMessage IsFailure) held source.result)
