-- ===== src/Future/Listeners.antt =====
-- Any number of listeners of one future (future/future.go). Each is a caller of `Result`: it steps
-- as the caller of `System` does, in the system in which it is the caller.
pub mod Sources
mod Tests
use gopack.Prelude.{
  ℕ, zero, suc, ◌≡◌, refl, ◌∙◌, Bool, true, false, List, [], ◌∷◌, ◌++◌, Option, none, some, Error,
  get_elem?, set, subst, All, All-append, All-set, All-get_elem?, if◌then◌else◌, is_some,
  Option-cases, Bool-cases, inl, inr, arith,
}
use gopack.Future.{
  Result, Future, Limit, Task, Caller, constructing, idle, returned, System, Action, begin, call,
  read, await, new, step,
}
use gopack.Future.Invariant.{CallerOk, IsOutcome, Inv, new-Inv, step-Inv}
use gopack.Future.Laws.{step-limit, result_of_set}

-- the future with its goroutine and the caller that makes it, and the listeners
pub record Shared (A : Type 0) : Type 0 where
  pub system : System A
  pub listeners : List (Caller A)

pub data Deed (A : Type 0) : Type 0 where
  of_system : Action A → Deed A
  listen : Deed A
  of_listener : ℕ → Action A → Deed A

-- the actions of a caller of `Result`
abbrev pub is_call : {A : Type 0} → Action A → Bool
is_call call = true
is_call read = true
is_call await = true
is_call _ = false

abbrev pub is_made : {A : Type 0} → Caller A → Bool
is_made constructing = false
is_made _ = true

module _ {A : Type 0} where
  -- the system with another caller
  abbrev as_caller : System A → Caller A → System A
  as_caller s c = record s { caller = c }

  listener_step : ℕ → Action A → Shared A → Option (Shared A)
  listener_step i a m = elim (get_elem? m.listeners i) [
    | none ↦ none
    | some c ↦ elim (step a (as_caller m.system c)) [
      | none ↦ none
      | some t ↦ some (record m { listeners = set m.listeners i t.caller })
    ]
  ]

  -- A listener comes when the future is made.
  pub deed_step : Deed A → Shared A → Option (Shared A)
  unfolding listener_step
  deed_step (of_system a) m = elim (step a m.system) [
    | none ↦ none
    | some t ↦ some (record m { system = t })
  ]
  deed_step listen m =
      if is_made m.system.caller
      then some (record m { listeners = m.listeners ++ idle ∷ [] })
      else none
  deed_step (of_listener i a) m = if is_call a then listener_step i a m else none

  pub deeds : List (Deed A) → Shared A → Option (Shared A)
  deeds [] m = some m
  deeds (d ∷ ds) m = elim (deed_step d m) [ none ↦ none | some n ↦ deeds ds n ]

  abbrev pub shared : Limit → Task A → Shared A
  shared limit task = record { system = new limit task; listeners = [] }

  -- a step of the system leaves what a listener may rely on
  step-CallerOk :
      (a : Action A) (s t : System A) (c : Caller A)
      → Inv s
      → step a s ≡ some t
      → CallerOk s.future c
      → CallerOk t.future c
  unfolding step
  step-CallerOk begin s t c h e k = ground arith
  step-CallerOk _ s t c h e k = ground arith

  step-future :
      (a : Action A) (s t : System A) → is_call a ≡ true → step a s ≡ some t → t.future ≡ s.future
  unfolding step
  step-future begin s t h e = ground arith
  step-future _ s t h e = ground arith

  as_caller-Inv : (s : System A) (c : Caller A) → Inv s → CallerOk s.future c → Inv (as_caller s c)
  as_caller-Inv s c h k = ground arith

  record SharedInv (limit : Limit) (m : Shared A) : Type 0 where
    inv : Inv m.system
    same_limit : m.system.limit ≡ limit
    each : All (CallerOk m.system.future) m.listeners

  All-CallerOk :
      (a : Action A) (s t : System A) (cs : List (Caller A))
      → Inv s
      → step a s ≡ some t
      → All (CallerOk s.future) cs
      → All (CallerOk t.future) cs
  All-CallerOk a s t [] h e k = tt
  All-CallerOk a s t (c ∷ cs) h e (k, ks) =
      (step-CallerOk a s t c h e k, All-CallerOk a s t cs h e ks)

  system-SharedInv :
      (limit : Limit) (a : Action A) (m : Shared A) (t : System A)
      → SharedInv limit m
      → step a m.system ≡ some t
      → SharedInv limit (record m { system = t })
  system-SharedInv limit a m t h e = record {
    inv = step-Inv a m.system h.inv e;
    same_limit = step-limit a m.system e ∙ h.same_limit;
    each = All-CallerOk a m.system t m.listeners h.inv e h.each;
  }

  -- a listener that steps gets what it may rely on
  listener-CallerOk :
      (a : Action A) (s t : System A) (c : Caller A)
      → is_call a ≡ true
      → Inv s
      → CallerOk s.future c
      → step a (as_caller s c) ≡ some t
      → CallerOk s.future t.caller
  listener-CallerOk a s t c calls h k e =
      let u = as_caller s c in
      let same = step-future a u t calls e in
      subst (λ f. CallerOk f t.caller) same (step-Inv a u (as_caller-Inv s c h k) e).caller_ok

  deed-SharedInv :
      (limit : Limit) (d : Deed A) (m n : Shared A)
      → SharedInv limit m
      → deed_step d m ≡ some n
      → SharedInv limit n
  unfolding deed_step listener_step
  deed-SharedInv limit (of_system a) m n h e = elim (Option-cases (step a m.system)) [
    | inl stuck ↦ absurd (ground arith)
    | inr (t, went) ↦
        let is : record m { system = t } ≡ n = ground arith in
        subst (SharedInv limit) is (system-SharedInv limit a m t h went)
  ]
  deed-SharedInv limit listen m n h e =
      let is : record m { listeners = m.listeners ++ idle ∷ [] } ≡ n = ground arith in
      subst (SharedInv limit) is (record {
        inv = h.inv;
        same_limit = h.same_limit;
        each = All-append (CallerOk m.system.future) m.listeners (idle ∷ []) h.each (tt, tt);
      })
  deed-SharedInv limit (of_listener i a) m n h e = elim (Option-cases (get_elem? m.listeners i)) [
    | inl gone ↦ absurd (ground arith)
    | inr (c, there) ↦ elim (Option-cases (step a (as_caller m.system c))) [
      | inl stuck ↦ absurd (ground arith)
      | inr (t, went) ↦
          let calls : is_call a ≡ true = ground arith in
          let is : record m { listeners = set m.listeners i t.caller } ≡ n = ground arith in
          let ok = All-get_elem? (CallerOk m.system.future) m.listeners i c h.each there in
          subst (SharedInv limit) is (record {
            inv = h.inv;
            same_limit = h.same_limit;
            each =
                All-set (CallerOk m.system.future) m.listeners i t.caller h.each
                  (listener-CallerOk a m.system t c calls h.inv ok went);
          })
    ]
  ]

  deeds-SharedInv :
      (limit : Limit) (ds : List (Deed A)) (m n : Shared A)
      → SharedInv limit m
      → deeds ds m ≡ some n
      → SharedInv limit n
  unfolding deeds
  deeds-SharedInv limit [] m n h e = let is : m ≡ n = ground arith in subst (SharedInv limit) is h
  deeds-SharedInv limit (d ∷ ds) m n h e = elim (Option-cases (deed_step d m)) [
    | inl stuck ↦ absurd (ground arith)
    | inr (k, went) ↦
        deeds-SharedInv limit ds k n (deed-SharedInv limit d m k h went) (ground arith)
  ]

  -- However many listeners a future has, and whenever they come and call: each listener whose
  -- `Result` has returned has the result of the future, and so the same as every other. It is not
  -- nil, and has no failure, or no message and an error, that of the timer where there is one.
  pub listeners_agree :
      (limit : Limit) (task : Task A) (ds : List (Deed A)) (m : Shared A) (i j : ℕ)
      (r q : Option (Result A))
      → deeds ds (shared limit task) ≡ some m
      → get_elem? m.listeners i ≡ some (returned r)
      → get_elem? m.listeners j ≡ some (returned q)
      → (x : Result A) × (r ≡ some x)
        × (q ≡ some x)
        × (m.system.future.result ≡ some x)
        × IsOutcome limit x.success x.failure
  unfolding new
  listeners_agree limit task ds m i j r q reached at_i at_j =
      let h =
        deeds-SharedInv limit ds (shared limit task) m
          (record { inv = new-Inv limit task; same_limit = refl; each = tt }) reached in
      let ok_i = All-get_elem? (CallerOk m.system.future) m.listeners i (returned r) h.each at_i in
      let ok_j = All-get_elem? (CallerOk m.system.future) m.listeners j (returned q) h.each at_j in
      let inv = h.inv in
      let (x, held) = result_of_set m.system.future.result (ground arith) in
      (x, ok_i.1 ∙ held, ok_j.1 ∙ held, held, ground (arith, h.same_limit))
