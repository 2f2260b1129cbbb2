-- ===== src/Validation/Nested/Termination.antt =====
-- When `Validate` of a chain of chains comes to an end (validation/validation.go).
use gopack.Prelude.{
  ℕ, zero, suc, ◌+◌, ◌-◌, ◌<◌, ◌≡◌, refl, subst, ◌∙◌, Bool, true, false, String, List, [], ◌∷◌,
  Option, none, some, Error, Multierr, All, arith,
}
use gopack.Validation.{validate}
use gopack.Validation.Nested.{
  Item, plain, chain, guarded, Heap, Result, store, validate_item, validate_items, validate_at,
}
use gopack.Validation.Nested.Fuel.{validate_items-on, Refines-add}
use gopack.Validation.Nested.Shape.{Alike, Alike-trans, Alike-store}

-- Behind its conditions, if all of them hold, an item is a chain of a lower rank, or no chain.
abbrev pub Below : (ℕ → ℕ) → ℕ → Item → Type 0
Below rank k (plain v) = Unit
Below rank k (chain p) = rank p < k
Below rank k (guarded true i) = Below rank k i
Below rank k (guarded false i) = Unit

-- Each chain holds chains of a lower rank only: no chain is reached from itself.
abbrev pub Ranked : (ℕ → ℕ) → Heap → Type 0
Ranked rank h = (p : ℕ) → All (Below rank (rank p)) (h p).items

Ranked-Alike : (rank : ℕ → ℕ) (g h : Heap) → Alike g h → Ranked rank h → Ranked rank g
Ranked-Alike rank g h a r p = rw (a.same_items p) (r p)

-- a call that returns, and leaves the chains as they were but for their violations
abbrev pub Returns : (ℕ → Heap → Result) → ℕ → Heap → Type 0
Returns call p h = (g : Heap) × (r : Option Error) × (call p h ≡ some (g, r)) × Alike g h

module _ (match_string : String → String → Bool) (m : Multierr) (rank : ℕ → ℕ) where
  -- every chain below `k` returns
  abbrev Good : (ℕ → Heap → Result) → ℕ → Type 0
  Good call k = (p : ℕ) (h : Heap) → Ranked rank h → rank p < k → Returns call p h

  item-Returns :
      (call : ℕ → Heap → Result) (k : ℕ)
      → Good call k
      → (i : Item) (h : Heap) → Ranked rank h
      → Below rank k i
      → (g : Heap) × (r : Option Error) × (validate_item match_string call i h ≡ some (g, r))
        × Alike g h
  unfolding validate_item
  item-Returns call k good (plain v) h ranked b =
      (h, validate match_string v, refl, record { same_mode = λ q. refl; same_items = λ q. refl })
  item-Returns call k good (chain p) h ranked b = good p h ranked b
  item-Returns call k good (guarded true i) h ranked b = item-Returns call k good i h ranked b
  item-Returns call k good (guarded false i) h ranked b =
      (h, none, refl, record { same_mode = λ q. refl; same_items = λ q. refl })

  items-Returns :
      (call : ℕ → Heap → Result) (k p : ℕ) (fast : Bool)
      → Good call k
      → (is : List Item) (h : Heap) → Ranked rank h
      → All (Below rank k) is
      → (g : Heap) × (r : Option Error) × (validate_items match_string m call p fast is h
          ≡ some (g, r))
        × Alike g h
  items-Returns call k p fast good [] h ranked bs = (
    h,
    (h p).violations,
    unfold validate_items in refl,
    record { same_mode = λ q. refl; same_items = λ q. refl },
  )
  items-Returns call k p fast good (i ∷ is) h ranked (b, bs) =
      go fast (items-Returns call k p fast good is) (item-Returns call k good i h ranked b)
    where
      go :
          (mode : Bool)
          → ((g : Heap)
              → Ranked rank g
              → All (Below rank k) is
              → (e : Heap) × (r : Option Error) × (validate_items match_string m call p mode is g
                  ≡ some (e, r))
                × Alike e g)
          → (g : Heap) × (r : Option Error) × (validate_item match_string call i h ≡ some (g, r))
            × Alike g h
          → (g : Heap) × (r : Option Error) × (validate_items match_string m call p mode (i ∷ is) h
              ≡ some (g, r))
            × Alike g h
      go mode rest (g, none, made, a) =
          let (e, r, eq, c) = rest g (Ranked-Alike rank g h a ranked) bs in
          (
            e,
            r,
            validate_items-on match_string m call p mode i is h g none made ∙ eq,
            Alike-trans e g h c a,
          )
      go true rest (g, some x, made, a) =
          (g, some x, validate_items-on match_string m call p true i is h g (some x) made, a)
      go false rest (g, some x, made, a) =
          let s = store p (m.append (g p).violations (some x)) g in
          let b' = Alike-trans s g h (Alike-store p (m.append (g p).violations (some x)) g) a in
          let (e, r, eq, c) = rest s (Ranked-Alike rank s h b' ranked) bs in
          (
            e,
            r,
            validate_items-on match_string m call p false i is h g (some x) made ∙ eq,
            Alike-trans e s h c b',
          )

  Good-validate_at : (n : ℕ) → Good (validate_at match_string m n) n
  unfolding validate_at
  Good-validate_at zero p h ranked l = absurd (omega arith)
  Good-validate_at (suc n) p h ranked l =
      items-Returns (validate_at match_string m n) (rank p) p (h p).fail_fast
        (λ q e r k. Good-validate_at n q e r (omega arith)) (h p).items h ranked (ranked p)

  -- Where no chain is reached from itself, `Validate` of each chain returns, whatever the modes, the
  -- violations that are there, and the chains that stand in several places. Its result is the one
  -- for the chain's rank and one more as fuel, for every fuel above the rank, and no chain changes in
  -- more than its violations.
  pub validate_at-Ranked :
      (n p : ℕ) (h : Heap)
      → Ranked rank h
      → rank p < n
      → (g : Heap) × (r : Option Error) × (validate_at match_string m n p h ≡ some (g, r))
        × (validate_at match_string m (suc (rank p)) p h ≡ some (g, r))
        × Alike g h
  validate_at-Ranked n p h ranked l =
      let k = suc (rank p) in
      let (g, r, made, alike) = Good-validate_at k p h ranked (omega arith) in
      let sum : (n - k) + k ≡ n = omega arith in
      (
        g,
        r,
        subst (λ j. validate_at match_string m j p h ≡ some (g, r)) sum
            (Refines-add match_string m (n - k) k p h (g, r) made),
        made,
        alike,
      )
