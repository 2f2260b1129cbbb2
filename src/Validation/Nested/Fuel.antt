-- ===== src/Validation/Nested/Fuel.antt =====
-- More fuel changes no result of `Validate` (validation/validation.go).
use gopack.Prelude.{
  ℕ, zero, suc, ◌+◌, ◌≡◌, ◌⊎◌, sym, subst, ◌∙◌, Bool, true, false, String, List, [], ◌∷◌, Option,
  none, some, Error, Multierr, arith, Option-cases, inl, inr,
}
use gopack.Validation.Nested.{
  Item, plain, chain, guarded, Heap, Result, store, validate_item, validate_items, validate_at,
}

module _ (match_string : String → String → Bool) (m : Multierr) where
  -- what the loop goes on with behind an item: a heap, or it is over
  abbrev pub behind : ℕ → Bool → Heap → Option Error → Heap ⊎ (Heap × Error)
  behind p fast g none = inl g
  behind p true g (some e) = inr (g, e)
  behind p false g (some e) = inl (store p (m.append (g p).violations (some e)) g)

  pub validate_items-on :
      (call : ℕ → Heap → Result) (p : ℕ) (fast : Bool) (i : Item) (is : List Item) (h g : Heap)
      (r : Option Error)
      → validate_item match_string call i h ≡ some (g, r)
      → validate_items match_string m call p fast (i ∷ is) h ≡ (elim (behind p fast g r) [
        | inl e ↦ validate_items match_string m call p fast is e
        | inr (e, x) ↦ some (e, some x)
      ])
  unfolding validate_items
  validate_items-on call p fast i is h g none made = ground arith
  validate_items-on call p true i is h g (some e) made = ground arith
  validate_items-on call p false i is h g (some e) made = ground arith

  -- what the one returns, the other returns
  abbrev pub Refines : (ℕ → Heap → Result) → (ℕ → Heap → Result) → Type 0
  Refines call call' =
      (p : ℕ) (h : Heap) (x : Heap × Option Error) → call p h ≡ some x → call' p h ≡ some x

  item-Refines :
      (call call' : ℕ → Heap → Result)
      → Refines call call'
      → (i : Item) (h : Heap) (x : Heap × Option Error)
      → validate_item match_string call i h ≡ some x
      → validate_item match_string call' i h ≡ some x
  unfolding validate_item
  item-Refines call call' f (plain v) h x e = e
  item-Refines call call' f (chain p) h x e = f p h x e
  item-Refines call call' f (guarded true i) h x e = item-Refines call call' f i h x e
  item-Refines call call' f (guarded false i) h x e = e

  items-Refines :
      (call call' : ℕ → Heap → Result)
      → Refines call call'
      → (p : ℕ) (fast : Bool) (is : List Item) (h : Heap) (x : Heap × Option Error)
      → validate_items match_string m call p fast is h ≡ some x
      → validate_items match_string m call' p fast is h ≡ some x
  items-Refines call call' f p fast [] h x e = unfold validate_items in e
  items-Refines call call' f p fast (i ∷ is) h x e =
      elim (Option-cases (validate_item match_string call i h)) [
        | inl stuck ↦ absurd (unfold validate_items in ground arith)
        | inr ((g, r), made) ↦
            let made' = item-Refines call call' f i h (g, r) made in
            validate_items-on call' p fast i is h g r made'
            ∙ go (items-Refines call call' f p fast is) (behind p fast g r)
                (sym (validate_items-on call p fast i is h g r made) ∙ e)
      ]
    where
      go :
          ((k : Heap) (x : Heap × Option Error)
            → validate_items match_string m call p fast is k ≡ some x
            → validate_items match_string m call' p fast is k ≡ some x)
          → (b : Heap ⊎ (Heap × Error))
          → (elim b [
            | inl e ↦ validate_items match_string m call p fast is e
            | inr (e, x) ↦ some (e, some x)
          ])
            ≡ some x
          → (elim b [
            | inl e ↦ validate_items match_string m call' p fast is e
            | inr (e, x) ↦ some (e, some x)
          ])
            ≡ some x
      go rest (inl k) e = rest k x e
      go rest (inr (k, y)) e = e

  Refines-suc :
      (n : ℕ) → Refines (validate_at match_string m n) (validate_at match_string m (suc n))
  unfolding validate_at
  Refines-suc zero p h x e = absurd (ground arith)
  Refines-suc (suc n) p h x e =
      items-Refines (validate_at match_string m n) (validate_at match_string m (suc n))
        (Refines-suc n) p (h p).fail_fast (h p).items h x e

  pub Refines-add :
      (k n : ℕ) → Refines (validate_at match_string m n) (validate_at match_string m (k + n))
  Refines-add zero n p h x e =
      subst (λ j. validate_at match_string m j p h ≡ some x) (omega arith) e
  Refines-add (suc k) n p h x e =
      subst (λ j. validate_at match_string m j p h ≡ some x)
        (let s : suc (k + n) ≡ suc k + n = omega arith in s)
        (Refines-suc (k + n) p h x (Refines-add k n p h x e))
