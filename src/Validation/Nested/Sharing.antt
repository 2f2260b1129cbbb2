-- ===== src/Validation/Nested/Sharing.antt =====
-- One chain in two places, and a chain that holds itself (validation/validation.go).
use gopack.Prelude.{
  ℕ, zero, suc, ◌≡◌, ◌≢◌, refl, sym, ap, subst, ◌∙◌, Bool, false, String, List, [], ◌∷◌, ◌++◌,
  append_assoc, Option, none, some, Error, Multierr, arith,
}
use gopack.Validation.Nested.{Node, Item, chain, Heap, validate_item, validate_items, validate_at}
use gopack.Validation.Nested.Shape.{
  Forest, chains, leaves, Spans, Once, Alike, Alike-trans, Spans-Alike, validate_item-target,
}
use gopack.Validation.Nested.Laws.{
  next, next-Alike, next-other, errors-next, reports_of, Reported, validate_items-next,
  validate_items-Reports, called,
}

-- a forest without chains
pub Once-flat : (f : Forest) → chains f ≡ [] → Once f
Once-flat Forest.nil h = tt
Once-flat (Forest.leaf v f) h = Once-flat f h
Once-flat (Forest.sub p g f) h = absurd (ground arith)

module _ (match_string : String → String → Bool) (m : Multierr) where
  -- On a chain whose first validator is the chain itself `Validate` does not come to an end.
  validate_at-cycle :
      (n p : ℕ) (h : Heap) (is : List Item)
      → (h p).items ≡ chain p ∷ is
      → validate_at match_string m n p h ≡ none
  unfolding validate_at validate_items validate_item
  validate_at-cycle zero p h is e = refl
  validate_at-cycle (suc n) p h is e = rw e (ground (arith, validate_at-cycle n p h is e))

  -- a chain that reports all errors and holds no other chain
  flat_call :
      (n q : ℕ) (f : Forest) (h : Heap)
      → chains f ≡ []
      → (h q).fail_fast ≡ false
      → Spans h f (h q).items
      → (g : Heap) × (r : Option Error) × (validate_at match_string m (suc n) q h ≡ some (g, r))
        × Reported match_string m [] (leaves f) q h g r
  flat_call n q f h flat mode spans =
      let (g, r, made, rest) =
        validate_items-Reports match_string m n q f (h q).items h (rw flat (omega arith)) spans
          (Once-flat f flat) (rw flat tt) (rw flat tt) in
      (
        g,
        r,
        called match_string m n q h mode ∙ made,
        subst (λ cs. Reported match_string m cs (leaves f) q h g r) flat rest,
      )

  -- the loop of the chain at `p`, when its next validator is a chain with no other chain in it
  shared_step :
      (n p q : ℕ) (f : Forest) (is : List Item) (h : Heap)
      → chains f ≡ []
      → p ≢ q
      → (h q).fail_fast ≡ false
      → Spans h f (h q).items
      → let call = validate_at match_string m (suc n) in
        (g : Heap) × (validate_items match_string m call p false (chain q ∷ is) h
          ≡ validate_items match_string m call p false is g)
        × Alike g h
        × (m.errors (g q).violations
            ≡ m.errors (h q).violations ++ reports_of match_string m (leaves f))
        × (m.errors (g p).violations ≡ m.errors (h p).violations ++ m.errors (g q).violations)
  shared_step n p q f is h flat apart mode spans =
      let call = validate_at match_string m (suc n) in
      let (g, r, made, rest) = flat_call n q f h flat mode spans in
      let e = next match_string m p g r in
      let e_q : (e q).violations ≡ r =
        ap (λ (c : Node). c.violations) (next-other match_string m p q g r (λ s. apart (sym s)))
        ∙ rest.kept in
      (
        e,
        validate_items-next match_string m call p (chain q) is h g r
            (validate_item-target match_string call (chain q) h ∙ made),
        Alike-trans e g h (next-Alike match_string m p g r) rest.alike,
        ap m.errors e_q ∙ rest.all_reported,
        errors-next match_string m p g r
            ∙ ap (λ (c : Node). m.errors c.violations ++ m.errors r) (rest.untouched p tt apart)
            ∙ ap (λ v. m.errors (h p).violations ++ m.errors v) (sym e_q),
      )

  -- A chain of validators that stands in another chain twice: both report all errors and have none
  -- yet. `Validate` of the outer chain returns each violation three times, since the inner chain
  -- returns what it has kept of its first call with its second.
  pub validate_at-shared :
      (n p q : ℕ) (f : Forest) (h : Heap)
      → (h p).items ≡ chain q ∷ chain q ∷ []
      → (h p).fail_fast ≡ false
      → (h q).fail_fast ≡ false
      → Spans h f (h q).items
      → chains f ≡ []
      → p ≢ q
      → (h p).violations ≡ none
      → (h q).violations ≡ none
      → let once = reports_of match_string m (leaves f) in
        (g : Heap) × (r : Option Error) × (validate_at match_string m (suc (suc n)) p h
          ≡ some (g, r))
        × (m.errors r ≡ once ++ once ++ once)
  validate_at-shared n p q f h twice mode_p mode_q spans flat apart fresh_p fresh_q =
      let call = validate_at match_string m (suc n) in
      let (g, first, alike, in_q, in_p) =
        shared_step n p q f (chain q ∷ []) h flat apart mode_q spans in
      let (k, second, _, again_q, again_p) =
        shared_step n p q f [] g flat apart (alike.same_mode q ∙ mode_q)
          (rw (alike.same_items q) (Spans-Alike g h alike f (h q).items spans)) in
      let once = reports_of match_string m (leaves f) in
      let q_once : m.errors (g q).violations ≡ once = in_q ∙ rw (fresh_q, m.errors-none) refl in
      let p_once : m.errors (g p).violations ≡ once = in_p ∙ rw (fresh_p, m.errors-none) q_once in
      (
        k,
        (k p).violations,
        called match_string m (suc n) p h mode_p
            ∙ ap (λ is. validate_items match_string m call p false is h) twice
            ∙ first
            ∙ second
            ∙ unfold validate_items in refl,
        again_p
            ∙ ap (λ es. es ++ m.errors (k q).violations) p_once
            ∙ ap (λ es. once ++ es) (again_q ∙ ap (λ es. es ++ once) q_once)
            ∙ sym (append_assoc once once once),
      )
