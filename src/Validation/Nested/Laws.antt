-- ===== src/Validation/Nested/Laws.antt =====
-- A chain of chains against one chain of all their validators (validation/validation.go).
use gopack.Prelude.{
  ℕ, zero, suc, ◌≤◌, ◌≡◌, ◌≢◌, refl, sym, ap, ◌∙◌, Bool, false, String, List, [], ◌∷◌, ◌++◌,
  append-nil, append_assoc, Option, none, some, Error, Multierr, All, All-split, All-zip, length,
  length-append, arith,
}
use mathlib.Core.List.{map-append}
use gopack.Errorschain.Laws.{reports}
use gopack.Validation.{Validator, Chain, validate, validate_chain}
use gopack.Validation.Laws.{results, reports-append, validate_chain-all_errors}
use gopack.Validation.Nested.{
  Item, Node, Heap, Result, store, validate_item, validate_items, validate_at,
}
use gopack.Validation.Nested.Shape.{
  Forest, nil, leaf, sub, chains, leaves, NotIn, Spans, Once, Fresh, Alike, Spans-Alike,
  Alike-trans, Alike-store, store_self, store_other, validate_item-target, Fresh-of,
}

module _ (match_string : String → String → Bool) (m : Multierr) where
  -- what the loop does with an item's result
  abbrev pub next : ℕ → Heap → Option Error → Heap
  next p g none = g
  next p g (some e) = store p (m.append (g p).violations (some e)) g

  pub validate_items-next :
      (call : ℕ → Heap → Result) (p : ℕ) (i : Item) (is : List Item) (h g : Heap) (r : Option Error)
      → validate_item match_string call i h ≡ some (g, r)
      → validate_items match_string m call p false (i ∷ is) h
        ≡ validate_items match_string m call p false is (next p g r)
  unfolding validate_items
  validate_items-next call p i is h g none e = ground arith
  validate_items-next call p i is h g (some x) e = ground arith

  pub next-Alike : (p : ℕ) (g : Heap) (r : Option Error) → Alike (next p g r) g
  next-Alike p g none = record { same_mode = λ q. refl; same_items = λ q. refl }
  next-Alike p g (some e) = Alike-store p (m.append (g p).violations (some e)) g

  pub next-other : (p q : ℕ) (g : Heap) (r : Option Error) → q ≢ p → next p g r q ≡ g q
  next-other p q g none n = refl
  next-other p q g (some e) n =
      store_other p q (m.append (g p).violations (some e)) g (λ s. n (sym s))

  pub errors-next :
      (p : ℕ) (g : Heap) (r : Option Error)
      → m.errors (next p g r p).violations ≡ m.errors (g p).violations ++ m.errors r
  errors-next p g none = rw m.errors-none (sym (append-nil _))
  errors-next p g (some e) =
      ap m.errors (store_self p (m.append (g p).violations (some e)) g)
      ∙ m.errors-append (g p).violations (some e)

  abbrev pub reports_of : List Validator → List Error
  reports_of vs = reports m (results match_string m vs)

  -- what the loop of the chain at `p` makes of the heap `h` and returns, when the chains below it are
  -- `cs` and their validators `vs`
  pub record Reported (cs : List ℕ) (vs : List Validator) (p : ℕ) (h g : Heap) (r : Option Error)
      : Type 0 where
    pub alike : Alike g h
    pub kept : (g p).violations ≡ r
    pub untouched : (q : ℕ) → NotIn q cs → q ≢ p → g q ≡ h q
    pub all_reported : m.errors r ≡ m.errors (h p).violations ++ reports_of vs

  -- one item, and then the rest of the loop
  Reported-next :
      (cs ds : List ℕ) (vs ws : List Validator) (p : ℕ) (h g g' : Heap) (r r' : Option Error)
      → Alike g h
      → NotIn p cs
      → ((q : ℕ) → NotIn q cs → g q ≡ h q)
      → m.errors r ≡ reports_of vs
      → Reported ds ws p (next p g r) g' r'
      → Reported (cs ++ ds) (vs ++ ws) p h g' r'
  Reported-next cs ds vs ws p h g g' r r' alike apart keeps errs rest = record {
    alike =
        Alike-trans g' (next p g r) h rest.alike
          (Alike-trans (next p g r) g h (next-Alike p g r) alike);
    kept = rest.kept;
    untouched = λ q off n.
        let (in_cs, in_ds) = All-split (λ x. x ≢ q) cs ds off in
        rest.untouched q in_ds n ∙ next-other p q g r n ∙ keeps q in_cs;
    all_reported =
        rest.all_reported
        ∙ ap (λ es. es ++ reports_of ws) (errors-next p g r)
        ∙ append_assoc (m.errors (g p).violations) (m.errors r) (reports_of ws)
        ∙ ap (λ es. es ++ (m.errors r ++ reports_of ws))
            (ap (λ (c : Node). m.errors c.violations) (keeps p apart))
        ∙ ap (λ es. m.errors (h p).violations ++ (es ++ reports_of ws)) errs
        ∙ ap (λ es. m.errors (h p).violations ++ es)
            (sym (
              ap (reports m) (map-append (validate match_string) vs ws)
              ∙ reports-append match_string m (results match_string m vs)
                  (results match_string m ws)));
  }

  abbrev pub Reports : Forest → ℕ → Heap → Result → Type 0
  Reports f p h res =
      (g : Heap) × (r : Option Error) × (res ≡ some (g, r)) × Reported (chains f) (leaves f) p h g r

  -- a heap in which a chain stored what an item returned, for the rest of the forest
  Fresh-next :
      (p q : ℕ) (e f : Forest) (h g : Heap) (r : Option Error)
      → NotIn p (chains f)
      → NotIn q (chains f)
      → All (λ x. NotIn x (chains e)) (chains f)
      → ((x : ℕ) → NotIn x (chains e) → x ≢ q → g x ≡ h x)
      → Fresh h f
      → Fresh (next p g r) f
  Fresh-next p q e f h g r not_p not_q apart keeps fresh =
      Fresh-of (next p g r) h (λ x. (x ≢ p) × ((x ≢ q) × NotIn x (chains e)))
        (λ x off. next-other p x g r off.0 ∙ keeps x off.1.1 off.1.0) (chains f)
        (All-zip (λ x. x ≢ p) (λ x. (x ≢ q) × NotIn x (chains e)) (chains f) not_p
          (All-zip (λ x. x ≢ q) (λ x. NotIn x (chains e)) (chains f) not_q apart))
        fresh

  pub called :
      (k q : ℕ) (h : Heap)
      → (h q).fail_fast ≡ false
      → validate_at match_string m (suc k) q h
        ≡ validate_items match_string m (validate_at match_string m k) q false (h q).items h
  unfolding validate_at
  called k q h mode = rw mode refl

  pub validate_items-Reports :
      (n p : ℕ) (f : Forest) (is : List Item) (h : Heap)
      → length (chains f) ≤ n
      → Spans h f is
      → Once f
      → Fresh h f
      → NotIn p (chains f)
      → Reports f p h (validate_items match_string m (validate_at match_string m n) p false is h)
  validate_items-Reports n p nil [] h few s o fr apart = (
    h,
    (h p).violations,
    unfold validate_items in refl,
    record {
      alike = record { same_mode = λ q. refl; same_items = λ q. refl };
      kept = refl;
      untouched = λ q a b. refl;
      all_reported = sym (append-nil _);
    },
  )
  validate_items-Reports n p nil (i ∷ is) h few s o fr apart = absurd s
  validate_items-Reports n p (leaf v f) [] h few s o fr apart = absurd s
  validate_items-Reports n p (leaf v f) (i ∷ is) h few (t, s) o fr apart =
      let r = validate match_string v in
      let call = validate_at match_string m n in
      let item : validate_item match_string call i h ≡ some (h, r) =
        validate_item-target match_string call i h ∙ rw t refl in
      let (g, r', eq, rest) =
        validate_items-Reports n p f is (next p h r) few
          (Spans-Alike (next p h r) h (next-Alike p h r) f is s) o
          (Fresh-of (next p h r) h (λ x. x ≢ p) (λ x off. next-other p x h r off) (chains f) apart
            fr)
          apart in
      (
        g,
        r',
        validate_items-next call p i is h h r item ∙ eq,
        Reported-next [] (chains f) (v ∷ []) (leaves f) p h h g r r'
            (record { same_mode = λ q. refl; same_items = λ q. refl }) tt (λ q off. refl)
            (sym (append-nil (m.errors r))) rest,
      )
  validate_items-Reports n p (sub q e f) [] h few s o fr apart = absurd s
  validate_items-Reports zero p (sub q e f) (i ∷ is) h few s o fr apart = absurd (omega arith)
  validate_items-Reports (suc k) p (sub q e f) (i ∷ is) h few (t, mode, below, s)
        (not_q, apart_ef, once_e, once_f) (fresh_q, fr) (q_not_p, apart) =
      let call = validate_at match_string m (suc k) in
      let (not_q_e, not_q_f) = All-split (λ x. x ≢ q) (chains e) (chains f) not_q in
      let (not_p_e, not_p_f) = All-split (λ x. x ≢ p) (chains e) (chains f) apart in
      let (fresh_e, fresh_f) = All-split (λ x. (h x).violations ≡ none) (chains e) (chains f) fr in
      let lengths = length-append (chains e) (chains f) in
      let (g, r, made, inner) =
        validate_items-Reports k q e (h q).items h (omega (arith, lengths)) below once_e fresh_e
          not_q_e in
      let item : validate_item match_string call i h ≡ some (g, r) =
        validate_item-target match_string call i h ∙ rw t (called k q h mode ∙ made) in
      let errs : m.errors r ≡ reports_of (leaves e) =
        inner.all_reported ∙ rw (fresh_q, m.errors-none) refl in
      let (g', r', eq, rest) =
        validate_items-Reports (suc k) p f is (next p g r) (omega (arith, lengths))
          (Spans-Alike (next p g r) h (Alike-trans (next p g r) g h (next-Alike p g r) inner.alike)
            f is s)
          once_f (Fresh-next p q e f h g r not_p_f not_q_f apart_ef inner.untouched fresh_f)
          not_p_f in
      (
        g',
        r',
        validate_items-next call p i is h g r item ∙ eq,
        Reported-next (q ∷ chains e) (chains f) (leaves e) (leaves f) p h g g' r r' inner.alike
            (q_not_p, not_p_e) (λ x off. inner.untouched x off.1 (λ same. off.0 (sym same))) errs
            rest,
      )

  -- A chain, and all chains below it, that report all errors and have none yet, when no chain stands
  -- below it twice, also under conditions: with as much fuel as there are chains `Validate` returns
  -- what one chain with all their validators, in the order of a walk through them, returns; it
  -- keeps that as its violations, and of a chain that is not among these changes nothing.
  pub validate_at-flat :
      (n p : ℕ) (f : Forest) (h : Heap)
      → length (chains f) ≤ n
      → (h p).fail_fast ≡ false
      → Spans h f (h p).items
      → Once f
      → (h p).violations ≡ none
      → Fresh h f
      → NotIn p (chains f)
      → let flat : Chain = record { fail_fast = false; validators = leaves f; violations = none } in
        (g : Heap) × (r : Option Error) × (validate_at match_string m (suc n) p h ≡ some (g, r))
        × (m.errors r ≡ m.errors (validate_chain match_string m flat).1)
        × ((g p).violations ≡ r)
        × ((q : ℕ) → NotIn q (p ∷ chains f) → g q ≡ h q)
  validate_at-flat n p f h few mode spans once fresh_p fresh apart =
      let flat : Chain = record { fail_fast = false; validators = leaves f; violations = none } in
      let (g, r, made, rest) =
        validate_items-Reports n p f (h p).items h few spans once fresh apart in
      (
        g,
        r,
        called n p h mode ∙ made,
        rest.all_reported
            ∙ rw (fresh_p) (sym (validate_chain-all_errors match_string m flat refl).0),
        rest.kept,
        λ q off. rest.untouched q off.1 (λ same. off.0 (sym same)),
      )
