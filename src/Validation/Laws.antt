-- ===== src/Validation/Laws.antt =====
-- What a validation chain reports (validation/validation.go).
use gopack.Prelude.{
  ◌≡◌, refl, ◌↔◌, sym, ◌∙◌, ap, Bool, true, false, String, List, [], ◌∷◌, ◌++◌, append-nil,
  append_assoc, Option, none, some, Error, message, Multierr, All, arith, map,
}
use mathlib.Core.List.{map-append}
use gopack.Errorschain.{
  ChainOption, return_first, return_all, apply_options, new, add_errors, error_from, error,
}
use gopack.Errorschain.Laws.{
  IsNil, reports, error_from-eq-none, error_from-first, errors-error_from,
}
use gopack.Validation.{
  Validator, boolean, Chain, validate, validate_from, validate_chain, add_assertion,
  new_boolean_validator, validate_boolean,
}

-- the option of an error chain for the mode of a validation chain
abbrev pub mode : Bool → ChainOption
mode true = return_first
mode false = return_all

module _ (match_string : String → String → Bool) (m : Multierr) where
  abbrev pub results : List Validator → List (Option Error)
  results vs = map (validate match_string) vs

  result-error_from :
      (fast : Bool) (acc : Option Error) (vs : List Validator)
      → (validate_from match_string m fast acc vs).1 ≡ error_from m fast acc (results vs)
  unfolding validate_from error_from
  result-error_from fast acc [] = refl
  result-error_from fast acc (v ∷ vs) = ground (
    arith,
    result-error_from fast acc vs,
    result-error_from fast (m.append acc (validate match_string v)) vs,
  )

  abbrev kept : Bool → Option Error → Option Error → Option Error
  kept true acc result = acc
  kept false acc result = result

  -- A fail-fast chain keeps its violations; any other stores what it returns.
  violations-validate_from :
      (fast : Bool) (acc : Option Error) (vs : List Validator)
      → let r = validate_from match_string m fast acc vs in r.0 ≡ kept fast acc r.1
  unfolding validate_from
  violations-validate_from true acc [] = refl
  violations-validate_from false acc [] = refl
  violations-validate_from true acc (v ∷ vs) = ground (arith, violations-validate_from true acc vs)
  violations-validate_from false acc (v ∷ vs) = ground (
    arith,
    violations-validate_from false acc vs,
    violations-validate_from false (m.append acc (validate match_string v)) vs,
  )

  stored :
      (fast : Bool) (acc : Option Error) (vs : List Validator)
      → fast ≡ false
      → let r = validate_from match_string m fast acc vs in r.0 ≡ r.1
  stored fast acc vs all = ground (arith, violations-validate_from fast acc vs)

  pub reports-append :
      (xs ys : List (Option Error)) → reports m (xs ++ ys) ≡ reports m xs ++ reports m ys
  reports-append [] ys = refl
  reports-append (x ∷ xs) ys =
      rw (reports-append xs ys) (sym (append_assoc (m.errors x) (reports m xs) (reports m ys)))

  -- what one more assertion reports
  reports-boolean :
      (b : Bool) (msg : String)
      → reports m (results (boolean b msg ∷ []))
        ≡ m.errors (elim b [ true ↦ none | false ↦ some (message msg) ])
  unfolding validate validate_boolean
  reports-boolean true msg = append-nil _
  reports-boolean false msg = append-nil _

  validate_chain-error_from :
      (c : Chain)
      → (validate_chain match_string m c).1
        ≡ error_from m c.fail_fast c.violations (results c.validators)
  unfolding validate_chain
  validate_chain-error_from c = result-error_from c.fail_fast c.violations c.validators

  -- A validation chain without violations returns what an error chain returns that is made with the
  -- option of its mode and to which the results of its validators are added, in their order.
  pub validate_chain-error :
      (c : Chain)
      → c.violations ≡ none
      → (validate_chain match_string m c).1
        ≡ error m (add_errors (results c.validators) (new (mode c.fail_fast ∷ [])))
  unfolding error new apply_options add_errors return_first return_all
  validate_chain-error c fresh = ground (arith, fresh, validate_chain-error_from c)

  -- A chain without violations reports nil exactly when each of its validators does, in either
  -- mode.
  pub validate_chain-none_iff :
      (c : Chain)
      → c.violations ≡ none
      → ((validate_chain match_string m c).1 ≡ none) ↔ All IsNil (results c.validators)
  validate_chain-none_iff c fresh =
      rw (validate_chain-error_from c, fresh)
        (ground (arith, error_from-eq-none m c.fail_fast none (results c.validators)))

  -- A fail-fast chain returns the first violation, unchanged, whatever the validators behind it
  -- find, and stays as it was, so that a second call returns the same.
  pub validate_chain-fail_fast :
      (c : Chain) (pre post : List (Option Error)) (e : Error)
      → c.fail_fast ≡ true
      → results c.validators ≡ pre ++ some e ∷ post
      → All IsNil pre
      → validate_chain match_string m c ≡ (c, some e)
  unfolding validate_chain
  validate_chain-fail_fast c pre post e fast found nils =
      let first : error_from m true c.violations (results c.validators) ≡ some e =
        rw found (error_from-first m c.violations pre post e nils) in
      ground (
        arith,
        result-error_from true c.violations c.validators,
        violations-validate_from true c.violations c.validators,
      )

  -- A validation chain that reports all errors returns the violations that it had before and then
  -- those of each validator, in the order in which they were added, and keeps them as its
  -- violations.
  pub validate_chain-all_errors :
      (c : Chain)
      → c.fail_fast ≡ false
      → (m.errors (validate_chain match_string m c).1
          ≡ m.errors c.violations ++ reports m (results c.validators))
        × ((validate_chain match_string m c).0
            ≡ record c { violations = (validate_chain match_string m c).1 })
  unfolding validate_chain
  validate_chain-all_errors c all = (
    rw all (
        rw (result-error_from false c.violations c.validators)
          (errors-error_from m c.violations (results c.validators))),
    ap (λ v. record c { violations = v }) (stored c.fail_fast c.violations c.validators all),
  )

  -- A second call of `Validate` on a chain that reports all errors returns each violation of the
  -- validators once more, behind what the first call returned.
  pub validate_chain_twice :
      (c : Chain)
      → c.fail_fast ≡ false
      → let (d, first) = validate_chain match_string m c in
        m.errors (validate_chain match_string m d).1
        ≡ m.errors first ++ reports m (results c.validators)
  validate_chain_twice c all =
      rw (validate_chain-all_errors c all).1
        (validate_chain-all_errors (record c { violations = (validate_chain match_string m c).1 })
          all).0

  -- An assertion that fails is reported with its message behind the other errors, and one that
  -- holds changes nothing of what a chain reports.
  pub validate_chain-add_assertion :
      (c : Chain) (b : Bool) (msg : String)
      → c.fail_fast ≡ false
      → m.errors (validate_chain match_string m (add_assertion b msg c)).1
        ≡ m.errors (validate_chain match_string m c).1
          ++ m.errors (elim b [ true ↦ none | false ↦ some (message msg) ])
  unfolding add_assertion new_boolean_validator
  validate_chain-add_assertion c b msg all =
      let v = boolean b msg in
      (validate_chain-all_errors (add_assertion b msg c) all).0
      ∙ ap (λ r. m.errors c.violations ++ reports m r) (map-append _ c.validators (v ∷ []))
      ∙ ap (λ r. m.errors c.violations ++ r)
          (reports-append (results c.validators) (results (v ∷ []))
            ∙ ap (λ r. reports m (results c.validators) ++ r) (reports-boolean b msg))
      ∙ sym (
          append_assoc (m.errors c.violations) (reports m (results c.validators))
            (m.errors (elim b [ true ↦ none | false ↦ some (message msg) ])))
      ∙ ap (λ r. r ++ m.errors (elim b [ true ↦ none | false ↦ some (message msg) ]))
          (sym (validate_chain-all_errors c all).0)
