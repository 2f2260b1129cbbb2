-- ===== src/Errorschain/Laws.antt =====
-- What `Chain.Error` reports (errorschain/errorschain.go).
use gopack.Prelude.{
  ◌≡◌, refl, ◌≢◌, ◌↔◌, sym, ◌∙◌, ap, Bool, true, false, List, [], ◌∷◌, ◌++◌, append_assoc,
  append-nil, Option, none, some, Error, Multierr, All, arith,
}
use gopack.Errorschain.{Chain, return_first, new, add_error, apply_options, error_from, error}

abbrev pub IsNil : Option Error → Type 0
IsNil v = v ≡ none

suffix_of_nil {ℓ} : {A : Type ℓ} (xs ys : List A) → xs ++ ys ≡ [] → ys ≡ []
suffix_of_nil [] ys e = e
suffix_of_nil (x ∷ xs) ys e = cc

module _ (m : Multierr) where
  append-ne-none : (acc : Option Error) (v : Error) → m.append acc (some v) ≢ none
  append-ne-none acc v e =
      let nil : m.errors acc ++ m.errors (some v) ≡ [] =
        sym (m.errors-append acc (some v)) ∙ ap m.errors e ∙ m.errors-none in
      m.errors-some v (suffix_of_nil (m.errors acc) (m.errors (some v)) nil)

  -- the reports of all errors of a list, in its order
  abbrev pub reports : List (Option Error) → List Error
  reports [] = []
  reports (v ∷ vs) = m.errors v ++ reports vs

  pub error_from-eq-none :
      (first : Bool) (acc : Option Error) (vs : List (Option Error))
      → (error_from m first acc vs ≡ none) ↔ ((acc ≡ none) × All IsNil vs)
  unfolding error_from
  error_from-eq-none first acc [] = ground arith
  error_from-eq-none first acc (none ∷ vs) = ground (arith, error_from-eq-none first acc vs)
  error_from-eq-none true acc (some v ∷ vs) = ground arith
  error_from-eq-none false acc (some v ∷ vs) =
      ground (arith, error_from-eq-none false (m.append acc (some v)) vs, append-ne-none acc v)

  pub errors-error_from :
      (acc : Option Error) (vs : List (Option Error))
      → m.errors (error_from m false acc vs) ≡ m.errors acc ++ reports vs
  unfolding error_from
  errors-error_from acc [] = sym (append-nil _)
  errors-error_from acc (none ∷ vs) = errors-error_from acc vs ∙ rw m.errors-none
  errors-error_from acc (some v ∷ vs) =
      rw (errors-error_from (m.append acc (some v)) vs, m.errors-append)
        (append_assoc (m.errors acc) (m.errors (some v)) (reports vs))

  pub error_from-first :
      (acc : Option Error) (pre post : List (Option Error)) (e : Error)
      → All IsNil pre
      → error_from m true acc (pre ++ some e ∷ post) ≡ some e
  unfolding error_from
  error_from-first acc [] post e nils = refl
  error_from-first acc (none ∷ pre) post e nils = error_from-first acc pre post e nils.1
  error_from-first acc (some v ∷ pre) post e nils = cc (nils.0)

  -- `Error` returns nil exactly when no error of the chain is non-nil, in either mode.
  pub error-none_iff : (c : Chain) → (error m c ≡ none) ↔ All IsNil c.errs
  unfolding error
  error-none_iff c = ground (arith, error_from-eq-none c.return_first none c.errs)

  -- A chain that returns the first error returns the first non-nil one of those that it holds,
  -- unchanged, whatever follows it.
  pub error-return_first :
      (c : Chain) (pre post : List (Option Error)) (e : Error)
      → c.return_first ≡ true
      → c.errs ≡ pre ++ some e ∷ post
      → All IsNil pre
      → error m c ≡ some e
  unfolding error
  error-return_first c pre post e first held nils =
      rw (first, held) (error_from-first none pre post e nils)

  -- A chain that returns all errors loses none: what its error is composed of is what each of the
  -- errors that it holds is composed of, in the order of insertion.
  pub errors-error : (c : Chain) → c.return_first ≡ false → m.errors (error m c) ≡ reports c.errs
  unfolding error
  errors-error c all = rw (all, errors-error_from none c.errs, m.errors-none)

  -- The use in the server's shutdown: of two results, the first that is an error.
  pub error-add_error-add_error :
      (a b : Option Error)
      → error m (add_error b (add_error a (new (return_first ∷ []))))
        ≡ (elim a [ none ↦ b | some e ↦ some e ])
  unfolding error add_error new return_first apply_options error_from
  error-add_error-add_error a b = ground arith
