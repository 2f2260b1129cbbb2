-- ===== src/Validation/Nested/Tests.antt =====
-- Chains of chains, and the laws at concrete heaps.
use gopack.Prelude.{
  ℕ, zero, suc, ◌≡◌, refl, Bool, true, false, String, List, [], ◌∷◌, Option, none, some, Error,
  message, arith,
}
use gopack.Samples.{joining}
use gopack.Validation.{
  Validator, boolean, client, Chain, validate, validate_boolean, validate_chain,
}
use gopack.Validation.Nested.{Item, plain, chain, guarded, Node, Heap, validate_at}
use gopack.Validation.Nested.Termination.{Ranked, validate_at-Ranked}
use gopack.Validation.Nested.Shape.{Alike, Forest, nil, leaf, sub, NotIn}
use gopack.Validation.Nested.Laws.{validate_at-flat}
use gopack.Validation.Nested.Sharing.{validate_at-shared}

abbrev never : String → String → Bool
never pattern text = false

abbrev collecting : List Item → Node
collecting items = record { fail_fast = false; items = items; violations = none }

abbrev missing : String → Validator
missing s = boolean false s

-- a chain over two others, one of them under a condition that holds
abbrev tree : Heap
tree zero = collecting (
    plain (missing "a")
    ∷ chain 1
    ∷ guarded true (chain 2)
    ∷ guarded false (plain (missing "d"))
    ∷ [])
tree (suc zero) = collecting (plain (missing "b") ∷ plain (boolean true "x") ∷ [])
tree (suc (suc n)) = collecting (plain (missing "c") ∷ [])

abbrev forest : Forest
forest = leaf (missing "a") (
    sub 1 (leaf (missing "b") (leaf (boolean true "x") nil))
      (sub 2 (leaf (missing "c") nil) (leaf (client none) nil)))

validate_at-flat_example :
    let flat : Chain = record {
      fail_fast = false;
      validators = missing "a" ∷ missing "b" ∷ boolean true "x" ∷ missing "c" ∷ client none ∷ [];
      violations = none;
    } in
    (g : Heap) × (r : Option Error) × (validate_at never joining 3 0 tree ≡ some (g, r))
    × (joining.errors r ≡ joining.errors (validate_chain never joining flat).1)
    × ((g 0).violations ≡ r)
    × ((q : ℕ) → NotIn q (0 ∷ 1 ∷ 2 ∷ []) → g q ≡ tree q)
validate_at-flat_example =
    validate_at-flat never joining 2 0 forest tree (omega arith) refl
      (refl, (refl, refl, (refl, (refl, tt)), (refl, refl, (refl, tt), (refl, tt))))
      ((ground arith, tt), (ground arith, tt), tt, (tt, tt, tt, tt)) refl (refl, (refl, tt))
      (ground arith)

-- the chain 1 twice
abbrev doubled : Heap
doubled zero = collecting (chain 1 ∷ chain 1 ∷ [])
doubled (suc n) = collecting (plain (missing "b") ∷ [])

validate_at-shared_example :
    (g : Heap) × (r : Option Error) × (validate_at never joining 2 0 doubled ≡ some (g, r))
    × (joining.errors r ≡ message "b" ∷ message "b" ∷ message "b" ∷ [])
unfolding validate validate_boolean
validate_at-shared_example =
    validate_at-shared never joining 0 0 1 (leaf (missing "b") nil) doubled refl refl refl
      (refl, tt) refl (ground arith) refl refl

abbrev rank : ℕ → ℕ
rank zero = 1
rank (suc n) = 0

doubled-Ranked : Ranked rank doubled
doubled-Ranked zero = (omega arith, (omega arith, tt))
doubled-Ranked (suc n) = (tt, tt)

validate_at-Ranked_example :
    (g : Heap) × (r : Option Error) × (validate_at never joining 7 0 doubled ≡ some (g, r))
    × (validate_at never joining 2 0 doubled ≡ some (g, r))
    × Alike g doubled
validate_at-Ranked_example =
    validate_at-Ranked never joining rank 7 0 doubled doubled-Ranked (omega arith)
