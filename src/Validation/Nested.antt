-- ===== src/Validation/Nested.antt =====
-- validation/validation.go: chains that are validators of other chains.
-- A `*Chain` is a `Validator` as well, and a chain that stands in two others is one chain: its
-- `violations` are what the last call of `Validate` has left there. So chains lie in a heap, and a
-- chain holds what it was given: a validator that is no chain, the address of a chain, or one of
-- these under a condition. The recursion runs on fuel; without any left the result is none, as for
-- a chain that holds itself, on which Go's recursion does not end.
pub mod Shape
pub mod Laws
pub mod Sharing
pub mod Fuel
pub mod Termination
mod Tests
use gopack.Prelude.{
  ℕ, zero, suc, Bool, true, false, String, List, [], ◌∷◌, Option, none, some, Error, Multierr, eqb,
  if◌then◌else◌,
}
use gopack.Validation.{Validator, validate}

pub data Item : Type 0 where
  plain : Validator → Item
  chain : ℕ → Item
  guarded : Bool → Item → Item

pub record Node : Type 0 where
  pub fail_fast : Bool
  pub items : List Item
  pub violations : Option Error

abbrev pub Heap : Type 0
Heap = ℕ → Node

abbrev pub Result : Type 0
Result = Option (Heap × Option Error)

-- `c.violations = violations` of the chain at `p`
pub store : ℕ → Option Error → Heap → Heap
store p violations h q = if eqb p q then record (h q) { violations = violations } else h q

-- `Validate` of a validator in the chain; `call` is that of a chain
pub validate_item : (String → String → Bool) → (ℕ → Heap → Result) → Item → Heap → Result
validate_item match_string call (plain v) h = some (h, validate match_string v)
validate_item match_string call (chain p) h = call p h
validate_item match_string call (guarded condition i) h =
    let inner = validate_item match_string call i h in if condition then inner else some (h, none)

module _ (match_string : String → String → Bool) (m : Multierr) where
  -- the loop of `Validate` over the validators of the chain at `p`
  pub validate_items : (ℕ → Heap → Result) → ℕ → Bool → List Item → Heap → Result
  unfolding validate_item store
  validate_items call p fast [] h = some (h, (h p).violations)
  validate_items call p fast (i ∷ is) h = elim (validate_item match_string call i h) [
    | none ↦ none
    | some (g, none) ↦ validate_items call p fast is g
    | some (g, some e) ↦
        let go_on =
          validate_items call p fast is (store p (m.append (g p).violations (some e)) g) in
        if fast then some (g, some e) else go_on
  ]

  -- `(*Chain).Validate` of the chain at `p`
  pub validate_at : ℕ → ℕ → Heap → Result
  unfolding validate_items
  validate_at zero p h = none
  validate_at (suc n) p h = validate_items (validate_at n) p (h p).fail_fast (h p).items h
