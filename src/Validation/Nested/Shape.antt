-- ===== src/Validation/Nested/Shape.antt =====
-- What stands below a chain of chains: a forest (validation/validation.go).
use gopack.Prelude.{
  ℕ, ◌≡◌, ◌≢◌, refl, ap, ◌∙◌, Bool, true, false, String, List, [], ◌∷◌, ◌++◌, Option, none, some,
  Error, if◌then◌else◌, All, arith,
}
use gopack.Validation.{Validator, client, validate}
use gopack.Validation.Nested.{Item, plain, chain, guarded, Node, Heap, Result, store, validate_item}

-- What stands behind an item's conditions: a validator that is no chain, or a chain. Behind a
-- condition that fails it is a validator that finds nothing.
pub data Target : Type 0 where
  checks : Validator → Target
  into : ℕ → Target

abbrev pub target : Item → Target
target (plain v) = checks v
target (chain p) = into p
target (guarded condition i) = if condition then target i else checks (client none)

-- The chains below a chain, and their validators, as a forest.
pub data Forest : Type 0 where
  nil : Forest
  leaf : Validator → Forest → Forest
  sub : ℕ → Forest → Forest → Forest

-- the addresses of a forest's chains, and the validators that are none, in order
abbrev pub chains : Forest → List ℕ
chains nil = []
chains (leaf v f) = chains f
chains (sub p g f) = p ∷ (chains g ++ chains f)

abbrev pub leaves : Forest → List Validator
leaves nil = []
leaves (leaf v f) = v ∷ leaves f
leaves (sub p g f) = leaves g ++ leaves f

abbrev pub NotIn : ℕ → List ℕ → Type 0
NotIn p qs = All (λ q. q ≢ p) qs

-- A chain of the forest reports all errors, and holds what the forest says.
abbrev pub Spans : Heap → Forest → List Item → Type 0
Spans h nil [] = Unit
Spans h nil (i ∷ is) = ⊥
Spans h (leaf v f) [] = ⊥
Spans h (leaf v f) (i ∷ is) = (target i ≡ checks v) × Spans h f is
Spans h (sub p g f) [] = ⊥
Spans h (sub p g f) (i ∷ is) =
    (target i ≡ into p) × ((h p).fail_fast ≡ false) × Spans h g (h p).items × Spans h f is

-- No chain stands in the forest twice.
abbrev pub Once : Forest → Type 0
Once nil = Unit
Once (leaf v f) = Once f
Once (sub p g f) =
    NotIn p (chains g ++ chains f) × All (λ q. NotIn q (chains g)) (chains f) × Once g × Once f

-- No chain of the forest has violations yet.
abbrev pub Fresh : Heap → Forest → Type 0
Fresh h f = All (λ q. (h q).violations ≡ none) (chains f)

-- The heaps have the same chains, whatever their violations.
pub record Alike (g h : Heap) : Type 0 where
  pub same_mode : (q : ℕ) → (g q).fail_fast ≡ (h q).fail_fast
  pub same_items : (q : ℕ) → (g q).items ≡ (h q).items

pub Spans-Alike :
    (g h : Heap) → Alike g h → (f : Forest) (is : List Item) → Spans h f is → Spans g f is
Spans-Alike g h a nil [] s = s
Spans-Alike g h a nil (i ∷ is) s = s
Spans-Alike g h a (leaf v f) [] s = s
Spans-Alike g h a (leaf v f) (i ∷ is) (t, s) = (t, Spans-Alike g h a f is s)
Spans-Alike g h a (sub p e f) [] s = s
Spans-Alike g h a (sub p e f) (i ∷ is) (t, mode, below, s) = (
  t,
  a.same_mode p ∙ mode,
  rw (a.same_items p) (Spans-Alike g h a e (h p).items below),
  Spans-Alike g h a f is s,
)

pub Alike-trans : (f g h : Heap) → Alike f g → Alike g h → Alike f h
Alike-trans f g h a b = record {
  same_mode = λ q. a.same_mode q ∙ b.same_mode q;
  same_items = λ q. a.same_items q ∙ b.same_items q;
}

pub Alike-store : (p : ℕ) (v : Option Error) (h : Heap) → Alike (store p v h) h
unfolding store
Alike-store p v h = record { same_mode = λ q. ground arith; same_items = λ q. ground arith }

pub store_self : (p : ℕ) (v : Option Error) (h : Heap) → (store p v h p).violations ≡ v
unfolding store
store_self p v h = ground arith

pub store_other : (p q : ℕ) (v : Option Error) (h : Heap) → p ≢ q → store p v h q ≡ h q
unfolding store
store_other p q v h n = ground arith

pub validate_item-target :
    (match_string : String → String → Bool) (call : ℕ → Heap → Result) (i : Item) (h : Heap)
    → validate_item match_string call i h
      ≡ (elim (target i) [ checks v ↦ some (h, validate match_string v) | into p ↦ call p h ])
unfolding validate_item validate
validate_item-target match_string call (plain v) h = refl
validate_item-target match_string call (chain p) h = refl
validate_item-target match_string call (guarded true i) h =
    validate_item-target match_string call i h
validate_item-target match_string call (guarded false i) h = refl

pub Fresh-of :
    (h g : Heap) (A : ℕ → Type 0)
    → ((x : ℕ) → A x → h x ≡ g x)
    → (xs : List ℕ) → All A xs
    → All (λ x. (g x).violations ≡ none) xs
    → All (λ x. (h x).violations ≡ none) xs
Fresh-of h g A same [] a f = tt
Fresh-of h g A same (x ∷ xs) (a, as') (f, fs) =
    (ap (λ (c : Node). c.violations) (same x a) ∙ f, Fresh-of h g A same xs as' fs)
