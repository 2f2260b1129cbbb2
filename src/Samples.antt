-- ===== src/Samples.antt =====
-- Concrete values for what the models take as parameters; the tests use them.
use gopack.Prelude.{
  ◌≡◌, refl, ◌≢◌, sym, append-nil, List, [], ◌∷◌, ◌++◌, Option, none, some, Error, message, wrapped,
  joined, foreign, Multierr,
}
use gopack.Requestid.{Contexts, Metadata, Value}

-- the errors that an error is composed of
abbrev pub leaves : Error → List Error
leaves (joined a b) = leaves a ++ leaves b
leaves e = e ∷ []

abbrev pub all_leaves : Option Error → List Error
all_leaves none = []
all_leaves (some e) = leaves e

abbrev pub join : Option Error → Option Error → Option Error
join none b = b
join a none = a
join (some a) (some b) = some (joined a b)

append_left-ne-nil : (xs ys : List Error) → xs ≢ [] → xs ++ ys ≢ []
append_left-ne-nil [] ys h = absurd (h refl)
append_left-ne-nil (x ∷ xs) ys h = λ e. cc

pub leaves-ne-nil : (e : Error) → leaves e ≢ []
leaves-ne-nil (joined a b) = append_left-ne-nil (leaves a) (leaves b) (leaves-ne-nil a)
leaves-ne-nil (message s) = λ e. cc
leaves-ne-nil (wrapped s a) = λ e. cc
leaves-ne-nil (foreign n) = λ e. cc

pub all_leaves-join : (a b : Option Error) → all_leaves (join a b) ≡ all_leaves a ++ all_leaves b
all_leaves-join none b = refl
all_leaves-join (some a) none = sym (append-nil (leaves a))
all_leaves-join (some a) (some b) = refl

abbrev pub joining : Multierr
joining = record {
  append = join;
  errors = all_leaves;
  errors-none = refl;
  errors-some = leaves-ne-nil;
  errors-append = all_leaves-join;
}

-- A context as what it holds.
pub record Held : Type 0 where
  pub held_value : Option Value
  pub held_incoming : Option Metadata
  pub held_outgoing : Option Metadata

abbrev pub holding : Contexts
holding = record {
  Context = Held;
  value = λ c. c.held_value;
  with_value = λ c v. record c { held_value = some v };
  from_incoming = λ c. c.held_incoming;
  from_outgoing = λ c. c.held_outgoing;
  new_outgoing = λ c md. record c { held_outgoing = some md };
  value-with_value = λ c v. refl;
  incoming-with_value = λ c v. refl;
  outgoing-with_value = λ c v. refl;
  value-new_outgoing = λ c md. refl;
  incoming-new_outgoing = λ c md. refl;
  outgoing-new_outgoing = λ c md. refl;
}

abbrev pub background : Held
background = record { held_value = none; held_incoming = none; held_outgoing = none }

-- A call arrives with the metadata that it left with.
abbrev pub transmit : Held → Held
transmit c = record { held_value = none; held_incoming = c.held_outgoing; held_outgoing = none }
