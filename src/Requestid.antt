-- ===== src/Requestid.antt =====
-- requestid/request_id.go: the request id that a context carries.
-- A context is known by what it holds under the key of this package and by the gRPC metadata that
-- google.golang.org/grpc/metadata reads from it and puts into it.
pub mod Laws
mod Tests
use gopack.Prelude.{
  ◌≡◌, Bool, true, false, not, String, List, [], ◌∷◌, Option, none, some, if◌then◌else◌,
}
use text.Mathlib.Text.{◌==◌}

abbrev pub x_request_id_metadata_key : String
x_request_id_metadata_key = "x-request-id"

abbrev pub Metadata : Type 0
Metadata = List (String × List String)

-- A value that is stored under the key: a string, or something else.
pub data Value : Type 0 where
  string_value : String → Value
  other : Value

pub record Contexts : Type 1 where
  pub Context : Type 0
  pub value : Context → Option Value
  pub with_value : Context → Value → Context
  pub from_incoming : Context → Option Metadata
  pub from_outgoing : Context → Option Metadata
  pub new_outgoing : Context → Metadata → Context
  pub value-with_value : (c : Context) (v : Value) → value (with_value c v) ≡ some v
  pub incoming-with_value :
      (c : Context) (v : Value) → from_incoming (with_value c v) ≡ from_incoming c
  pub outgoing-with_value :
      (c : Context) (v : Value) → from_outgoing (with_value c v) ≡ from_outgoing c
  pub value-new_outgoing : (c : Context) (md : Metadata) → value (new_outgoing c md) ≡ value c
  pub incoming-new_outgoing :
      (c : Context) (md : Metadata) → from_incoming (new_outgoing c md) ≡ from_incoming c
  pub outgoing-new_outgoing :
      (c : Context) (md : Metadata) → from_outgoing (new_outgoing c md) ≡ some md

module _ (ctxs : Contexts) where
  open ctxs use {Context, value, with_value}

  -- `FromContext`
  unfoldable pub from_context : Context → String
  from_context ctx = elim (value ctx) [
    | none ↦ ""
    | some v ↦ elim v [ string_value id ↦ id | other ↦ "" ]
  ]

  -- `Context`; `fresh` is what `uuid.NewString` of github.com/google/uuid returns
  pub context : String → Context → Context
  unfolding from_context
  context fresh ctx =
      if not (from_context ctx == "") then ctx else with_value ctx (string_value fresh)
