-- ===== src/Llm/ToolBox.antt =====
-- llm/toolbox.go: the tools that a model may call. A tool is known by its name; the rest is `T`.
pub mod Laws
mod Tests
use Prim.Native.String
use gopack.Prelude.{Error, message, String, List, [], ◌∷◌, ◌++◌, Option, none, some, if◌then◌else◌}
use text.Mathlib.Text.{◌==◌}

pub record Tool (T : Type 0) : Type 0 where
  pub name : String
  pub rest : T

pub record ToolBox (T : Type 0) : Type 0 where
  pub tools : List (Tool T)

module _ {T : Type 0} where
  pub add : List (Tool T) → ToolBox T → ToolBox T
  add tools t = record { tools = t.tools ++ tools }

  -- the loop of `Get`
  pub find_tool : String → List (Tool T) → Option (Tool T)
  find_tool id [] = none
  find_tool id (tool ∷ tools) =
      let rest = find_tool id tools in if id == tool.name then some tool else rest

  pub get : String → ToolBox T → Option (Tool T)
  unfolding find_tool
  get id t = find_tool id t.tools

  pub list : ToolBox T → List (Tool T)
  list t = t.tools

-- What `GetJSONSchema` returns.
pub data SchemaResult (S : Type 0) : Type 0 where
  schema : S → SchemaResult S
  failed : Error → SchemaResult S

-- `GetJSONSchema`: `commented` is what `AddGoComments` of github.com/invopop/jsonschema returns, and
-- `definitions` the map of the reflected schema, in the order in which this range over it goes
pub get_json_schema : {S : Type 0} → Option Error → String → List S → SchemaResult S
get_json_schema (some err) path definitions = failed err
get_json_schema none path (v ∷ _) = schema v
get_json_schema none path [] = failed (message (String.◌++◌ "unable to find jsonschema for " path))
