-- ===== src/Llm/ToolBox/Laws.antt =====
-- Which tool a name gives (llm/toolbox.go).
use gopack.Prelude.{◌≡◌, ◌≢◌, refl, String, List, [], ◌∷◌, ◌++◌, none, some, arith, All}
use text.Mathlib.TextEquality.{eq_iff}
use gopack.Llm.ToolBox.{Tool, ToolBox, add, find_tool, get, list, schema, get_json_schema}
use mathlib.Core.List.{Perm, perm_middle}

module _ {T : Type 0} where
  abbrev pub IsOther : String → Tool T → Type 0
  IsOther id tool = id ≢ tool.name

  find_tool-append :
      (id : String) (ts us : List (Tool T))
      → find_tool id (ts ++ us)
        ≡ (elim (find_tool id ts) [ none ↦ find_tool id us | some t ↦ some t ])
  unfolding find_tool
  find_tool-append id [] us = refl
  find_tool-append id (t ∷ ts) us = ground (arith, find_tool-append id ts us)

  find_tool-none : (id : String) (ts : List (Tool T)) → All (IsOther id) ts → find_tool id ts ≡ none
  unfolding find_tool
  find_tool-none id [] h = refl
  find_tool-none id (t ∷ ts) (n, h) = ground (arith, eq_iff id t.name, find_tool-none id ts h)

  -- Adding tools changes what no name gives that gave a tool before; a name that gave none gives the
  -- first of the added tools that has it. `List` has the tools in the order in which they were added.
  pub get-add :
      (id : String) (ts : List (Tool T)) (box : ToolBox T)
      → (get id (add ts box) ≡ (elim (get id box) [ none ↦ find_tool id ts | some t ↦ some t ]))
        × (list (add ts box) ≡ list box ++ ts)
  unfolding get add list
  get-add id ts box = (find_tool-append id box.tools ts, refl)

  -- `Get` returns the first tool of the name, behind tools of other names.
  pub get-first :
      (box : ToolBox T) (pre : List (Tool T)) (tool : Tool T) (post : List (Tool T))
      → box.tools ≡ pre ++ tool ∷ post
      → All (IsOther tool.name) pre
      → get tool.name box ≡ some tool
  unfolding get find_tool
  get-first box pre tool post held others =
      rw (held, find_tool-append tool.name pre (tool ∷ post), find_tool-none tool.name pre others)
        (ground (arith, eq_iff tool.name tool.name))

-- The order of a range over a map is unspecified: for each definition of the reflected schema there
-- is one in which `GetJSONSchema` returns it, though the definitions are the same.
pub get_json_schema-Perm :
    {S : Type 0} (path : String) (pre : List S) (v : S) (post : List S)
    → (definitions : List S) × Perm (pre ++ v ∷ post) definitions
      × (get_json_schema none path definitions ≡ schema v)
unfolding get_json_schema
get_json_schema-Perm path pre v post = (v ∷ (pre ++ post), perm_middle pre post, refl)
