-- ===== src/Llm/ToolBox/Tests.antt =====
-- A box of two tools.
use gopack.Prelude.{ℕ, ◌≡◌, refl, [], ◌∷◌, some}
use gopack.Llm.ToolBox.{Tool, ToolBox, get, find_tool}

abbrev clock : Tool ℕ
clock = record { name = "clock"; rest = 1 }

abbrev search_tool : Tool ℕ
search_tool = record { name = "search"; rest = 2 }

abbrev box : ToolBox ℕ
box = record { tools = clock ∷ search_tool ∷ [] }

finds_the_second : get "search" box ≡ some search_tool
unfolding get find_tool
finds_the_second = refl
