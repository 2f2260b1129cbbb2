-- ===== src/Requestid/Tests.antt =====
-- The request id of concrete contexts.
use gopack.Prelude.{◌≡◌, ◌⊎◌, refl, ◌≢◌, String, none, some, arith}
use text.Mathlib.TextEquality.{eq_iff}
use gopack.Samples.{holding, background}
use gopack.Requestid.{other, from_context, context}
use gopack.Requestid.Laws.{context_lem}

abc_not_empty : ◌≢◌ {A = String} "abc" ""
abc_not_empty = ground (arith, eq_iff "abc" "")

not_a_string : from_context holding (record background { held_value = some other }) ≡ ""
unfolding from_context
not_a_string = refl

context_lem_example :
    let d = context holding "abc" background in
    (from_context holding d ≢ "")
    × (((from_context holding background ≢ "") × (d ≡ background))
        ⊎ ((from_context holding background ≡ "") × (from_context holding d ≡ "abc")))
    × (d.held_incoming ≡ none)
    × (d.held_outgoing ≡ none)
    × (context holding "xyz" d ≡ d)
context_lem_example = context_lem holding "abc" "xyz" background abc_not_empty
