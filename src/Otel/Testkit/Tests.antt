-- ===== src/Otel/Testkit/Tests.antt =====
-- A collector at work, and the laws at concrete requests.
use gopack.Prelude.{ℕ, ◌≡◌, refl, true, false, List, [], ◌∷◌, Option, none, some, Error, message}
use gopack.Otel.Testkit.{Request, Listener, exports, new_test_collector}
use gopack.Otel.Testkit.Laws.{answers, kept, first_scopes, exports-new_test_collector}

-- two resources, the first with two scopes
abbrev metrics : Request ℕ
metrics = ((1 ∷ 2 ∷ []) ∷ (3 ∷ []) ∷ []) ∷ ((4 ∷ []) ∷ []) ∷ []

abbrev sent : List (Option ℕ × Request ℕ)
sent = (none, metrics) ∷ (some 5, metrics) ∷ []

abbrev unavailable : Option Error
unavailable = some (message "unavailable")

exports-new_test_collector_example :
    let (after, got) =
      exports sent (new_test_collector {M = ℕ} {D = ℕ} (unavailable ∷ [])).metric_svc in
    (got ≡ answers (unavailable ∷ []) sent) × (after.storage ≡ kept (unavailable ∷ []) sent)
exports-new_test_collector_example = exports-new_test_collector (unavailable ∷ []) sent

second_scope_is_lost : kept (unavailable ∷ []) sent ≡ 1 ∷ 2 ∷ 4 ∷ []
unfolding kept first_scopes
second_scope_is_lost = refl

abbrev signalled : Listener
signalled = record { close_once = false; signal = true; closed = false }

abbrev dead : Listener
dead = record { close_once = true; signal = false; closed = true }
