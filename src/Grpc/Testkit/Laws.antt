-- ===== src/Grpc/Testkit/Laws.antt =====
-- When a server for tests ends its process, and what it is built of (grpc/testkit.go).
use gopack.Prelude.{Bool, true, false, List, [], ◌∷◌}
use gopack.Grpc.Testkit.{Phase, stopped, Action, start, serv, cleanup, register}

-- whether a goroutine reaches `Serve` when `Cleanup` was called before, with what is known so far
abbrev pub is_late : {H : Type 0} → Bool → List (Action H) → Bool
is_late cleaned [] = false
is_late cleaned (start ∷ acts) = is_late cleaned acts
is_late cleaned (register h ∷ acts) = is_late cleaned acts
is_late cleaned (cleanup ∷ acts) = is_late true acts
is_late true (serv ∷ acts) = true
is_late false (serv ∷ acts) = is_late false acts

abbrev pub is_stopped : Phase → Bool
is_stopped stopped = true
is_stopped _ = false
