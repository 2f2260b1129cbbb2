-- ===== src/Grpc/Server/Running/Laws.antt =====
-- When a process ends in a panic, in whatever order calls and goroutines come (grpc/server.go).
use gopack.Prelude.{◌≡◌, ◌⊎◌, Bool, true, List, ◌∷◌, none, Multierr, is_some}
use gopack.Grpc.Server.{GrpcServer}
use gopack.Grpc.Server.Running.{Underlying, Process, Action}
use gopack.Grpc.Server.Running.Fatal.{is_crash, is_fatal, with_listener}

module _ {H K : Type 0} (s : GrpcServer H K) where
  module _ (u : Underlying) (m : Multierr) (is_init windows : Bool) where
    -- the process goes on, with the server and its listener, if it has one
    abbrev Alive : Bool → Process H K → Type 0
    Alive l p = (p.over ≡ none) × (p.server ≡ with_listener s l)

    -- What an action makes of a process that is alive: it stays alive, and the rest of the schedule
    -- decides, or the process is over, as the schedule says.
    abbrev Decides : Action K → List (Action K) → Bool → Process H K → Process H K → Type 0
    Decides a acts l p q =
        ((l' : Bool) × Alive l' q
          × (is_fatal s p.stopped l (a ∷ acts) ≡ is_fatal s q.stopped l' acts))
        ⊎ (is_some q.over ≡ true) × (is_crash q.over ≡ is_fatal s p.stopped l (a ∷ acts))
