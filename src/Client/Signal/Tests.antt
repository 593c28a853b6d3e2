-- ===== src/Client/Signal/Tests.antt =====
-- A request that was dropped on the way, and the theorem's instance for it.
use a_meet.Client.Signal.{drops, returns, raised, request}
use a_meet.Client.Signal.Outcome.{IsTold, request-IsTold}
use a_meet.Prelude.{ℕ, true, false, [], ◌∷◌}

request-IsTold_example :
    IsTold false raised (request {A = ℕ} (λ s. s) true (drops ∷ returns ∷ []) raised 5 205)
request-IsTold_example = request-IsTold {A = ℕ} (λ s. s) true (drops ∷ returns ∷ []) raised 5 205
