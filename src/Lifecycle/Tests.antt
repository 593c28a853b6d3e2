-- ===== src/Lifecycle/Tests.antt =====
-- The theorems on the shutdown at concrete inputs.
use a_meet.Prelude.{◌≡◌, refl, false, true, none, some, List, [], ◌∷◌, arith}
use a_meet.Lifecycle.{
  close_http, close_db, Deps, exited, signal, settles, Event, handle, create_lifecycle, run_steps,
  shutdown, settle, time_out, handle_fatal,
}
use a_meet.Lifecycle.Drain.{given, run, shutdown-exits}

abbrev two_steps : Deps
two_steps = record { notifies = false; sockets = false; http = true; workers = false; db = true }

abbrev failing : List Event
failing =
    settles (some "closed already")
    ∷ signal
    ∷ settles none
    ∷ settles none
    ∷ settles none
    ∷ settles none
    ∷ []

both_begun : (run two_steps (signal ∷ failing) create_lifecycle).begun ≡ close_http ∷ close_db ∷ []
unfolding run_steps shutdown settle time_out handle_fatal handle
both_begun = refl

shutdown-exits_example :
    run two_steps (signal ∷ failing) create_lifecycle
    ≡ record { phase = exited 0; begun = given two_steps }
shutdown-exits_example = shutdown-exits two_steps failing tt (omega arith)
