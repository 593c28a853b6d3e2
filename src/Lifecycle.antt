-- ===== src/Lifecycle.antt =====
-- server/src/lifecycle.ts: the shutdown of the server, step by step, its force timer, and fatal
-- errors. The drain steps are parameters: whether one is given, and how it settles. After `exit` the
-- process is over and nothing happens any more. Registering the process's listeners is glue.
pub mod Drain
mod Tests
use a_meet.Prelude.{
  ℕ, String, Bool, true, false, Option, none, some, List, [], ◌∷◌, ◌++◌, if◌then◌else◌,
}

pub data Name : Type 0 where
  notify_restart : Name
  close_sockets : Name
  close_http : Name
  close_workers : Name
  close_db : Name

-- Whether a step is given.
pub record Deps : Type 0 where
  pub notifies : Bool
  pub sockets : Bool
  pub http : Bool
  pub workers : Bool
  pub db : Bool

abbrev pub is_given : Deps → Name → Bool
is_given d notify_restart = d.notifies
is_given d close_sockets = d.sockets
is_given d close_http = d.http
is_given d close_workers = d.workers
is_given d close_db = d.db

pub data Phase : Type 0 where
  serving : Phase
  -- it waits for this step, and these follow
  draining : Name → List Name → Phase
  exited : ℕ → Phase

pub record Life : Type 0 where
  pub phase : Phase
  -- the steps that were begun, in their order
  pub begun : List Name

abbrev pub drain_order : List Name
drain_order = notify_restart ∷ close_sockets ∷ close_http ∷ close_workers ∷ close_db ∷ []

-- `runStep` for these, as far as it waits; a step that is not given is passed over.
unfoldable pub run_steps : Deps → List Name → List Name → Life
run_steps d begun [] = record { phase = exited 0; begun = begun }
run_steps d begun (name ∷ names) =
    let rest = run_steps d begun names in
    if is_given d name
    then record { phase = draining name names; begun = begun ++ name ∷ [] }
    else rest

-- A signal while the server drains already is ignored.
unfoldable pub shutdown : Deps → Phase → List Name → Life
unfolding run_steps
shutdown d serving begun = run_steps d begun drain_order
shutdown d (draining name names) begun = record { phase = draining name names; begun = begun }
shutdown d (exited code) begun = record { phase = exited code; begun = begun }

-- The step that is waited for ends, with the message of its error if it throws.
unfoldable pub settle : Deps → Option String → Phase → List Name → Life
unfolding run_steps
settle d error serving begun = record { phase = serving; begun = begun }
settle d error (draining name names) begun = run_steps d begun names
settle d error (exited code) begun = record { phase = exited code; begun = begun }

-- The force timer fires; it is set while the server drains.
unfoldable pub time_out : Phase → List Name → Life
time_out serving begun = record { phase = serving; begun = begun }
time_out (draining name names) begun = record { phase = exited 1; begun = begun }
time_out (exited code) begun = record { phase = exited code; begun = begun }

unfoldable pub handle_fatal : Phase → List Name → Life
handle_fatal (exited code) begun = record { phase = exited code; begun = begun }
handle_fatal phase begun = record { phase = exited 1; begun = begun }

pub data Event : Type 0 where
  signal : Event
  settles : Option String → Event
  times_out : Event
  fatal : Event

unfoldable pub handle : Deps → Event → Life → Life
unfolding shutdown settle time_out handle_fatal
handle d signal l = shutdown d l.phase l.begun
handle d (settles error) l = settle d error l.phase l.begun
handle d times_out l = time_out l.phase l.begun
handle d fatal l = handle_fatal l.phase l.begun

-- `createLifecycle`
abbrev pub create_lifecycle : Life
create_lifecycle = record { phase = serving; begun = [] }
