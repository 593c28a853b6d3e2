-- ===== src/Client/Recovery/Alive.antt =====
-- The media connection of client/src/hooks/useMediasoup.ts over any run of events: that a connected
-- participant has a setup, a retry or a report, and on which connection the media is that is reported
-- as ready.
use a_meet.Client.Recovery.{ready, Hook, new_hook, Event, run}
use a_meet.Client.Recovery.Ladder.{IsPaced, run-IsPaced}
use a_meet.Client.Recovery.Served.{is_prompt, run_on-IsServed}
use a_meet.Prelude.{Bool, true, false, none, some, List, ◌≡◌, arith}

-- A setup, a retry or a report, as the module Ladder has it; and, where no connection came up in the
-- middle of a setup, media that is reported as ready is there, on the present connection.
pub record IsAlive (prompt : Bool) (h : Hook) : Type 0 where
  pub paced : IsPaced h
  pub there :
      prompt ≡ true
      → h.cancelled ≡ false
      → h.setup ≡ none
      → h.recovery.status ≡ ready
      → (h.send_transport ≡ some h.connection) × (h.recv_transport ≡ some h.connection)

-- Whatever happens to a new hook: while it is mounted, has the user's stream and the socket is
-- connected, a setup runs, a retry is set, or the media is reported as ready or the retries as
-- exhausted; at most five retries were counted, a retry's delay is between half a second and eight
-- seconds, and none is set while a setup runs. If the socket never connected while a setup was past
-- its wait for the socket, then media that a mounted hook without a running setup reports as ready has
-- its sending and its receiving transport on the present connection.
pub run-IsAlive : (es : List Event) → IsAlive (is_prompt es new_hook) (run es new_hook)
run-IsAlive es = record {
  paced = run-IsPaced es;
  there = λ p. (run_on-IsServed es new_hook p (ground arith)).served;
}
