-- ===== src/Client/Remote/Tests.antt =====
-- Runs of the consumers' store, and instances of the theorems about it.
use a_meet.Client.Remote.{
  Connection, Remote, new_remote, begin_consume, add_consumer, set_kind, finish_consume,
  close_entry, close_consumer_by_id, begin_consume_on, Event, consumes, arrives, resumes, fails,
  leaves, clears, closes, clear_remote_state, step, run,
}
use a_meet.Client.Remote.Shown.{IsShown, run-IsShown}
use a_meet.Client.Remote.Screens.{IsScreened}
use a_meet.Client.Remote.Hidden.{IsHidden, closes-IsHidden}
use a_meet.Client.Remote.Departure.{IsGhost, leaves-IsGhost}
use a_meet.Prelude.{String, ◌≢◌, eq_iff, ◌≡◌, refl, true, false, some, List, [], ◌∷◌, arith}
use a_meet.Prelude.Maps.{get, set, add, contains}
use a_meet.Sfu.{Descriptor, audio}

abbrev ann_mic : Descriptor
ann_mic = record {
  producer_id = "p1";
  socket_id = "ann";
  user = record { id = "1"; name = "Ann"; email = "ann@a.b"; avatar = "" };
  kind = audio;
  paused = false;
  source = some "mic";
}

abbrev joined : Remote
joined = record new_remote { recv_transport = some ("t", Connection.connected); has_device = true }

abbrev heard : List Event
heard = consumes ann_mic ∷ arrives ann_mic "c1" audio ∷ resumes ann_mic audio false ∷ []

rendering : Unit {0}
unfolding step begin_consume begin_consume_on add_consumer finish_consume set_kind get set add
    contains close_consumer_by_id close_entry clear_remote_state
rendering = tt

ann_heard : get "ann" (run heard joined).remote_streams ≡ some ("c1" ∷ [])
unfolding rendering
ann_heard = refl

abbrev ann_screen : Descriptor
ann_screen = record ann_mic { producer_id = "p2"; source = some "screen" }

abbrev sharing : List Event
sharing = clears ∷ arrives ann_mic "c1" audio ∷ arrives ann_screen "c2" audio ∷ []

run-IsShown_example : IsShown (run sharing new_remote) × IsScreened (run sharing new_remote)
run-IsShown_example = run-IsShown sharing

two_ids : ◌≢◌ {A = String} "c1" "c2"
two_ids = ground (arith, eq_iff "c1" "c2")

closes-IsHidden_example :
    IsHidden "ann" "c2"
      (record {
        producer_id = "p2";
        info = record { socket_id = "ann"; kind = audio; is_screen = true };
      })
      ("c2" ∷ [])
      (step (closes "c1") (run sharing joined))
unfolding rendering
closes-IsHidden_example =
    closes-IsHidden "c1" "ann" "c2" "p1" audio
      (record {
        producer_id = "p2";
        info = record { socket_id = "ann"; kind = audio; is_screen = true };
      })
      ("c2" ∷ []) (run sharing joined) refl refl two_ids refl refl

leaves-IsGhost_example :
    IsGhost "ann" "c1"
      (run (leaves "ann" ∷ arrives ann_mic "c1" audio ∷ fails ann_mic ∷ []) (run heard joined))
leaves-IsGhost_example = leaves-IsGhost ann_mic "c1" audio (run heard joined) (ground arith)
