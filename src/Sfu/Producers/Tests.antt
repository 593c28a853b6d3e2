-- ===== src/Sfu/Producers/Tests.antt =====
-- Tests of the producer events, and the theorems at concrete inputs.
use a_meet.Prelude.{◌≡◌, refl, false, some, List, [], ◌∷◌}
use a_meet.Prelude.Maps.{get, set, delete}
use a_meet.Types.{valid}
use a_meet.Sfu.{
  Producer, Descriptor, describe, video, get_room, get_peer, update_peer, put_peers,
  list_other_producers, other_producers,
}
use a_meet.Sfu.Sample.{bob, code, bob_peer, room, sfu, mic, screen_audio}
use a_meet.Sfu.Handles
use a_meet.Sfu.Join.{Socket}
use a_meet.Sfu.Handles.{
  Handle, wait, refuse, error, listed, locate, handle_of, on_peer, producer_paused,
}
use a_meet.Sfu.Producers.{
  Produce, begin_produce, begin_produce_at, finish_produce, follow_audio, set_paused, set_paused_at,
  close_producer, close_at, drop_producer, get_producers,
}

producers : Unit {0}
unfolding begin_produce begin_produce_at finish_produce follow_audio set_paused set_paused_at
    close_producer close_at drop_producer get_producers list_other_producers other_producers locate
    on_peer update_peer put_peers get_room get_peer get set delete
producers = tt

abbrev socket : Socket
socket = record { id = "s2"; user = bob }

abbrev handle : Handle
handle = handle_of socket (code, room, bob_peer)

abbrev camera : Producer
camera = record { id = "p3"; kind = video; paused = false; source = some "camera" }

abbrev request : Produce
request = record { transport_id = "t3"; kind = video; source = some "camera" }

refusals :
    (begin_produce socket (valid (record request { transport_id = "t1" })) sfu
      ≡ refuse "send transport not found")
    × (get_producers socket (valid tt) sfu ≡ listed [])
    × ((close_producer socket (valid "p9") sfu).1 ≡ error "producer not found")
unfolding producers
refusals = (refl, refl, refl)

abbrev rows : List Descriptor
rows = describe bob_peer ("p1", screen_audio) ∷ describe bob_peer ("p2", mic) ∷ []

for_ann : list_other_producers (some code) "s1" sfu ≡ rows
unfolding producers
for_ann = refl

close_producer_own_closed : (close_producer socket (valid "p2") sfu).1 ≡ Handles.closed
unfolding producers
close_producer_own_closed = refl
