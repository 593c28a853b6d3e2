-- ===== src/Sfu/Transports/Tests.antt =====
-- Tests of the transport events, and the theorems at concrete inputs.
use a_meet.Prelude.{◌+◌, ◌≡◌, refl, none, some, [], ◌∷◌, arith, length}
use a_meet.Prelude.Maps.{get, set, delete}
use a_meet.Types.{valid, invalid}
use a_meet.Sfu.{Peer, send, get_room, get_peer, update_peer, put_peers}
use a_meet.Sfu.Sample.{ann, code, ann_peer, room, sfu}
use a_meet.Sfu.Join.{Socket}
use a_meet.Sfu.Handles.{Handle, wait, refuse, error, connected, locate, handle_of, on_peer}
use a_meet.Sfu.Transports.{
  begin_create_transport, begin_transport_at, finish_create_transport, release_transport,
  on_state_change, is_terminal, connect_transport,
}
use a_meet.Sfu.Transports.Caps.{Granted, finish_all, AreNew, create_transport_burst}

transports : Unit {0}
unfolding begin_create_transport begin_transport_at finish_create_transport release_transport
    on_state_change is_terminal connect_transport locate on_peer update_peer put_peers get_room
    get_peer get set delete
transports = tt

abbrev socket : Socket
socket = record { id = "s1"; user = ann }

abbrev stranger : Socket
stranger = record { id = "s7"; user = ann }

abbrev handle : Handle
handle = handle_of socket (code, room, ann_peer)

refusals :
    (begin_create_transport stranger (valid send) sfu ≡ refuse "not in room")
    × (begin_create_transport socket (invalid "bad direction") sfu ≡ refuse "bad direction")
    × (connect_transport socket (valid "t1") none sfu ≡ connected)
    × (connect_transport socket (valid "t9") none sfu ≡ error "transport not found")
    × (connect_transport socket (valid "t1") (some "dtls") sfu ≡ error "dtls")
unfolding transports
refusals = (refl, refl, refl, refl, refl)

-- Four transports are the cap where requests come one by one.
fifth_refused :
    begin_create_transport socket
      (valid send)
      (finish_create_transport handle send "t6" (finish_create_transport handle send "t5" sfu).0).0
    ≡ refuse "too many transports"
unfolding transports
fifth_refused = refl

granted : Granted socket handle sfu
unfolding transports
granted = record {
  room_id = code;
  room = room;
  peer = ann_peer;
  located = refl;
  handle = refl;
  below = omega arith;
}

four_new : AreNew ("t5" ∷ "t6" ∷ "t7" ∷ "t8" ∷ []) ann_peer.transports
unfolding transports
four_new = (refl, λ _. (refl, λ _. (refl, λ _. (refl, λ _. tt))))

-- Two transports and four requests in flight make six.
create_transport_burst_example :
    (begin_create_transport socket (valid send) sfu ≡ wait handle)
    × (p : Peer) × (get_peer code "s1" (finish_all handle send ("t5" ∷ "t6" ∷ "t7" ∷ "t8" ∷ []) sfu)
        ≡ some p)
    × (length p.transports ≡ 2 + 4)
unfolding granted
create_transport_burst_example =
    create_transport_burst socket send handle ("t5" ∷ "t6" ∷ "t7" ∷ "t8" ∷ []) sfu granted four_new
