-- ===== src/Webrtc/Glare.antt =====
-- Who offers to whom, and what a dropped connection leaves behind.
use a_meet.Prelude.{
  String, ◌==◌, eq_iff, eq_refl, ◌≡◌, true, false, some, List, [], ◌∷◌, arith, if◌then◌else◌,
}
use a_meet.Prelude.Maps.{contains, add, remove, get-set, get-delete, contains-add, contains-remove}
use a_meet.Prelude.Text.{is_empty}
use a_meet.Types.{Audience, self, others}
use a_meet.Webrtc.{
  Socket, Ready, Event, peers_ready, peer_left, ready_of, add_ready, put_ready, ready_room,
  webrtc_ready, disconnect,
}

-- The peers that a newcomer is told of, to whom it offers.
abbrev pub offers_to : List (Audience × Event) → List String
offers_to ((self, peers_ready peers) ∷ outs) = peers
offers_to outs = []

ready_of-add_ready :
    (room_id socket_id r' : String) (r : Ready)
    → ready_of r' (add_ready room_id socket_id r)
      ≡ (if room_id == r' then add socket_id (ready_of room_id r) else ready_of r' r)
unfolding add_ready
ready_of-add_ready room_id socket_id r' r =
    ground (arith, get-set room_id r' (add socket_id (ready_of room_id r)) r.ready_rooms)

-- Of two sockets that get ready in a room one after the other, where the second was not ready there
-- before, just the second is told of the other: one of them offers, never both.
pub webrtc_ready-glare :
    (first second : Socket) (room_id : String) (r : Ready)
    → is_empty room_id ≡ false
    → contains second.id (ready_of room_id r) ≡ false
    → let f = webrtc_ready first room_id r in
      let s = webrtc_ready second room_id f.0 in
      (contains second.id (offers_to f.1) ≡ false) × (contains first.id (offers_to s.1) ≡ true)
unfolding webrtc_ready
webrtc_ready-glare first second room_id r named absent = (
  ground (arith, named, absent),
  ground (
    arith,
    named,
    eq_refl room_id,
    eq_refl first.id,
    ready_of-add_ready room_id first.id room_id r,
    contains-add first.id first.id (ready_of room_id r),
  ),
)

ready_of-put_ready :
    (room_id r' : String) (peers : List String) (r : Ready)
    → ready_of r' (put_ready room_id peers r) ≡ (if room_id == r' then peers else ready_of r' r)
ready_of-put_ready room_id r' [] r = ground (arith, get-delete room_id r' r.ready_rooms)
ready_of-put_ready room_id r' (x ∷ peers) r =
    ground (arith, get-set room_id r' (x ∷ peers) r.ready_rooms)

-- A socket that the index puts in a room with a name disconnects: the others in that room are told,
-- the room's newcomers are not told of the socket any more, and of each other peer in each room
-- nothing changes.
pub disconnect-ready :
    (socket : Socket) (room_id other r' : String) (r : Ready)
    → ready_room socket.id r ≡ some room_id
    → ((disconnect socket r).1 ≡ (others room_id, peer_left socket.id) ∷ [])
      × (contains socket.id (ready_of room_id (disconnect socket r).0) ≡ false)
      × (contains other (ready_of r' (disconnect socket r).0) ≡ (
          if socket.id == other
          then if room_id == r' then false else contains other (ready_of r' r)
          else contains other (ready_of r' r)))
unfolding disconnect
disconnect-ready socket room_id other r' r e =
    let peers = remove socket.id (ready_of room_id r) in
    (
      ground (arith, e),
      ground (
        arith,
        e,
        eq_refl room_id,
        eq_refl socket.id,
        ready_of-put_ready room_id room_id peers r,
        contains-remove socket.id socket.id (ready_of room_id r),
      ),
      ground (
        arith,
        e,
        eq_iff room_id r',
        eq_iff socket.id other,
        ready_of-put_ready room_id r' peers r,
        contains-remove socket.id other (ready_of room_id r),
      ),
    )
