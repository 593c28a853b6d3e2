-- ===== src/Sfu/Handles/Objects.antt =====
-- The peer object that a handler holds: the one that is in the room when the handler begins.
use a_meet.Prelude.{String, ◌==◌, ◌≡◌, ◌&&◌, some, arith, if◌then◌else◌, ◌∙◌}
use a_meet.Prelude.Maps.{get, set, get-set_self}
use a_meet.Sfu.{Sfu, Room, Peer, with_peers, put_peers, get_room, get_peer}
use a_meet.Sfu.Rooms.{get_peer-update_peer, update_peer_here}
use a_meet.Sfu.Join.{Socket}
use a_meet.Sfu.Handles.{locate, handle_of, on_peer}

-- What `locate` finds.
pub record IsAt (socket : Socket) (r : String) (room : Room) (peer : Peer) (s : Sfu) : Type 0 where
  pub in_room : get socket.id s.socket_room ≡ some r
  pub the_room : get_room r s ≡ some room
  pub the_peer : get_peer r socket.id s ≡ some peer
  pub of_room : get socket.id room.peers ≡ some peer

pub locate-IsAt :
    (socket : Socket) (r : String) (room : Room) (peer : Peer) (s : Sfu)
    → locate socket s ≡ some (r, room, peer)
    → IsAt socket r room peer s
unfolding locate get_peer get_room
locate-IsAt socket r room peer s h = record {
  in_room = ground arith;
  the_room = ground arith;
  the_peer = ground arith;
  of_room = ground arith;
}

-- A change through a handle that was just taken reaches the located peer, and nobody else.
pub get_peer-on_peer :
    (socket : Socket) (r q j : String) (room : Room) (peer : Peer) (f : Peer → Peer) (s : Sfu)
    → locate socket s ≡ some (r, room, peer)
    → get_peer q j (on_peer (handle_of socket (r, room, peer)) f s)
      ≡ (if (r == q) && (socket.id == j) then some (f peer) else get_peer q j s)
unfolding on_peer
get_peer-on_peer socket r q j room peer f s h =
    let at = locate-IsAt socket r room peer s h in
    get_peer-update_peer r q socket.id j peer.ref f s ∙ ground (arith, at.the_peer)

locate_from :
    (socket : Socket) (r : String) (room : Room) (peer : Peer) (s : Sfu)
    → get socket.id s.socket_room ≡ some r
    → get r s.rooms ≡ some room
    → get socket.id room.peers ≡ some peer
    → locate socket s ≡ some (r, room, peer)
unfolding locate get_room
locate_from socket r room peer s a b c = rw (a, locate) (rw (b, locate) (rw (c, locate)))

-- After the change the handler still finds the peer, changed.
pub locate-on_peer :
    (socket : Socket) (r : String) (room : Room) (peer : Peer) (f : Peer → Peer) (s : Sfu)
    → locate socket s ≡ some (r, room, peer)
    → locate socket (on_peer (handle_of socket (r, room, peer)) f s)
      ≡ some (r, with_peers room (set socket.id (f peer) room.peers), f peer)
unfolding on_peer
locate-on_peer socket r room peer f s h =
    let at = locate-IsAt socket r room peer s h in
    rw (update_peer_here r socket.id room peer f s (unfold get_room in at.the_room) at.of_room) (
      unfold put_peers in
      locate_from socket r _ (f peer) _ at.in_room (get-set_self r _ s.rooms)
        (get-set_self socket.id (f peer) room.peers))
