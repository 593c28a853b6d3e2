-- ===== src/Sfu/Join/Leave.antt =====
-- The departure of a peer from the SFU: the `disconnect` listener of sfu-handlers.ts.
use a_meet.Prelude.{
  ◌<◌, String, ◌==◌, eq_refl, ◌≡◌, false, none, some, [], ◌∷◌, ◌∙◌, ap, ◌&&◌, length, if◌then◌else◌,
}
use a_meet.Prelude.Maps.{get, get-delete}
use a_meet.Types.{others}
use a_meet.Sfu.{Sfu, Room, get_room, get_peer}
use a_meet.Sfu.Rooms.{
  get_peer-remove_peer, get_peer-close_room_if_empty, get_room-close_room_if_empty,
  socket_room-close_room_if_empty, get_peer-socket_room,
}
use a_meet.Sfu.Join.{Socket, peer_left, disconnect}

-- What is left when a peer of a room has gone.
pub record HasLeft (socket : Socket) (room_id : String) (s t : Sfu) : Type 0 where
  pub absent : get_peer room_id socket.id t ≡ none
  pub forgotten : get socket.id t.socket_room ≡ none
  pub others_kept :
      (q j : String)
      → ((room_id == q) && (socket.id == j)) ≡ false
      → get_peer q j t ≡ get_peer q j s
  pub freed : (room : Room) → get_room room_id t ≡ some room → 0 < length room.peers

get_peer-disconnect :
    (socket : Socket) (r q j : String) (s : Sfu)
    → get socket.id s.socket_room ≡ some r
    → get_peer q j (disconnect socket s).0
      ≡ (if (r == q) && (socket.id == j) then none else get_peer q j s)
unfolding disconnect
get_peer-disconnect socket r q j s e =
    rw (e, disconnect)
      (get_peer-close_room_if_empty r q j _
        ∙ get_peer-socket_room q j _ _
        ∙ get_peer-remove_peer r q socket.id j s)

socket_room-disconnect :
    (socket : Socket) (r : String) (s : Sfu)
    → get socket.id s.socket_room ≡ some r
    → get socket.id (disconnect socket s).0.socket_room ≡ none
unfolding disconnect
socket_room-disconnect socket r s e =
    rw (e, disconnect)
      (ap (λ m. get socket.id m) (socket_room-close_room_if_empty r _)
        ∙ get-delete socket.id socket.id _
        ∙ simp eq_refl)

freed_by_disconnect :
    (socket : Socket) (r : String) (room : Room) (s : Sfu)
    → get socket.id s.socket_room ≡ some r
    → get_room r (disconnect socket s).0 ≡ some room
    → 0 < length room.peers
unfolding disconnect
freed_by_disconnect socket r room s e h =
    (get_room-close_room_if_empty r room _ (rw (e, disconnect) at h)).0

-- The disconnection of a socket that is in a room takes its peer out of it, and nobody else; the
-- room is freed if that was the last peer, and the room's other sockets are told.
pub disconnect-HasLeft :
    (socket : Socket) (r : String) (s : Sfu)
    → get socket.id s.socket_room ≡ some r
    → HasLeft socket r s (disconnect socket s).0
      × ((disconnect socket s).1 ≡ (others r, peer_left socket.id) ∷ [])
disconnect-HasLeft socket r s e = (
  record {
    absent = get_peer-disconnect socket r r socket.id s e ∙ simp eq_refl;
    forgotten = socket_room-disconnect socket r s e;
    others_kept = λ q j other. get_peer-disconnect socket r q j s e ∙ simp other;
    freed = λ room h. freed_by_disconnect socket r room s e h;
  },
  unfold disconnect in rw (e, disconnect),
)
