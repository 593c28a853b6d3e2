-- ===== src/Webrtc.antt =====
-- server/src/socket/webrtc.ts: the relay of the mesh's signalling. `ready_rooms` holds each room's
-- sockets that are ready for media, `socket_ready_room` is the reverse index. A session description
-- and an ICE candidate are texts that nobody reads, `none` where they are missing.
pub mod Glare
mod Tests
use a_meet.Prelude.{
  String, Bool, true, false, not, Option, none, some, List, [], ◌∷◌, if◌then◌else◌, or_else,
}
use a_meet.Prelude.Maps.{get, set, delete, add, remove}
use a_meet.Prelude.Text.{is_empty}
use a_meet.Types.{AuthUser, Audience, self, others, one}

pub record Socket : Type 0 where
  pub id : String
  pub user : AuthUser

pub record Ready : Type 0 where
  pub ready_rooms : List (String × List String)
  pub socket_ready_room : List (String × String)

pub data Signal : Type 0 where
  offer : Signal
  answer : Signal
  ice_candidate : Signal

pub data Event : Type 0 where
  peers_ready : List String → Event
  -- with the sender's socket
  relayed : Signal → String → String → Event
  media_state : String → AuthUser → Bool → Bool → Event
  peer_left : String → Event

abbrev pub ready_of : String → Ready → List String
ready_of room_id r = or_else (get room_id r.ready_rooms) []

unfoldable pub add_ready : String → String → Ready → Ready
add_ready room_id socket_id r = record {
  ready_rooms = set room_id (add socket_id (ready_of room_id r)) r.ready_rooms;
  socket_ready_room = set socket_id room_id r.socket_ready_room;
}

-- An empty room is deleted.
abbrev pub put_ready : String → List String → Ready → Ready
put_ready room_id [] r = record r { ready_rooms = delete room_id r.ready_rooms }
put_ready room_id (x ∷ peers) r = record r { ready_rooms = set room_id (x ∷ peers) r.ready_rooms }

-- The socket's room by the index, if it has a name.
unfoldable pub ready_room : String → Ready → Option String
ready_room socket_id r = elim (get socket_id r.socket_ready_room) [
  | none ↦ none
  | some room_id ↦ if is_empty room_id then none else some room_id
]

unfoldable pub remove_ready : String → Ready → Ready × Option String
unfolding ready_room
remove_ready socket_id r = elim (ready_room socket_id r) [
  | none ↦ (r, none)
  | some room_id ↦
      let q = put_ready room_id (remove socket_id (ready_of room_id r)) r in
      (record q { socket_ready_room = delete socket_id q.socket_ready_room }, some room_id)
]

unfoldable pub webrtc_ready : Socket → String → Ready → Ready × List (Audience × Event)
unfolding add_ready
webrtc_ready socket room_id r =
    if is_empty room_id
    then (r, [])
    else (add_ready room_id socket.id r, (self, peers_ready (ready_of room_id r)) ∷ [])

-- `webrtc-offer`, `webrtc-answer` and `webrtc-ice-candidate`.
unfoldable pub relay : Signal → Socket → String → Option String → List (Audience × Event)
relay signal socket to none = []
relay signal socket to (some body) =
    if is_empty to then [] else (one to, relayed signal socket.id body) ∷ []

-- To the one peer that is named, or to the others in the sender's room.
unfoldable pub webrtc_media_state : Socket → String → Bool → Bool → Ready → List (Audience × Event)
unfolding ready_room
webrtc_media_state socket to video audio r =
    let event = media_state socket.id socket.user video audio in
    if is_empty to
    then elim (ready_room socket.id r) [ none ↦ [] | some room_id ↦ (others room_id, event) ∷ [] ]
    else (one to, event) ∷ []

unfoldable pub disconnect : Socket → Ready → Ready × List (Audience × Event)
unfolding remove_ready
disconnect socket r =
    let (q, left) = remove_ready socket.id r in
    elim left [ none ↦ (q, []) | some room_id ↦ (q, (others room_id, peer_left socket.id) ∷ []) ]
