-- ===== src/Sfu/Handles.antt =====
-- What the media handlers of server/src/socket/sfu-handlers.ts share, and the caps of
-- server/src/sfu/config.ts. A handler that waits for mediasoup is cut there: `begin_…` makes its
-- checks and keeps what the handler holds, `finish_…` is the rest, with the object that mediasoup
-- created. A call of mediasoup that only succeeds or fails is an argument, the message of its error
-- if there is one. Payloads are validated by Joi.
pub mod Objects
use a_meet.Prelude.{
  ℕ, suc, String, ◌==◌, Bool, true, false, not, ◌&&◌, ◌||◌, Option, none, some, List, [], ◌∷◌,
  if◌then◌else◌, leb, length,
}
use a_meet.Prelude.Maps.{get, set, delete}
use a_meet.Types.{Audience, self, others, Validated, invalid, valid}
use a_meet.Sfu.{
  Sfu, Room, Peer, Producer, Consumer, Direction, Kind, audio, video, Descriptor, get_room,
  get_peer, update_peer, list_other_producers,
}
use a_meet.Sfu.Join.{Socket}

abbrev pub max_transports_per_peer : ℕ
max_transports_per_peer = 4

abbrev pub max_producers_per_peer : ℕ
max_producers_per_peer = 5

-- (50 - 1) * 5
abbrev pub max_consumers_per_peer : ℕ
max_consumers_per_peer = 245

-- The room, the room object (by its router) and the peer object that a handler holds while it waits.
pub record Handle : Type 0 where
  pub room_id : String
  pub router : String
  pub socket_id : String
  pub ref : ℕ

pub data Ack : Type 0 where
  error : String → Ack
  created produced consumed : String → Ack
  connected resumed paused closed ok : Ack
  listed : List Descriptor → Ack

pub data Begin : Type 0 where
  refuse : String → Begin
  wait : Handle → Begin

-- `getRoom(socketRoom.get(socket.id))` and `getPeer(socketRoom.get(socket.id), socket.id)`.
unfoldable pub locate : Socket → Sfu → Option (String × Room × Peer)
locate socket s = elim (get socket.id s.socket_room) [
  | none ↦ none
  | some room_id ↦ elim (get_room room_id s) [
    | none ↦ none
    | some room ↦ elim (get socket.id room.peers) [
      | none ↦ none
      | some peer ↦ some (room_id, room, peer)
    ]
  ]
]

abbrev pub handle_of : Socket → String × Room × Peer → Handle
handle_of socket (room_id, room, peer) = record {
  room_id = room_id;
  router = room.router;
  socket_id = socket.id;
  ref = peer.ref;
}

-- The handler's change to the peer object that it holds.
unfoldable pub on_peer : Handle → (Peer → Peer) → Sfu → Sfu
on_peer h f s = update_peer h.room_id h.socket_id h.ref f s

abbrev pub check_cap : Handle → ℕ → ℕ → String → Begin
check_cap h cap size message = if leb cap size then refuse message else wait h

abbrev pub found_in {ℓ} :
    {V : Type ℓ} → (Peer → List (String × V)) → String → Option (String × Room × Peer) → Option V
found_in part id none = none
found_in part id (some (room_id, room, peer)) = get id (part peer)

abbrev pub transports_of : Peer → List (String × Direction)
transports_of peer = peer.transports

abbrev pub producers_of : Peer → List (String × Producer)
producers_of peer = peer.producers

abbrev pub consumers_of : Peer → List (String × Consumer)
consumers_of peer = peer.consumers

abbrev pub answer : Option String → Ack → Ack
answer none ack = ack
answer (some message) ack = error message

pub data Notice : Type 0 where
  new_producer : Descriptor → Notice
  consumer_closed : String → Notice
  producer_paused producer_resumed : String → String → Notice
