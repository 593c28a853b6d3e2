-- ===== src/Sfu/Transports.antt =====
-- server/src/socket/sfu-handlers.ts: `sfu-create-transport`, `sfu-connect-transport` and the
-- listeners of a transport.
pub mod Caps
mod Tests
use a_meet.Prelude.{
  ℕ, suc, String, ◌==◌, Bool, true, false, not, ◌&&◌, ◌||◌, Option, none, some, List, [], ◌∷◌,
  if◌then◌else◌, leb, length,
}
use a_meet.Prelude.Maps.{get, set, delete}
use a_meet.Types.{Audience, self, others, Validated, invalid, valid}
use a_meet.Sfu.{
  Sfu, Room, Peer, Producer, Consumer, Direction, Kind, audio, video, Descriptor, get_room,
  get_peer, update_peer, list_other_producers,
}
use a_meet.Sfu.Join.{Socket}
use a_meet.Sfu.Handles.{
  Handle, Ack, error, created, produced, consumed, connected, resumed, paused, closed, ok, listed,
  Begin, refuse, wait, locate, handle_of, on_peer, check_cap, found_in, transports_of, producers_of,
  consumers_of, answer, Notice, new_producer, consumer_closed, producer_paused, producer_resumed,
  max_transports_per_peer, max_producers_per_peer, max_consumers_per_peer,
}

-- `sfu-create-transport`
begin_transport_at : Socket → Option (String × Room × Peer) → Begin
begin_transport_at socket none = refuse "not in room"
begin_transport_at socket (some (room_id, room, peer)) =
    check_cap (handle_of socket (room_id, room, peer)) max_transports_per_peer
      (length peer.transports) "too many transports"

pub begin_create_transport : Socket → Validated Direction → Sfu → Begin
unfolding begin_transport_at
begin_create_transport socket (invalid message) s = refuse message
begin_create_transport socket (valid direction) s = begin_transport_at socket (locate socket s)

abbrev pub add_transport : String → Direction → Peer → Peer
add_transport id direction peer = record peer { transports = set id direction peer.transports }

pub finish_create_transport : Handle → Direction → String → Sfu → Sfu × Ack
unfolding on_peer
finish_create_transport h direction id s = (on_peer h (add_transport id direction) s, created id)

-- The listeners that free the transport's slot: the router closes, or ICE or DTLS reach a terminal
-- state.
pub release_transport : Handle → String → Sfu → Sfu
unfolding on_peer
release_transport h id s =
    on_peer h (λ peer. record peer { transports = delete id peer.transports }) s

pub is_terminal : String → Bool
is_terminal state = state == "closed" || state == "failed"

pub on_state_change : Handle → String → String → Sfu → Sfu
on_state_change h id state s = if is_terminal state then release_transport h id s else s

-- `sfu-connect-transport`
pub connect_transport : Socket → Validated String → Option String → Sfu → Ack
connect_transport socket (invalid message) failure s = error message
connect_transport socket (valid id) failure s = elim (found_in transports_of id (locate socket s)) [
  | none ↦ error "transport not found"
  | some direction ↦ answer failure connected
]
