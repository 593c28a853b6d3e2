-- ===== src/Sfu/Producers.antt =====
-- server/src/socket/sfu-handlers.ts: `sfu-produce`, `sfu-get-producers`, `sfu-pause-producer`,
-- `sfu-resume-producer` and `sfu-close-producer`.
pub mod Listing
pub mod Muting
mod Tests
use a_meet.Prelude.{
  ℕ, suc, String, ◌==◌, Bool, true, false, not, ◌&&◌, ◌||◌, Option, none, some, List, [], ◌∷◌,
  if◌then◌else◌, leb, length,
}
use a_meet.Prelude.Maps.{get, set, delete}
use a_meet.Types.{Audience, self, others, Validated, invalid, valid}
use a_meet.Sfu.{
  Sfu, Room, Peer, Producer, Consumer, Direction, Kind, audio, video, Descriptor, get_room,
  get_peer, update_peer, list_other_producers,
}
use a_meet.Sfu.Join.{Socket}
use a_meet.Sfu.Handles.{
  Handle, Ack, error, created, produced, consumed, connected, resumed, paused, closed, ok, listed,
  Begin, refuse, wait, locate, handle_of, on_peer, check_cap, found_in, transports_of, producers_of,
  consumers_of, answer, Notice, new_producer, consumer_closed, producer_paused, producer_resumed,
  max_transports_per_peer, max_producers_per_peer, max_consumers_per_peer,
}

-- What a peer asks to produce: on which transport, and what.
pub record Produce : Type 0 where
  pub transport_id : String
  pub kind : Kind
  pub source : Option String

begin_produce_at : Socket → Produce → Option (String × Room × Peer) → Begin
begin_produce_at socket p none = refuse "send transport not found"
begin_produce_at socket p (some (room_id, room, peer)) = elim (get p.transport_id peer.transports) [
  | none ↦ refuse "send transport not found"
  | some direction ↦
      check_cap (handle_of socket (room_id, room, peer)) max_producers_per_peer
        (length peer.producers) "too many producers"
]

-- `sfu-produce`
pub begin_produce : Socket → Validated Produce → Sfu → Begin
unfolding begin_produce_at
begin_produce socket (invalid message) s = refuse message
begin_produce socket (valid p) s = begin_produce_at socket p (locate socket s)

abbrev pub is_screen : Option String → Bool
is_screen none = false
is_screen (some source) = source == "screen"

abbrev pub is_audio : Kind → Bool
is_audio audio = true
is_audio video = false

abbrev pub is_mic : Producer → Bool
is_mic p = is_audio p.kind && not (is_screen p.source)

-- The observer of the room object follows the microphone.
pub follow_audio : Handle → Producer → Sfu → Sfu
follow_audio h p s = elim (get h.room_id s.rooms) [
  | none ↦ s
  | some room ↦
      if room.router == h.router && is_mic p && room.has_observer
      then record s {
        rooms =
            set h.room_id (record room { audio_sockets = set p.id h.socket_id room.audio_sockets })
              s.rooms;
      }
      else s
]

abbrev announcement : Socket → Producer → Descriptor
announcement socket p = record {
  producer_id = p.id;
  socket_id = socket.id;
  user = socket.user;
  kind = p.kind;
  paused = p.paused;
  source = p.source;
}

abbrev pub add_producer : Producer → Peer → Peer
add_producer p peer = record peer { producers = set p.id p peer.producers }

pub finish_produce : Socket → Handle → Producer → Sfu → Sfu × List (Audience × Notice) × Ack
unfolding on_peer follow_audio
finish_produce socket h p s = (
  follow_audio h p (on_peer h (add_producer p) s),
  (others h.room_id, new_producer (announcement socket p)) ∷ [],
  produced p.id,
)

-- The producer's `transportclose` listener.
pub drop_producer : Handle → String → Sfu → Sfu
unfolding on_peer
drop_producer h id s = on_peer h (λ peer. record peer { producers = delete id peer.producers }) s

abbrev pub at_producer : Socket → String → Sfu → Option (String × Room × Peer × Producer)
at_producer socket id s = elim (locate socket s) [
  | none ↦ none
  | some (room_id, room, peer) ↦ elim (get id peer.producers) [
    | none ↦ none
    | some p ↦ some (room_id, room, peer, p)
  ]
]

abbrev pub put_producer : String → Producer → Peer → Peer
put_producer id p peer = record peer { producers = set id p peer.producers }

abbrev pub pausing : Bool → String → String → Notice
pausing true id socket_id = producer_paused id socket_id
pausing false id socket_id = producer_resumed id socket_id

set_paused_at :
    Bool
    → Socket
    → String
    → Option String
    → Option (String × Room × Peer × Producer)
    → Sfu
    → Sfu × List (Audience × Notice) × Ack
unfolding on_peer
set_paused_at pause socket id failure none s = (s, [], error "producer not found")
set_paused_at pause socket id (some message) (some at) s = (s, [], error message)
set_paused_at pause socket id none (some (room_id, room, peer, p)) s = (
  on_peer (handle_of socket (room_id, room, peer)) (put_producer id (record p { paused = pause }))
      s,
  (others room_id, pausing pause id socket.id) ∷ [],
  if pause then paused else resumed,
)

-- `sfu-pause-producer` and `sfu-resume-producer`; mediasoup sets the producer's `paused`.
pub set_paused :
    Bool → Socket → Validated String → Option String → Sfu → Sfu × List (Audience × Notice) × Ack
unfolding set_paused_at
set_paused pause socket (invalid message) failure s = (s, [], error message)
set_paused pause socket (valid id) failure s =
    set_paused_at pause socket id failure (at_producer socket id s) s

close_at : Socket → String → Option (String × Room × Peer × Producer) → Sfu → Sfu × Ack
unfolding drop_producer
close_at socket id none s = (s, error "producer not found")
close_at socket id (some (room_id, room, peer, p)) s =
    (drop_producer (handle_of socket (room_id, room, peer)) id s, closed)

-- `sfu-close-producer`
pub close_producer : Socket → Validated String → Sfu → Sfu × Ack
unfolding close_at
close_producer socket (invalid message) s = (s, error message)
close_producer socket (valid id) s = close_at socket id (at_producer socket id s) s

-- `sfu-get-producers`
pub get_producers : Socket → Validated (Unit {0}) → Sfu → Ack
get_producers socket (invalid message) s = error message
get_producers socket (valid u) s =
    listed (list_other_producers (get socket.id s.socket_room) socket.id s)
