-- ===== src/Sfu/Consumers.antt =====
-- server/src/socket/sfu-handlers.ts: `sfu-consume`, `sfu-resume-consumer` and the listeners of a
-- consumer.
pub mod Duplicates
mod Tests
use a_meet.Prelude.{
  ℕ, suc, String, ◌==◌, Bool, true, false, not, ◌&&◌, ◌||◌, Option, none, some, List, [], ◌∷◌,
  if◌then◌else◌, leb, length,
}
use a_meet.Prelude.Maps.{get, set, delete}
use a_meet.Types.{Audience, self, others, Validated, invalid, valid}
use a_meet.Sfu.{
  Sfu, Room, Peer, Producer, Consumer, Direction, Kind, audio, video, Descriptor, get_room,
  get_peer, update_peer, list_other_producers,
}
use a_meet.Sfu.Join.{Socket}
use a_meet.Sfu.Handles.{
  Handle, Ack, error, created, produced, consumed, connected, resumed, paused, closed, ok, listed,
  Begin, refuse, wait, locate, handle_of, on_peer, check_cap, found_in, transports_of, producers_of,
  consumers_of, answer, Notice, new_producer, consumer_closed, producer_paused, producer_resumed,
  max_transports_per_peer, max_producers_per_peer, max_consumers_per_peer,
}

-- A live consumer of the producer.
pub is_consuming : String → List (String × Consumer) → Bool
is_consuming producer_id [] = false
is_consuming producer_id ((key, c) ∷ consumers) =
    (c.producer_id == producer_id && not c.closed) || is_consuming producer_id consumers

pub record Consume : Type 0 where
  pub transport_id : String
  pub producer_id : String
  -- `room.router.canConsume`
  pub can_consume : Bool

begin_consume_at : Socket → Consume → Option (String × Room × Peer) → Begin
unfolding is_consuming
begin_consume_at socket c none = refuse "not in room"
begin_consume_at socket c (some (room_id, room, peer)) =
    if not c.can_consume
    then refuse "cannot consume this producer"
    else if is_consuming c.producer_id peer.consumers
    then refuse "already consuming this producer"
    else if leb max_consumers_per_peer (length peer.consumers)
    then refuse "too many consumers"
    else (elim (get c.transport_id peer.transports) [
      | none ↦ refuse "recv transport not found"
      | some direction ↦ wait (handle_of socket (room_id, room, peer))
    ])

-- `sfu-consume`
pub begin_consume : Socket → Validated Consume → Sfu → Begin
unfolding begin_consume_at
begin_consume socket (invalid message) s = refuse message
begin_consume socket (valid c) s = begin_consume_at socket c (locate socket s)

abbrev pub new_consumer : String → String → Kind → Consumer
new_consumer id producer_id kind = record {
  id = id;
  producer_id = producer_id;
  kind = kind;
  closed = false;
  paused = true;
}

abbrev pub add_consumer : Consumer → Peer → Peer
add_consumer c peer = record peer { consumers = set c.id c peer.consumers }

pub finish_consume : Handle → String → String → Kind → Sfu → Sfu × Ack
unfolding on_peer
finish_consume h id producer_id kind s =
    (on_peer h (add_consumer (new_consumer id producer_id kind)) s, consumed id)

-- The consumer's `transportclose` listener, and its `producerclose` listener.
pub drop_consumer : Handle → String → Sfu → Sfu
unfolding on_peer
drop_consumer h id s = on_peer h (λ peer. record peer { consumers = delete id peer.consumers }) s

pub on_producer_close : Handle → String → Sfu → Sfu × List (Audience × Notice)
unfolding drop_consumer
on_producer_close h id s = (drop_consumer h id s, (self, consumer_closed id) ∷ [])

resume_at : Socket → String → Option String → Option (String × Room × Peer) → Sfu → Sfu × Ack
unfolding on_peer
resume_at socket id failure none s = (s, error "consumer not found")
resume_at socket id failure (some (room_id, room, peer)) s = elim (get id peer.consumers) [
  | none ↦ (s, error "consumer not found")
  | some c ↦ elim failure [
    | some message ↦ (s, error message)
    | none ↦ (
      on_peer (handle_of socket (room_id, room, peer))
          (λ p. record p { consumers = set id (record c { paused = false }) p.consumers }) s,
      resumed,
    )
  ]
]

-- `sfu-resume-consumer`
pub resume_consumer : Socket → Validated String → Option String → Sfu → Sfu × Ack
unfolding resume_at
resume_consumer socket (invalid message) failure s = (s, error message)
resume_consumer socket (valid id) failure s = resume_at socket id failure (locate socket s) s
