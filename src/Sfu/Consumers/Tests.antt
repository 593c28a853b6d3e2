-- ===== src/Sfu/Consumers/Tests.antt =====
-- Tests of the consumer events, and the theorem at a concrete input.
use a_meet.Prelude.{◌≡◌, refl, true, false, none, [], ◌∷◌}
use a_meet.Prelude.Maps.{get, set, delete}
use a_meet.Types.{valid, self}
use a_meet.Sfu.{Sfu, audio, get_room, get_peer, update_peer, put_peers}
use a_meet.Sfu.Sample.{ann, code, ann_peer, room, sfu}
use a_meet.Sfu.Join.{Socket}
use a_meet.Sfu.Handles.{
  Handle, wait, refuse, error, resumed, locate, handle_of, on_peer, consumer_closed,
}
use a_meet.Sfu.Consumers.{
  Consume, begin_consume, begin_consume_at, is_consuming, new_consumer, finish_consume,
  drop_consumer, on_producer_close, resume_consumer, resume_at,
}
use a_meet.Sfu.Consumers.Duplicates.{IsKept, HasConsumer, consume_alone}

consumers : Unit {0}
unfolding begin_consume begin_consume_at is_consuming finish_consume drop_consumer on_producer_close
    resume_consumer resume_at locate on_peer update_peer put_peers get_room get_peer get set delete
consumers = tt

abbrev socket : Socket
socket = record { id = "s1"; user = ann }

abbrev handle : Handle
handle = handle_of socket (code, room, ann_peer)

abbrev request : Consume
request = record { transport_id = "t2"; producer_id = "p2"; can_consume = true }

abbrev after : Sfu
after = (finish_consume handle "c1" "p2" audio sfu).0

refusals :
    (begin_consume socket (valid (record request { can_consume = false })) sfu
      ≡ refuse "cannot consume this producer")
    × (begin_consume socket (valid (record request { transport_id = "t9" })) sfu
        ≡ refuse "recv transport not found")
    × ((resume_consumer socket (valid "c1") none sfu).1 ≡ error "consumer not found")
    × ((resume_consumer socket (valid "c1") none after).1 ≡ resumed)
unfolding consumers
refusals = (refl, refl, refl, refl)

-- When the producer is closed, its consumer is dropped, and it may be consumed anew.
consume_again :
    (begin_consume socket (valid request) (on_producer_close handle "c1" after).0 ≡ wait handle)
    × ((on_producer_close handle "c1" after).1 ≡ (self, consumer_closed "c1") ∷ [])
unfolding consumers
consume_again = (refl, refl)

-- The consumer is resumed in between.
abbrev resumed_later : Sfu
resumed_later = (resume_consumer socket (valid "c1") none after).0

resumed_later-IsKept : IsKept socket "c1" "p2" resumed_later
unfolding consumers
resumed_later-IsKept = record {
  room_id = code;
  room = _;
  peer = _;
  consumer = record (new_consumer "c1" "p2" audio) { paused = false };
  located = refl;
  listed = refl;
  same = refl;
  live = refl;
}

consume_alone_example :
    HasConsumer socket handle "c1" "p2" audio after
    × (begin_consume socket (valid (record request { transport_id = "t1" })) resumed_later
        ≡ refuse "already consuming this producer")
unfolding consumers
consume_alone_example =
    consume_alone socket request handle "c1" "t1" audio sfu resumed_later refl resumed_later-IsKept
