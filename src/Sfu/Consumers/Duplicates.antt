-- ===== src/Sfu/Consumers/Duplicates.antt =====
-- The duplicate-consume guard and the consumer cap.
use a_meet.Prelude.{
  ◌==◌, Bool-cases, inl, inr, sym, subst, ◌≤◌, ◌<◌, String, eq_refl, ◌≡◌, refl, true, false, Option,
  none, some, List, [], ◌∷◌, arith, length, ◌∙◌,
}
use a_meet.Prelude.Maps.{get, get-set_self, length-set}
use a_meet.Types.{valid}
use a_meet.Sfu.{Sfu, Room, Peer, Consumer, Kind, get_peer}
use a_meet.Sfu.Join.{Socket}
use a_meet.Sfu.Handles.{Handle, wait, refuse, locate, handle_of}
use a_meet.Sfu.Handles.Objects.{locate-on_peer, get_peer-on_peer}
use a_meet.Sfu.Consumers.{
  Consume, begin_consume, begin_consume_at, is_consuming, new_consumer, add_consumer,
  finish_consume,
}

-- What a granted `sfu-consume` has established.
pub record Granted (socket : Socket) (c : Consume) (h : Handle) (s : Sfu) : Type 0 where
  pub room_id : String
  pub room : Room
  pub peer : Peer
  pub located : locate socket s ≡ some (room_id, room, peer)
  pub handle : h ≡ handle_of socket (room_id, room, peer)
  pub below : length peer.consumers < 245
  pub no_duplicate : is_consuming c.producer_id peer.consumers ≡ false
  pub consumable : c.can_consume ≡ true

begin_consume_at-Granted :
    (socket : Socket) (c : Consume) (h : Handle) (s : Sfu) (at : Option (String × Room × Peer))
    → locate socket s ≡ at
    → begin_consume_at socket c at ≡ wait h
    → Granted socket c h s
unfolding begin_consume_at
begin_consume_at-Granted socket c h s none e w = absurd (ground arith)
begin_consume_at-Granted socket c h s (some (r, room, peer)) e w = record {
  room_id = r;
  room = room;
  peer = peer;
  located = e;
  handle = ground arith;
  below = ground arith;
  no_duplicate = ground arith;
  consumable = ground arith;
}

pub begin_consume-Granted :
    (socket : Socket) (c : Consume) (h : Handle) (s : Sfu)
    → begin_consume socket (valid c) s ≡ wait h
    → Granted socket c h s
unfolding begin_consume
begin_consume-Granted socket c h s w =
    begin_consume_at-Granted socket c h s (locate socket s) refl w

-- The peer that a socket is located with has a consumer of the producer under this id, not closed.
pub record IsKept (socket : Socket) (id producer_id : String) (t : Sfu) : Type 0 where
  pub room_id : String
  pub room : Room
  pub peer : Peer
  pub consumer : Consumer
  pub located : locate socket t ≡ some (room_id, room, peer)
  pub listed : get id peer.consumers ≡ some consumer
  pub same : consumer.producer_id ≡ producer_id
  pub live : consumer.closed ≡ false

is_consuming-get :
    (id producer_id : String) (c : Consumer) (m : List (String × Consumer))
    → get id m ≡ some c
    → c.producer_id ≡ producer_id
    → c.closed ≡ false
    → is_consuming producer_id m ≡ true
unfolding is_consuming get
is_consuming-get id producer_id c [] h p l = absurd (ground arith)
is_consuming-get id producer_id c ((k, d) ∷ m) h p l = elim (Bool-cases (k == id)) [
  | inl e ↦
      let s : d ≡ c = ground arith in
      let q : (d.producer_id == producer_id) ≡ true =
        subst (λ x. (x.producer_id == producer_id) ≡ true) (sym s)
          (subst (λ x. (x == producer_id) ≡ true) (sym p) (eq_refl producer_id)) in
      let n : d.closed ≡ false = subst (λ x. x.closed ≡ false) (sym s) l in ground arith
  | inr e ↦ let ih = is_consuming-get id producer_id c m (ground arith) p l in ground arith
]

refused_again :
    (socket : Socket) (c : Consume) (id : String) (t : Sfu)
    → IsKept socket id c.producer_id t
    → c.can_consume ≡ true
    → begin_consume socket (valid c) t ≡ refuse "already consuming this producer"
unfolding begin_consume begin_consume_at
refused_again socket c id t k ok =
    rw (k.located, begin_consume_at)
      (rw ok
        (rw (is_consuming-get id c.producer_id k.consumer k.peer.consumers k.listed k.same k.live)))

-- What `sfu-consume` leaves when nothing interrupts it
pub record HasConsumer (socket : Socket) (h : Handle) (id producer_id : String) (kind : Kind)
    (t : Sfu) : Type 0 where
  pub peer : Peer
  pub here : get_peer h.room_id socket.id t ≡ some peer
  pub added : get id peer.consumers ≡ some (new_consumer id producer_id kind)
  pub bounded : length peer.consumers ≤ 245
  pub kept : IsKept socket id producer_id t

-- A granted `sfu-consume` that nothing interrupts leaves the peer with a paused consumer of the
-- producer and 245 consumers at most. In that store, and in each later one in which the socket's peer
-- still has a consumer of the producer under that id that is not closed, the same request is refused,
-- on any transport.
pub consume_alone :
    (socket : Socket) (c : Consume) (h : Handle) (id transport : String) (kind : Kind)
    (s later : Sfu)
    → begin_consume socket (valid c) s ≡ wait h
    → IsKept socket id c.producer_id later
    → HasConsumer socket h id c.producer_id kind (finish_consume h id c.producer_id kind s).0
      × (begin_consume socket (valid (record c { transport_id = transport })) later
          ≡ refuse "already consuming this producer")
unfolding finish_consume
consume_alone socket c h id transport kind s later w k = (
  rw g.handle (record {
    peer = add_consumer (new_consumer id c.producer_id kind) g.peer;
    here =
        get_peer-on_peer socket g.room_id g.room_id socket.id g.room g.peer _ s g.located
        ∙ simp eq_refl;
    added = get-set_self id _ g.peer.consumers;
    bounded =
        let below = g.below in
        ground (arith, length-set id (new_consumer id c.producer_id kind) g.peer.consumers);
    kept = record {
      room_id = g.room_id;
      room = _;
      peer = add_consumer (new_consumer id c.producer_id kind) g.peer;
      consumer = new_consumer id c.producer_id kind;
      located =
          locate-on_peer socket g.room_id g.room g.peer
            (add_consumer (new_consumer id c.producer_id kind)) s g.located;
      listed = get-set_self id _ g.peer.consumers;
      same = refl;
      live = refl;
    };
  }),
  refused_again socket (record c { transport_id = transport }) id later k g.consumable,
)
  where
    g : Granted socket c h s
    g = begin_consume-Granted socket c h s w
