-- ===== src/Sfu/Producers/Listing.antt =====
-- What the producers of a peer come to for the others of its room: the listing that a newcomer gets
-- and the announcements.
use a_meet.Prelude.{
  ◌≤◌, ◌<◌, String, ◌==◌, eq_iff, eq_refl, ◌≡◌, refl, false, Option, none, some, List, [], ◌∷◌, map,
  arith, length, Option-cases, Bool-cases, inl, inr, ◌∙◌, In, subst, In-append_left,
  In-append_right, In-append-cases, In-map, In-map-cases, ◌↔◌,
}
use a_meet.Prelude.Maps.{get, set, get-set_self, In-get, get-set, length-set}
use a_meet.Types.{valid}
use a_meet.Sfu.{
  Sfu, Room, Peer, Producer, Descriptor, describe, get_room, get_peer, other_producers,
  list_other_producers,
}
use a_meet.Sfu.Join.{Socket}
use a_meet.Sfu.Handles.{Handle, wait, locate, handle_of}
use a_meet.Sfu.Handles.Objects.{get_peer-on_peer}
use a_meet.Sfu.Producers.{
  Produce, begin_produce, begin_produce_at, finish_produce, follow_audio, add_producer,
}

-- A row stands for a producer of a peer with another socket.
pub record IsRow (except : String) (peers : List (String × Peer)) (d : Descriptor) : Type 0 where
  pub entry : String × Peer
  pub product : String × Producer
  pub listed_peer : In entry peers
  pub listed_producer : In product entry.1.producers
  pub another : (entry.1.socket_id == except) ≡ false
  pub row : describe entry.1 product ≡ d

other_producers_complete :
    (except : String) (peers : List (String × Peer)) (e : String × Peer) (p : String × Producer)
    → In e peers
    → In p e.1.producers
    → (e.1.socket_id == except) ≡ false
    → In (describe e.1 p) (other_producers except peers)
unfolding other_producers
other_producers_complete except [] e p h k other = elim h [ ]
other_producers_complete except ((key, peer) ∷ peers) e p (inl same) k other =
    subst
      (λ (x : String × Peer).
        In p x.1.producers
        → (x.1.socket_id == except) ≡ false
        → In (describe x.1 p) (other_producers except ((key, peer) ∷ peers)))
      same
      (λ k' other'. rw other' (In-append_left _ _ _ (In-map (describe peer) p peer.producers k'))) k
      other
other_producers_complete except ((key, peer) ∷ peers) e p (inr h) k other =
    elim (Bool-cases (peer.socket_id == except)) [
      | inl own ↦ rw own (other_producers_complete except peers e p h k other)
      | inr not_own ↦ rw not_own (
          In-append_right _ (map (describe peer) peer.producers) _
            (other_producers_complete except peers e p h k other))
    ]

other_producers-IsRow :
    (except : String) (peers : List (String × Peer)) (d : Descriptor)
    → In d (other_producers except peers)
    → IsRow except peers d
unfolding other_producers
other_producers-IsRow except [] d h = elim h [ ]
other_producers-IsRow except ((key, peer) ∷ peers) d h =
    elim (Bool-cases (peer.socket_id == except)) [
      | inl own ↦ later (other_producers-IsRow except peers d (rw own at h))
      | inr not_own ↦
          elim (In-append-cases d (map (describe peer) peer.producers) _ (rw not_own at h)) [
            | inl here ↦
                let (p, k, e) = In-map-cases (describe peer) d peer.producers here in
                record {
                  entry = (key, peer);
                  product = p;
                  listed_peer = inl refl;
                  listed_producer = k;
                  another = not_own;
                  row = e;
                }
            | inr rest ↦ later (other_producers-IsRow except peers d rest)
          ]
    ]
  where
    later : IsRow except peers d → IsRow except ((key, peer) ∷ peers) d
    later r = record {
      entry = r.entry;
      product = r.product;
      listed_peer = inr r.listed_peer;
      listed_producer = r.listed_producer;
      another = r.another;
      row = r.row;
    }

-- The listing for a socket holds exactly a row for each producer of each peer of the room whose
-- socket is another.
pub list_other_producers_iff :
    (r except : String) (room : Room) (s : Sfu) (d : Descriptor)
    → get_room r s ≡ some room
    → In d (list_other_producers (some r) except s) ↔ IsRow except room.peers d
unfolding list_other_producers get_room
list_other_producers_iff r except room s d e =
    rw (e, list_other_producers)
      (
        (other_producers-IsRow except room.peers d),
        λ (row : IsRow except room.peers d).
            subst (λ (x : Descriptor). In x (other_producers except room.peers)) row.row
              (other_producers_complete except room.peers row.entry row.product row.listed_peer
                row.listed_producer row.another),
      )

-- What a granted `sfu-produce` has established.
pub record Granted (socket : Socket) (h : Handle) (s : Sfu) : Type 0 where
  pub room_id : String
  pub room : Room
  pub peer : Peer
  pub located : locate socket s ≡ some (room_id, room, peer)
  pub handle : h ≡ handle_of socket (room_id, room, peer)
  pub below : length peer.producers < 5

begin_produce_at-Granted :
    (socket : Socket) (pr : Produce) (h : Handle) (s : Sfu) (at : Option (String × Room × Peer))
    → locate socket s ≡ at
    → begin_produce_at socket pr at ≡ wait h
    → Granted socket h s
unfolding begin_produce_at
begin_produce_at-Granted socket pr h s none e w = absurd (ground arith)
begin_produce_at-Granted socket pr h s (some (r, room, peer)) e w = record {
  room_id = r;
  room = room;
  peer = peer;
  located = e;
  handle = ground arith;
  below = ground arith;
}

get_peer-follow_audio :
    (h : Handle) (p : Producer) (q j : String) (s : Sfu)
    → get_peer q j (follow_audio h p s) ≡ get_peer q j s
unfolding follow_audio get_peer
get_peer-follow_audio h p q j s = elim (Option-cases (get h.room_id s.rooms)) [
  | inl e ↦ rw (e, follow_audio)
  | inr (room, e) ↦ ground (
    arith,
    eq_iff h.room_id q,
    get-set h.room_id q (record room { audio_sockets = set p.id h.socket_id room.audio_sockets })
        s.rooms,
  )
]

listed_of_peer :
    (r i except : String) (peer : Peer) (p : String × Producer) (s : Sfu)
    → get_peer r i s ≡ some peer
    → In p peer.producers
    → (peer.socket_id == except) ≡ false
    → In (describe peer p) (list_other_producers (some r) except s)
unfolding list_other_producers get_peer
listed_of_peer r i except peer p s at k other = elim (Option-cases (get r s.rooms)) [
  | inl e ↦ absurd (ground arith)
  | inr (room, e) ↦
      rw (e, list_other_producers)
        (other_producers_complete except room.peers (i, peer) p
          (In-get i peer room.peers (ground arith)) k other)
]

-- A granted `sfu-produce` that nothing interrupts: the producer is the peer's, who has five at most;
-- the room's other sockets are told of it, and a newcomer's listing has it.
pub produce_alone :
    (socket : Socket) (newcomer : String) (pr : Produce) (h : Handle) (p : Producer) (s : Sfu)
    → begin_produce socket (valid pr) s ≡ wait h
    → let t = finish_produce socket h p s in
      (peer : Peer) × (get_peer h.room_id socket.id t.0 ≡ some peer)
      × (get p.id peer.producers ≡ some p)
      × (length peer.producers ≤ 5)
      × ((peer.socket_id == newcomer) ≡ false
          → In (describe peer (p.id, p)) (list_other_producers (some h.room_id) newcomer t.0))
produce_alone socket newcomer pr h p s w = rw g.handle (
  add_producer p g.peer,
  at,
  get-set_self p.id p g.peer.producers,
  (let below = g.below in ground (arith, length-set p.id p g.peer.producers)),
  λ other.
      listed_of_peer g.room_id socket.id newcomer (add_producer p g.peer) (p.id, p) _ at
        (In-get p.id p _ (get-set_self p.id p g.peer.producers)) other,
)
  where
    g : Granted socket h s
    g = unfold begin_produce in begin_produce_at-Granted socket pr h s (locate socket s) refl w

    k : Handle
    k = handle_of socket (g.room_id, g.room, g.peer)

    at : get_peer g.room_id socket.id (finish_produce socket k p s).0 ≡ some (add_producer p g.peer)
    at =
        unfold finish_produce in
        get_peer-follow_audio k p g.room_id socket.id _
        ∙ get_peer-on_peer socket g.room_id g.room_id socket.id g.room g.peer (add_producer p) s
            g.located
        ∙ simp eq_refl
