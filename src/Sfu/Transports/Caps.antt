-- ===== src/Sfu/Transports/Caps.antt =====
-- The cap on a peer's transports: what it guarantees when a handler is not interrupted, what a burst
-- of requests does to it, and how a dead transport's slot is freed.
use a_meet.Prelude.{
  ℕ, ◌+◌, ◌≤◌, ◌<◌, String, ◌==◌, eq_refl, ◌≡◌, refl, true, false, ◌&&◌, Option, none, some, List,
  [], ◌∷◌, arith, length, ◌∙◌,
}
use a_meet.Prelude.Maps.{get, set, delete, has, get-set, length-set, length-delete-lt}
use a_meet.Types.{valid}
use a_meet.Sfu.{Sfu, Room, Peer, Direction, get_peer}
use a_meet.Sfu.Rooms.{get_peer-update_peer}
use a_meet.Sfu.Join.{Socket}
use a_meet.Sfu.Handles.{Handle, wait, locate, handle_of, on_peer}
use a_meet.Sfu.Handles.Objects.{locate-IsAt, locate-on_peer}
use a_meet.Sfu.Transports.{
  begin_create_transport, begin_transport_at, finish_create_transport, add_transport,
  release_transport, is_terminal, on_state_change,
}

-- What a granted request has established: its handle holds the peer that is in the room, and the
-- peer is below the cap.
pub record Granted (socket : Socket) (h : Handle) (s : Sfu) : Type 0 where
  pub room_id : String
  pub room : Room
  pub peer : Peer
  pub located : locate socket s ≡ some (room_id, room, peer)
  pub handle : h ≡ handle_of socket (room_id, room, peer)
  pub below : length peer.transports < 4

begin_transport_at-Granted :
    (socket : Socket) (h : Handle) (s : Sfu) (at : Option (String × Room × Peer))
    → locate socket s ≡ at
    → begin_transport_at socket at ≡ wait h
    → Granted socket h s
unfolding begin_transport_at
begin_transport_at-Granted socket h s none e w = absurd (ground arith)
begin_transport_at-Granted socket h s (some (r, room, peer)) e w = record {
  room_id = r;
  room = room;
  peer = peer;
  located = e;
  handle = ground arith;
  below = ground arith;
}

pub begin_create_transport-Granted :
    (socket : Socket) (d : Direction) (h : Handle) (s : Sfu)
    → begin_create_transport socket (valid d) s ≡ wait h
    → Granted socket h s
unfolding begin_create_transport
begin_create_transport-Granted socket d h s w =
    begin_transport_at-Granted socket h s (locate socket s) refl w

-- The transports that mediasoup creates for requests in flight, in the order in which it answers.
pub finish_all : Handle → Direction → List String → Sfu → Sfu
finish_all h d [] s = s
finish_all h d (id ∷ ids) s = finish_all h d ids (finish_create_transport h d id s).0

-- The ids are new to the peer, and distinct.
abbrev pub AreNew : List String → List (String × Direction) → Type 0
AreNew [] m = Unit
AreNew (id ∷ ids) m = (get id m ≡ none) × ((d : Direction) → AreNew ids (set id d m))

-- The peer object `ref` in the room, with so many transports.
abbrev Holds : String → String → ℕ → Peer → Sfu → Type 0
Holds r i ref peer s = (get_peer r i s ≡ some peer) × (peer.ref ≡ ref)

finish-Holds :
    (h : Handle) (d : Direction) (id : String) (peer : Peer) (s : Sfu)
    → Holds h.room_id h.socket_id h.ref peer s
    → Holds h.room_id h.socket_id h.ref
        (add_transport id d peer)
        (finish_create_transport h d id s).0
unfolding finish_create_transport on_peer
finish-Holds h d id peer s (e, same) = (
  get_peer-update_peer h.room_id h.room_id h.socket_id h.socket_id h.ref (add_transport id d) s
      ∙ simp eq_refl (rw e (ground arith)),
  same,
)

finish_all-Holds :
    (h : Handle) (d : Direction) (ids : List String) (peer : Peer) (s : Sfu)
    → Holds h.room_id h.socket_id h.ref peer s
    → AreNew ids peer.transports
    → (p : Peer) × (get_peer h.room_id h.socket_id (finish_all h d ids s) ≡ some p)
      × (length p.transports ≡ length peer.transports + length ids)
unfolding finish_all
finish_all-Holds h d [] peer s held new = (peer, held.0, omega arith)
finish_all-Holds h d (id ∷ ids) peer s held (fresh, new) =
    let (p, at, count) =
      finish_all-Holds h d ids (add_transport id d peer) _ (finish-Holds h d id peer s held)
        (new d) in
    (p, at, ground (arith, length-set id d peer.transports))

Granted-Holds :
    (socket : Socket) (h : Handle) (s : Sfu) (g : Granted socket h s)
    → Holds h.room_id h.socket_id h.ref g.peer s
Granted-Holds socket h s g =
    rw g.handle ((locate-IsAt socket g.room_id g.room g.peer s g.located).the_peer, refl)

-- A request that is granted and answered with no other in between leaves the peer with one transport
-- more, four at most, and changes no other peer.
pub create_transport_alone :
    (socket : Socket) (d : Direction) (h : Handle) (id : String) (s : Sfu)
    → begin_create_transport socket (valid d) s ≡ wait h
    → (p : Peer) × (get_peer h.room_id h.socket_id (finish_create_transport h d id s).0 ≡ some p)
      × (get id p.transports ≡ some d)
      × (length p.transports ≤ 4)
      × ((q j : String)
          → ((h.room_id == q) && (h.socket_id == j)) ≡ false
          → get_peer q j (finish_create_transport h d id s).0 ≡ get_peer q j s)
create_transport_alone socket d h id s w =
    let g = begin_create_transport-Granted socket d h s w in
    (
      add_transport id d g.peer,
      (finish-Holds h d id g.peer s (Granted-Holds socket h s g)).0,
      get-set id id d g.peer.transports ∙ simp eq_refl,
      (let below = g.below in ground (arith, length-set id d g.peer.transports)),
      λ q j other.
          unfold finish_create_transport on_peer in
          get_peer-update_peer h.room_id q h.socket_id j h.ref (add_transport id d) s ∙ simp other,
    )

-- The check and the insertion are apart: a request is granted on the peer's transports as they are
-- before any earlier one is answered. So where one request is granted, any number of them are, and
-- when mediasoup has answered them all the peer has that many transports more, whatever the cap.
pub create_transport_burst :
    (socket : Socket) (d : Direction) (h : Handle) (ids : List String) (s : Sfu)
    (g : Granted socket h s)
    → AreNew ids g.peer.transports
    → (begin_create_transport socket (valid d) s ≡ wait h)
      × (p : Peer) × (get_peer h.room_id h.socket_id (finish_all h d ids s) ≡ some p)
      × (length p.transports ≡ length g.peer.transports + length ids)
create_transport_burst socket d h ids s g new =
    let (p, at, count) = finish_all-Holds h d ids g.peer s (Granted-Holds socket h s g) new in
    (granted, p, at, count)
  where
    granted : begin_create_transport socket (valid d) s ≡ wait h
    granted =
        unfold begin_create_transport begin_transport_at in
        rw (g.located, begin_transport_at)
          (let below = g.below in let same = g.handle in ground arith)

abbrev without_transport : String → Peer → Peer
without_transport id peer = record peer { transports = delete id peer.transports }

-- A transport of a peer that reaches a terminal ICE or DTLS state frees its slot: a peer that was
-- not over the cap is granted the next request.
pub create_transport_after_failure :
    (socket : Socket) (d : Direction) (r id state : String) (room : Room) (peer : Peer) (s : Sfu)
    → locate socket s ≡ some (r, room, peer)
    → length peer.transports ≤ 4
    → has id peer.transports ≡ true
    → is_terminal state ≡ true
    → begin_create_transport socket
        (valid d)
        (on_state_change (handle_of socket (r, room, peer)) id state s)
      ≡ wait (handle_of socket (r, room, peer))
unfolding begin_create_transport begin_transport_at on_state_change release_transport
create_transport_after_failure socket d r id state room peer s at cap held dead = rw dead (
    rw (locate-on_peer socket r room peer (without_transport id) s at, begin_transport_at)
      (ground (arith, length-delete-lt id peer.transports)))
