-- ===== src/Sfu/Join/Races.antt =====
-- What the waits inside `sfu-get-rtp-capabilities` let happen: two first joins of one room, and a
-- socket that is gone before the database answers.
use a_meet.Prelude.{
  List, [], ◌∷◌, Option, All, Option-cases, inl, inr, ◌<◌, String, eq_iff, eq_refl, ◌≡◌, ◌≢◌, true,
  none, some, ◌∙◌, ap, sym, length, refl, arith,
}
use a_meet.Prelude.Maps.{get, get-set_self, get-set_ne, set}
use a_meet.Types.{RoomDoc, found}
use a_meet.Sfu.{Sfu, Room, Peer, get_room, get_peer, set_new_room}
use a_meet.Sfu.Rooms.{socket_room-add_peer}
use a_meet.Workers.RoundRobin.{advance}
use a_meet.Sfu.Join.{
  Socket, await_router, await_observer, accepted, enter, after_query, after_router, after_observer,
  fresh_room, disconnect,
}
use a_meet.Sfu.Join.Leave.{disconnect-HasLeft}
use a_meet.Sfu.Join.Alone.{
  after_query-new, after_query-existing, get_peer-enter, get_peer-observe, get_peer-set_new_room,
  get_room-set_new_room, observe-socket_room, enter-HasJoined,
}

get_peer-after_router :
    (b : Socket) (r router i : String) (s : Sfu)
    → b.id ≢ i
    → get_peer r i (after_router b r router s).0 ≡ none
unfolding after_router
get_peer-after_router b r router i s other =
    get_peer-enter b r r i (fresh_room router) _ (get_room-set_new_room r router s)
    ∙ ground (arith, eq_iff b.id i, eq_refl r, get_peer-set_new_room r r i router s)

after_router-socket_room :
    (b : Socket) (r router : String) (s : Sfu)
    → (after_router b r router s).0.socket_room ≡ set b.id r s.socket_room
unfolding after_router enter set_new_room
after_router-socket_room b r router s = ap (set b.id r) (socket_room-add_peer r b.id b.user _)

-- Two sockets join a room that has no router yet, and the database answers both before a router is
-- created for either: both create one, and the second takes the room's place. The first socket is
-- answered as having joined, the SFU says that it is in the room, and it is no peer of it.
pub join_lost :
    (a b : Socket) (r router_a router_b : String) (doc : RoomDoc) (s : Sfu)
    → a.id ≢ b.id
    → doc.active ≡ true
    → get_room r s ≡ none
    → 0 < length s.workers.workers
    → let t = after_query a r (found doc) s in
      let u = after_query b r (found doc) t.0 in
      let v = after_router a r router_a u.0 in
      let w = after_router b r router_b v.0 in
      let x = after_observer r router_a w.0 in
      ((t.1 ≡ await_router r)
        × (u.1 ≡ await_router r)
        × (v.1 ≡ await_observer r router_a)
        × (x.1 ≡ accepted router_a))
      × (get a.id x.0.socket_room ≡ some r)
      × (get_peer r a.id x.0 ≡ none)
join_lost a b r router_a router_b doc s other active e ready =
    rw (after_query-new a r doc s active e ready) (
      rw (after_query-new b r doc taken active (unfold get_room in e) ready)
        ((refl, refl, waits, unfold after_observer in refl), located, gone))
  where
    taken : Sfu
    taken = record s { workers = advance s.workers }

    left : Sfu
    left = record s { workers = advance (advance s.workers) }

    first : Sfu
    first = (after_router a r router_a left).0

    waits : (after_router a r router_a left).1 ≡ await_observer r router_a
    waits = unfold after_router enter in refl

    located :
        get a.id (after_observer r router_a (after_router b r router_b first).0).0.socket_room
        ≡ some r
    located =
        unfold after_observer in
        ap (get a.id) (observe-socket_room r router_a _)
        ∙ ap (get a.id) (after_router-socket_room b r router_b first)
        ∙ get-set_ne b.id a.id r _ (λ p. other (sym p))
        ∙ ap (get a.id) (after_router-socket_room a r router_a left)
        ∙ get-set_self a.id r _

    gone : get_peer r a.id (after_observer r router_a (after_router b r router_b first).0).0 ≡ none
    gone =
        unfold after_observer in
        get_peer-observe r r a.id router_a _
        ∙ get_peer-after_router b r router_b a.id first (λ p. other (sym p))

-- These sockets disconnect, one after the other.
abbrev pub leave_all : List Socket → Sfu → Sfu
leave_all [] s = s
leave_all (b ∷ bs) s = leave_all bs (disconnect b s).0

unknown_leaves : (b : Socket) (s : Sfu) → get b.id s.socket_room ≡ none → (disconnect b s).0 ≡ s
unfolding disconnect
unknown_leaves b s e = rw (e, disconnect)

leave_keeps :
    (a b : Socket) (r : String) (s : Sfu)
    → b.id ≢ a.id
    → get_peer r a.id (disconnect b s).0 ≡ get_peer r a.id s
leave_keeps a b r s other = elim (Option-cases (get b.id s.socket_room)) [
  | inl e ↦ ap (get_peer r a.id) (unknown_leaves b s e)
  | inr (q, e) ↦
      (disconnect-HasLeft b q s e).0.others_kept r a.id (ground (arith, eq_iff b.id a.id))
]

leave_all_keeps :
    (a : Socket) (bs : List Socket) (r : String) (s : Sfu)
    → All (λ b. b.id ≢ a.id) bs
    → get_peer r a.id (leave_all bs s) ≡ get_peer r a.id s
leave_all_keeps a [] r s h = refl
leave_all_keeps a (b ∷ bs) r s (other, h) =
    leave_all_keeps a bs r (disconnect b s).0 h ∙ leave_keeps a b r s other

is_there : {p : Peer} (o : Option Peer) → o ≡ some p → o ≢ none
is_there o h n = cc

joins_existing :
    (a : Socket) (r : String) (doc : RoomDoc) (room : Room) (s : Sfu)
    → doc.active ≡ true
    → get_room r s ≡ some room
    → get_peer r a.id (after_query a r (found doc) s).0 ≢ none
joins_existing a r doc room s active e =
    rw (after_query-existing a r doc room s active e)
      (is_there _ (enter-HasJoined a r room s e).present)

joins_new :
    (a : Socket) (r router : String) (s : Sfu)
    → get_peer r a.id (after_router a r router s).0 ≢ none
unfolding after_router
joins_new a r router s =
    is_there _
      (enter-HasJoined a r (fresh_room router) _ (get_room-set_new_room r router s)).present

-- A socket disconnects while the database is asked for its room: nothing is left to clean up. The
-- answer of the database, or that of mediasoup where the room is not there yet, makes it a peer of the
-- room all the same, which it still is when any other sockets have disconnected, in any order.
pub join_after_disconnect :
    (a : Socket) (bs : List Socket) (r router : String) (doc : RoomDoc) (s : Sfu)
    → doc.active ≡ true
    → get a.id s.socket_room ≡ none
    → 0 < length s.workers.workers
    → All (λ b. b.id ≢ a.id) bs
    → let t = (disconnect a s).0 in
      let u = (after_query a r (found doc) t).0 in
      (t ≡ s)
      × ((room : Room) → get_room r s ≡ some room → get_peer r a.id (leave_all bs u) ≢ none)
      × (get_room r s ≡ none
          → (after_query a r (found doc) t).1 ≡ await_router r
            × (get_peer r a.id (leave_all bs (after_router a r router u).0) ≢ none))
join_after_disconnect a bs r router doc s active unknown ready others =
    rw (unknown_leaves a s unknown) (
      refl,
      (λ room e.
          rw (leave_all_keeps a bs r (after_query a r (found doc) s).0 others)
            (joins_existing a r doc room s active e)),
      λ e. (
        ap (λ x. x.1) (after_query-new a r doc s active e ready),
        rw
            (leave_all_keeps a bs r (after_router a r router (after_query a r (found doc) s).0).0
              others)
            (joins_new a r router (after_query a r (found doc) s).0),
      ),
    )
