-- ===== src/Sfu/Join/Alone.antt =====
-- The event `sfu-get-rtp-capabilities` when no other handler runs while it waits, and the departure
-- of a peer.
use a_meet.Prelude.{
  ◌<◌, String, ◌==◌, eq_iff, eq_refl, ◌≡◌, refl, true, false, none, some, [], arith, if◌then◌else◌,
  Option-cases, inl, inr, ◌∙◌, ap, ◌&&◌, length, or_else,
}
use a_meet.Prelude.Maps.{get, get-set, get-set_self}
use a_meet.Types.{RoomDoc, Query, found, missing, failed}
use a_meet.Workers.RoundRobin.{advance, get_worker-some}
use a_meet.Sfu.{Sfu, Room, Peer, new_peer, get_room, get_peer, set_new_room, add_peer}
use a_meet.Sfu.Rooms.{get_peer-add_peer}
use a_meet.Sfu.Join.{
  Socket, Join, await_query, await_router, await_observer, accepted, refused, enter,
  get_or_create_room, after_query, after_router, observe, after_observer, fresh_room,
}

-- The handler from the database's answer on; mediasoup gives the id of a router, if one is created.
pub finish : Socket → String → Sfu × Join → Sfu × Join
finish socket router (s, await_query room_id) = (s, await_query room_id)
finish socket router (s, await_router room_id) = after_router socket room_id router s
finish socket router (s, await_observer room_id room) = (s, await_observer room_id room)
finish socket router (s, accepted room) = (s, accepted room)
finish socket router (s, refused message) = (s, refused message)

pub finish_observer : Sfu × Join → Sfu × Join
finish_observer (s, await_query room_id) = (s, await_query room_id)
finish_observer (s, await_router room_id) = (s, await_router room_id)
finish_observer (s, await_observer room_id room) = after_observer room_id room s
finish_observer (s, accepted room) = (s, accepted room)
finish_observer (s, refused message) = (s, refused message)

unfoldable pub join_alone : Socket → String → Query → String → Sfu → Sfu × Join
unfolding finish finish_observer
join_alone socket room_id query router s =
    finish_observer (finish socket router (after_query socket room_id query s))

pub get_peer-observe :
    (r q i router : String) (s : Sfu) → get_peer q i (observe r router s) ≡ get_peer q i s
unfolding observe get_peer get_room
get_peer-observe r q i router s = elim (Option-cases (get r s.rooms)) [
  | inl e ↦ ground arith
  | inr (room, e) ↦ ground (
    arith,
    eq_iff r q,
    get-set r q (record room { has_observer = true; audio_sockets = [] }) s.rooms,
  )
]

pub observe-socket_room :
    (r router : String) (s : Sfu) → (observe r router s).socket_room ≡ s.socket_room
unfolding observe
observe-socket_room r router s = ground arith

-- The peer is in the room, its socket is known to be there, and everybody else is as before.
pub record HasJoined (socket : Socket) (room_id : String) (s t : Sfu) : Type 0 where
  pub present :
      get_peer room_id socket.id t
      ≡ some (or_else (get_peer room_id socket.id s) (new_peer s.next_ref socket.id socket.user))
  pub located : get socket.id t.socket_room ≡ some room_id
  pub others_kept :
      (q j : String)
      → ((room_id == q) && (socket.id == j)) ≡ false
      → get_peer q j t ≡ get_peer q j s

pub get_peer-enter :
    (socket : Socket) (room_id q j : String) (room : Room) (s : Sfu)
    → get_room room_id s ≡ some room
    → get_peer q j (enter socket room_id room s).0 ≡ (
        if (room_id == q) && (socket.id == j)
        then some
            (or_else (get_peer room_id socket.id s) (new_peer s.next_ref socket.id socket.user))
        else get_peer q j s)
get_peer-enter socket room_id q j room s e =
    same ∙ get_peer-add_peer room_id q socket.id j socket.user room s e
  where
    same :
        get_peer q j (enter socket room_id room s).0
        ≡ get_peer q j (add_peer room_id socket.id socket.user s)
    same = unfold enter get_peer in refl

pub enter-HasJoined :
    (socket : Socket) (room_id : String) (room : Room) (s : Sfu)
    → get_room room_id s ≡ some room
    → HasJoined socket room_id s (enter socket room_id room s).0
enter-HasJoined socket room_id room s e = record {
  present = get_peer-enter socket room_id room_id socket.id room s e ∙ simp eq_refl;
  located = unfold enter in get-set_self _ _ _;
  others_kept = λ q j other. get_peer-enter socket room_id q j room s e ∙ simp other;
}

get-nil : (i : String) → get {V = Peer} i [] ≡ none
unfolding get
get-nil i = refl

pub get_peer-set_new_room :
    (r q i router : String) (s : Sfu)
    → get_peer q i (set_new_room r router s) ≡ (if r == q then none else get_peer q i s)
unfolding get_peer set_new_room
get_peer-set_new_room r q i router s =
    ground (arith, eq_iff r q, get-set r q (fresh_room router) s.rooms, get-nil i)

pub get_room-set_new_room :
    (r router : String) (s : Sfu) → get_room r (set_new_room r router s) ≡ some (fresh_room router)
unfolding get_room set_new_room
get_room-set_new_room r router s = get-set_self _ _ _

-- A room that does not exist has no peers, so a new room in its place changes nobody.
set_new_room_kept :
    (r q i router : String) (s : Sfu)
    → get_room r s ≡ none
    → get_peer q i (set_new_room r router s) ≡ get_peer q i s
unfolding get_room get_peer
set_new_room_kept r q i router s e =
    ground (arith, eq_iff r q, get_peer-set_new_room r q i router s)

HasJoined-before :
    (socket : Socket) (room_id : String) (s s' t : Sfu)
    → ((q j : String) → get_peer q j s' ≡ get_peer q j s)
    → s'.next_ref ≡ s.next_ref
    → HasJoined socket room_id s' t
    → HasJoined socket room_id s t
HasJoined-before socket room_id s s' t same ref h = record {
  present =
      h.present
      ∙ ap (λ o. some (or_else o (new_peer s'.next_ref socket.id socket.user)))
          (same room_id socket.id)
      ∙ ap (λ n. some (or_else (get_peer room_id socket.id s) (new_peer n socket.id socket.user)))
          ref;
  located = h.located;
  others_kept = λ q j other. h.others_kept q j other ∙ same q j;
}

HasJoined-after :
    (socket : Socket) (room_id : String) (s t t' : Sfu)
    → ((q j : String) → get_peer q j t' ≡ get_peer q j t)
    → t'.socket_room ≡ t.socket_room
    → HasJoined socket room_id s t
    → HasJoined socket room_id s t'
HasJoined-after socket room_id s t t' same sockets h = record {
  present = same room_id socket.id ∙ h.present;
  located = ap (λ m. get socket.id m) sockets ∙ h.located;
  others_kept = λ q j other. same q j ∙ h.others_kept q j other;
}

finish_observer-HasJoined :
    (socket : Socket) (room_id : String) (s : Sfu) (out : Sfu × Join)
    → HasJoined socket room_id s out.0
    → HasJoined socket room_id s (finish_observer out).0
unfolding finish_observer
finish_observer-HasJoined socket room_id s (t, await_observer r router) h =
    HasJoined-after socket room_id s t _
      (λ q j. unfold after_observer in get_peer-observe r q j router t)
      (unfold after_observer in observe-socket_room r router t) h
finish_observer-HasJoined socket room_id s (t, _) h = h

after_router-HasJoined :
    (socket : Socket) (room_id router : String) (s : Sfu)
    → get_room room_id s ≡ none
    → HasJoined socket room_id s (after_router socket room_id router s).0
unfolding after_router
after_router-HasJoined socket room_id router s e =
    HasJoined-before socket room_id s (set_new_room room_id router s) _
      (λ q j. set_new_room_kept room_id q j router s e) (unfold set_new_room in refl)
      (enter-HasJoined socket room_id (fresh_room router) _
        (get_room-set_new_room room_id router s))

-- A handler that has entered the room waits for nothing but an observer.
finish-enter :
    (socket : Socket) (room_id router : String) (room : Room) (s : Sfu)
    → finish socket router (enter socket room_id room s) ≡ enter socket room_id room s
unfolding finish enter
finish-enter socket room_id router room s = ground arith

pub after_query-existing :
    (socket : Socket) (room_id : String) (doc : RoomDoc) (room : Room) (s : Sfu)
    → doc.active ≡ true
    → get_room room_id s ≡ some room
    → after_query socket room_id (found doc) s ≡ enter socket room_id room s
unfolding after_query get_or_create_room
after_query-existing socket room_id doc room s active e =
    rw active (rw (e, get_or_create_room) refl)

pub after_query-new :
    (socket : Socket) (room_id : String) (doc : RoomDoc) (s : Sfu)
    → doc.active ≡ true
    → get_room room_id s ≡ none
    → 0 < length s.workers.workers
    → after_query socket room_id (found doc) s
      ≡ (record s { workers = advance s.workers }, await_router room_id)
unfolding after_query get_or_create_room
after_query-new socket room_id doc s active e ready =
    rw active
      (rw (e, get_or_create_room) (rw (get_worker-some s.workers ready, get_or_create_room)))

finish-HasJoined :
    (socket : Socket) (room_id router : String) (doc : RoomDoc) (s : Sfu)
    → doc.active ≡ true
    → 0 < length s.workers.workers
    → HasJoined socket room_id s (finish socket router (after_query socket room_id (found doc) s)).0
finish-HasJoined socket room_id router doc s active ready =
    elim (Option-cases (get_room room_id s)) [
      | inr (room, e) ↦
          rw (after_query-existing socket room_id doc room s active e) (
            rw (finish-enter socket room_id router room s)
              (enter-HasJoined socket room_id room s e))
      | inl e ↦ rw (after_query-new socket room_id doc s active e ready) (
          unfold finish get_room in
          HasJoined-before socket room_id s (record s { workers = advance s.workers }) _
            (λ q j. unfold get_peer in refl) refl
            (after_router-HasJoined socket room_id router (record s { workers = advance s.workers })
              e))
    ]

-- An active room and a pool with workers: the event, when nothing runs in between, puts the peer into
-- the room, an old object if it was there, records where its socket is, and touches no other peer.
pub join_alone-HasJoined :
    (socket : Socket) (room_id router : String) (doc : RoomDoc) (s : Sfu)
    → doc.active ≡ true
    → 0 < length s.workers.workers
    → HasJoined socket room_id s (join_alone socket room_id (found doc) router s).0
unfolding join_alone
join_alone-HasJoined socket room_id router doc s active ready =
    finish_observer-HasJoined socket room_id s _
      (finish-HasJoined socket room_id router doc s active ready)

-- A room that is not in the database, or not active there, or whose lookup fails, is refused, and
-- the SFU is left exactly as it was: no router is created and no worker is used up.
pub join_alone-refused :
    (socket : Socket) (room_id router : String) (query : Query) (s : Sfu)
    → ((doc : RoomDoc) → query ≡ found doc → doc.active ≡ false)
    → (message : String) × (join_alone socket room_id query router s ≡ (s, refused message))
unfolding join_alone after_query finish finish_observer
join_alone-refused socket room_id router missing s h = ("Room not found", refl)
join_alone-refused socket room_id router (failed message) s h = (message, refl)
join_alone-refused socket room_id router (found doc) s h = ("Meeting has ended", rw (h doc refl))
