-- ===== src/Sfu/Rooms.antt =====
-- The operations of sfu-rooms.ts against what a reader of the store sees: the peers of a room.
use a_meet.Prelude.{
  ℕ, ◌<◌, length, String, ◌==◌, eq_iff, ◌≡◌, refl, true, Option, none, some, List, [], ◌∷◌, arith,
  if◌then◌else◌, nat_beq, nat_beq_iff, Option-cases, inl, inr, ◌&&◌, or_else,
}
use a_meet.Prelude.Maps.{get, set, delete, get-set, get-delete}
use a_meet.Types.{AuthUser}
use a_meet.Sfu.{
  Sfu, Room, Peer, new_peer, get_room, get_peer, put_peers, add_peer, add_peer_to, remove_peer,
  close_room_if_empty, update_peer,
}

-- The peer after a change of the object `ref`.
abbrev pub changed : ℕ → (Peer → Peer) → Option Peer → Option Peer
changed ref f none = none
changed ref f (some peer) = some (if nat_beq peer.ref ref then f peer else peer)

-- A peer is found where it was put, and every other lookup is as before.
pub get_peer-put_peers :
    (r q i : String) (room : Room) (peers : List (String × Peer)) (s : Sfu)
    → get_peer q i (put_peers r room peers s) ≡ (if r == q then get i peers else get_peer q i s)
unfolding get_peer put_peers
get_peer-put_peers r q i room peers s =
    ground (arith, get-set r q (record room { peers = peers }) s.rooms)

-- Whoever is added to a room that exists is found there, the old object if there was one; nobody
-- else is touched.
pub get_peer-add_peer :
    (r q i j : String) (user : AuthUser) (room : Room) (s : Sfu)
    → get_room r s ≡ some room
    → get_peer q j (add_peer r i user s) ≡ (
        if (r == q) && (i == j)
        then some (or_else (get_peer r i s) (new_peer s.next_ref i user))
        else get_peer q j s)
unfolding add_peer add_peer_to get_room put_peers get_peer
get_peer-add_peer r q i j user room s e = ground (
  arith,
  eq_iff r q,
  eq_iff i j,
  get-set r q (record room { peers = set i (new_peer s.next_ref i user) room.peers }) s.rooms,
  get-set i j (new_peer s.next_ref i user) room.peers,
)

-- A removed peer is gone from its room, and nobody else.
pub get_peer-remove_peer :
    (r q i j : String) (s : Sfu)
    → get_peer q j (remove_peer r i s) ≡ (if (r == q) && (i == j) then none else get_peer q j s)
unfolding remove_peer get_peer put_peers
get_peer-remove_peer r q i j s = elim (Option-cases (get r s.rooms)) [
  | inl e ↦ ground (arith, eq_iff r q)
  | inr (room, e) ↦ ground (
    arith,
    eq_iff r q,
    eq_iff i j,
    get-set r q (record room { peers = delete i room.peers }) s.rooms,
    get-delete i j room.peers,
  )
]

-- A handler's change reaches the peer that is there now, if that is the object it holds, and nobody
-- else.
pub get_peer-update_peer :
    (r q i j : String) (ref : ℕ) (f : Peer → Peer) (s : Sfu)
    → get_peer q j (update_peer r i ref f s)
      ≡ (if (r == q) && (i == j) then changed ref f (get_peer r i s) else get_peer q j s)
unfolding update_peer get_peer put_peers
get_peer-update_peer r q i j ref f s = elim (Option-cases (get r s.rooms)) [
  | inl e ↦ ground (arith, eq_iff r q)
  | inr (room, e) ↦ elim (Option-cases (get i room.peers)) [
    | inl e' ↦ ground (arith, eq_iff r q, eq_iff i j)
    | inr (peer, e') ↦ ground (
      arith,
      eq_iff r q,
      eq_iff i j,
      get-set r q (record room { peers = set i (f peer) room.peers }) s.rooms,
      get-set i j (f peer) room.peers,
    )
  ]
]

get_of_empty :
    (i : String) (peers : List (String × Peer))
    → nat_beq (length peers) 0 ≡ true
    → get i peers ≡ none
unfolding get
get_of_empty i [] h = refl
get_of_empty i (x ∷ peers) h = absurd (ground arith)

-- To free an empty room changes no lookup of a peer.
pub get_peer-close_room_if_empty :
    (r q j : String) (s : Sfu) → get_peer q j (close_room_if_empty r s) ≡ get_peer q j s
unfolding get_peer close_room_if_empty
get_peer-close_room_if_empty r q j s = elim (Option-cases (get r s.rooms)) [
  | inl e ↦ ground arith
  | inr (room, e) ↦ ground (arith, eq_iff r q, get-delete r q s.rooms, get_of_empty j room.peers)
]

-- A room that is still there after the test has a peer.
pub get_room-close_room_if_empty :
    (r : String) (room : Room) (s : Sfu)
    → get_room r (close_room_if_empty r s) ≡ some room
    → (0 < length room.peers) × (get_room r s ≡ some room)
unfolding get_room close_room_if_empty
get_room-close_room_if_empty r room s h = elim (Option-cases (get r s.rooms)) [
  | inl e ↦ absurd (ground arith)
  | inr (room', e) ↦ ground (arith, eq_iff r r, get-delete r r s.rooms)
]

pub socket_room-close_room_if_empty :
    (r : String) (s : Sfu) → (close_room_if_empty r s).socket_room ≡ s.socket_room
unfolding close_room_if_empty
socket_room-close_room_if_empty r s = ground arith

-- Where sockets are is no part of the rooms.
pub get_peer-socket_room :
    (q j : String) (m : List (String × String)) (s : Sfu)
    → get_peer q j (record s { socket_room = m }) ≡ get_peer q j s
unfolding get_peer
get_peer-socket_room q j m s = refl

pub socket_room-add_peer :
    (r i : String) (user : AuthUser) (s : Sfu) → (add_peer r i user s).socket_room ≡ s.socket_room
unfolding add_peer add_peer_to put_peers
socket_room-add_peer r i user s = ground arith

pub update_peer_here :
    (r i : String) (room : Room) (peer : Peer) (f : Peer → Peer) (s : Sfu)
    → get r s.rooms ≡ some room
    → get i room.peers ≡ some peer
    → update_peer r i peer.ref f s ≡ put_peers r room (set i (f peer) room.peers) s
unfolding update_peer
update_peer_here r i room peer f s e e' =
    rw (e, update_peer) (rw (e', update_peer) (simp ((nat_beq_iff peer.ref peer.ref).1 refl)))
