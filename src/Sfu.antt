-- ===== src/Sfu.antt =====
-- server/src/sfu/sfu-rooms.ts: the rooms of the SFU, with each peer's transports, producers and
-- consumers. The objects of mediasoup are known by the ids that it gives out; a room is the object
-- with its router's id, and a peer carries a number of its own, `ref`, since handlers that wait keep
-- the peer object that they found. The children model server/src/socket/sfu-handlers.ts.
pub mod Rooms
pub mod Sample
pub mod Join
pub mod Handles
pub mod Transports
pub mod Producers
pub mod Consumers
pub mod Moderation
use a_meet.Prelude.{
  ℕ, suc, ◌+◌, String, ◌==◌, Bool, true, false, not, ◌&&◌, Option, none, some, List, [], ◌∷◌, ◌++◌,
  map, if◌then◌else◌, nat_beq, is_some, length,
}
use a_meet.Prelude.Maps.{get, set, delete}
use a_meet.Types.{AuthUser}
use a_meet.Workers.{Pool}

pub data Direction : Type 0 where
  send recv : Direction

pub data Kind : Type 0 where
  audio video : Kind

pub record Producer : Type 0 where
  pub id : String
  pub kind : Kind
  pub paused : Bool
  -- `appData.source`
  pub source : Option String

pub record Consumer : Type 0 where
  pub id : String
  pub producer_id : String
  pub kind : Kind
  pub closed : Bool
  pub paused : Bool

pub record Peer : Type 0 where
  pub ref : ℕ
  pub socket_id : String
  pub user : AuthUser
  pub hand_raised : Bool
  pub transports : List (String × Direction)
  pub producers : List (String × Producer)
  pub consumers : List (String × Consumer)

pub record Room : Type 0 where
  pub router : String
  pub peers : List (String × Peer)
  pub has_observer : Bool
  -- `audioProducerToSocket`
  pub audio_sockets : List (String × String)

-- The module's maps, `socketRoom` of sfu-handlers.ts, the pool of workers, and the routers that have
-- been created and closed, oldest first.
pub record Sfu : Type 0 where
  pub rooms : List (String × Room)
  pub socket_room : List (String × String)
  pub next_ref : ℕ
  pub workers : Pool
  pub opened : List String
  pub closed : List String

pub get_room : String → Sfu → Option Room
get_room room_id s = get room_id s.rooms

pub get_peer : String → String → Sfu → Option Peer
get_peer room_id socket_id s = elim (get room_id s.rooms) [
  | none ↦ none
  | some room ↦ get socket_id room.peers
]

-- The end of `getOrCreateRoom`, once mediasoup has created the router.
pub set_new_room : String → String → Sfu → Sfu
set_new_room room_id router s = record s {
  rooms =
      set room_id (record { router = router; peers = []; has_observer = false; audio_sockets = [] })
        s.rooms;
  opened = s.opened ++ router ∷ [];
}

abbrev pub new_peer : ℕ → String → AuthUser → Peer
new_peer ref socket_id user = record {
  ref = ref;
  socket_id = socket_id;
  user = user;
  hand_raised = false;
  transports = [];
  producers = [];
  consumers = [];
}

abbrev pub with_peers : Room → List (String × Peer) → Room
with_peers room peers = record room { peers = peers }

pub put_peers : String → Room → List (String × Peer) → Sfu → Sfu
put_peers room_id room peers s = record s { rooms = set room_id (with_peers room peers) s.rooms }

pub add_peer_to : String → String → AuthUser → Room → Sfu → Sfu
unfolding put_peers
add_peer_to room_id socket_id user room s = elim (get socket_id room.peers) [
  | some peer ↦ s
  | none ↦
      let t =
        put_peers room_id room (set socket_id (new_peer s.next_ref socket_id user) room.peers) s in
      record t { next_ref = suc s.next_ref }
]

pub add_peer : String → String → AuthUser → Sfu → Sfu
unfolding add_peer_to
add_peer room_id socket_id user s = elim (get room_id s.rooms) [
  | none ↦ s
  | some room ↦ add_peer_to room_id socket_id user room s
]

-- A row of `listOtherProducers`.
pub record Descriptor : Type 0 where
  pub producer_id : String
  pub socket_id : String
  pub user : AuthUser
  pub kind : Kind
  pub paused : Bool
  pub source : Option String

abbrev pub describe : Peer → String × Producer → Descriptor
describe peer (key, p) = record {
  producer_id = p.id;
  socket_id = peer.socket_id;
  user = peer.user;
  kind = p.kind;
  paused = p.paused;
  source = p.source;
}

pub other_producers : String → List (String × Peer) → List Descriptor
other_producers except [] = []
other_producers except ((key, peer) ∷ peers) =
    let rest = other_producers except peers in
    if peer.socket_id == except then rest else map (describe peer) peer.producers ++ rest

pub list_other_producers : Option String → String → Sfu → List Descriptor
unfolding other_producers
list_other_producers none except s = []
list_other_producers (some room_id) except s = elim (get room_id s.rooms) [
  | none ↦ []
  | some room ↦ other_producers except room.peers
]

-- The transports are closed, which mediasoup's objects answer by themselves, and the peer dropped.
pub remove_peer : String → String → Sfu → Sfu
unfolding put_peers
remove_peer room_id socket_id s = elim (get room_id s.rooms) [
  | none ↦ s
  | some room ↦ elim (get socket_id room.peers) [
    | none ↦ s
    | some peer ↦ put_peers room_id room (delete socket_id room.peers) s
  ]
]

abbrev pub has_no_peers : Room → Bool
has_no_peers room = nat_beq (length room.peers) 0

pub close_room_if_empty : String → Sfu → Sfu
close_room_if_empty room_id s = elim (get room_id s.rooms) [
  | none ↦ s
  | some room ↦
      if has_no_peers room
      then record s { rooms = delete room_id s.rooms; closed = s.closed ++ room.router ∷ [] }
      else s
]

-- A handler's change to the peer object that it holds. An object that is in no room any more is out
-- of everybody's sight.
pub update_peer : String → String → ℕ → (Peer → Peer) → Sfu → Sfu
unfolding put_peers
update_peer room_id socket_id ref f s = elim (get room_id s.rooms) [
  | none ↦ s
  | some room ↦ elim (get socket_id room.peers) [
    | none ↦ s
    | some peer ↦
        if nat_beq peer.ref ref
        then put_peers room_id room (set socket_id (f peer) room.peers) s
        else s
  ]
]
