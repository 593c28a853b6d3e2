-- ===== src/Sfu/Join.antt =====
-- server/src/socket/sfu-handlers.ts: the event `sfu-get-rtp-capabilities`, cut where the handler
-- waits (for the database, for a router, for an audio observer), and the `disconnect` listener.
-- Between two parts any part of another handler may run. `getOrCreateRoom` and `getWorker` are part
-- of the first event. The room code's validation is Joi's.
pub mod Alone
pub mod Leave
pub mod Races
mod Tests
use a_meet.Prelude.{
  ℕ, String, ◌==◌, Bool, true, false, not, Option, none, some, List, [], ◌∷◌, if◌then◌else◌,
}
use a_meet.Prelude.Maps.{get, set, delete}
use a_meet.Types.{
  AuthUser, Audience, others, everyone, Validated, invalid, valid, Query, found, missing, failed,
}
use a_meet.Workers.{Pool, get_worker}
use a_meet.Sfu.{
  Sfu, Room, add_peer, get_room, set_new_room, remove_peer, close_room_if_empty, Producer,
}

-- A socket of an authenticated user.
pub record Socket : Type 0 where
  pub id : String
  pub user : AuthUser

-- Where a handler stands: it waits, or it has answered.
pub data Join : Type 0 where
  await_query : String → Join
  await_router : String → Join
  -- the observer of the room object with this router
  await_observer : String → String → Join
  accepted : String → Join
  refused : String → Join

pub begin_join : Validated String → Join
begin_join (invalid message) = refused message
begin_join (valid room_id) = await_query room_id

-- `addPeer` and what follows it, in the room object with this router.
pub enter : Socket → String → Room → Sfu → Sfu × Join
enter socket room_id room s =
    let t = add_peer room_id socket.id socket.user s in
    let u = record t { socket_room = set socket.id room_id t.socket_room } in
    (u, if room.has_observer then accepted room.router else await_observer room_id room.router)

-- `getOrCreateRoom` up to the creation of a router.
pub get_or_create_room : Socket → String → Sfu → Sfu × Join
unfolding enter
get_or_create_room socket room_id s = elim (get_room room_id s) [
  | some room ↦ enter socket room_id room s
  | none ↦ elim (get_worker s.workers) [
    | none ↦ (s, refused "mediasoup workers not initialized")
    | some (worker, pool) ↦ (record s { workers = pool }, await_router room_id)
  ]
]

pub after_query : Socket → String → Query → Sfu → Sfu × Join
unfolding get_or_create_room
after_query socket room_id missing s = (s, refused "Room not found")
after_query socket room_id (failed message) s = (s, refused message)
after_query socket room_id (found doc) s =
    if doc.active then get_or_create_room socket room_id s else (s, refused "Meeting has ended")

abbrev pub fresh_room : String → Room
fresh_room router = record { router = router; peers = []; has_observer = false; audio_sockets = [] }

-- mediasoup has created the router.
pub after_router : Socket → String → String → Sfu → Sfu × Join
unfolding enter
after_router socket room_id router s =
    enter socket room_id (fresh_room router) (set_new_room room_id router s)

pub observe : String → String → Sfu → Sfu
observe room_id router s = elim (get_room room_id s) [
  | none ↦ s
  | some room ↦
      if room.router == router
      then record s {
        rooms = set room_id (record room { has_observer = true; audio_sockets = [] }) s.rooms;
      }
      else s
]

-- mediasoup has created the observer of the room object that the handler holds.
pub after_observer : String → String → Sfu → Sfu × Join
unfolding observe
after_observer room_id router s = (observe room_id router s, accepted router)

-- What the SFU says to a room's sockets.
pub data Notice : Type 0 where
  active_speaker : Option String → Notice
  peer_left : String → Notice

-- The observer's listeners.
pub on_volumes : String → Room → String → List (Audience × Notice)
on_volumes room_id room producer_id = elim (get producer_id room.audio_sockets) [
  | none ↦ []
  | some socket_id ↦ (everyone room_id, active_speaker (some socket_id)) ∷ []
]

pub on_silence : String → List (Audience × Notice)
on_silence room_id = (everyone room_id, active_speaker none) ∷ []

pub disconnect : Socket → Sfu → Sfu × List (Audience × Notice)
disconnect socket s = elim (get socket.id s.socket_room) [
  | none ↦ (s, [])
  | some room_id ↦
      let t = remove_peer room_id socket.id s in
      let u = record t { socket_room = delete socket.id t.socket_room } in
      (close_room_if_empty room_id u, (others room_id, peer_left socket.id) ∷ [])
]
