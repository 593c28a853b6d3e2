-- ===== src/Sfu/Moderation.antt =====
-- server/src/socket/sfu-handlers.ts: raised hands, reactions, the end of the meeting and the host's
-- commands. The answer of `Room.findOne`, the room that presence (room-manager.ts) knows for a socket
-- and which producers mediasoup pauses are arguments. The handlers are cut where they wait for the
-- database: the room is asked for before, the store and presence are those of the time after. While
-- they pause producers they run without interruption here.
pub mod Microphones
pub mod Hosts
pub mod Mutes
mod Tests
use a_meet.Prelude.{
  ℕ, String, ◌==◌, Bool, true, false, not, ◌&&◌, ◌||◌, Option, none, some, List, [], ◌∷◌, ◌++◌, map,
  if◌then◌else◌,
}
use a_meet.Prelude.Maps.{get, set}
use a_meet.Prelude.Text.{is_empty}
use a_meet.Types.{Audience, others, everyone, one, Validated, invalid, valid, Query}
use a_meet.RoomAdmin.{is_admin_of}
use a_meet.Sfu.{Sfu, Room, Peer, Producer, audio, video, get_room, get_peer, update_peer}
use a_meet.Sfu.Join.{Socket}
use a_meet.Sfu.Handles.{locate, on_peer, handle_of, Ack, error, ok}
use a_meet.Sfu.Producers.{is_mic}

pub data Notice : Type 0 where
  hand_raise_update : String → Bool → Notice
  reaction : String → String → Notice
  meeting_ended force_muted removed : Notice
  producer_paused : String → String → Notice
  unmute_request : String → Notice
  spotlight : Option String → Notice

-- What a handler leaves: the store, the messages, the room that it marks as ended in the database,
-- the socket that it disconnects after 250 ms.
pub record Done : Type 0 where
  pub sfu : Sfu
  pub notices : List (Audience × Notice)
  pub ended : Option String
  pub kicked : Option String

abbrev pub says : Sfu → List (Audience × Notice) → Done
says s notices = record { sfu = s; notices = notices; ended = none; kicked = none }

abbrev pub raise_at :
    Socket
    → Bool
    → Option (String × Room × Peer)
    → Sfu
    → Sfu × List (Audience × Notice) × Option Ack
raise_at socket raised none s = (s, [], none)
raise_at socket raised (some (room_id, room, peer)) s = (
  on_peer (handle_of socket (room_id, room, peer)) (λ p. record p { hand_raised = raised }) s,
  (others room_id, hand_raise_update socket.id raised) ∷ [],
  some ok,
)

-- `sfu-raise-hand`; a socket that is no peer gets no answer.
pub raise_hand : Socket → Validated Bool → Sfu → Sfu × List (Audience × Notice) × Option Ack
raise_hand socket (invalid message) s = (s, [], some (error message))
raise_hand socket (valid raised) s = raise_at socket raised (locate socket s) s

-- `socketRoom.get(socket.id) ?? getUserRoom(socket.id)`
pub room_of : Socket → (String → Option String) → Sfu → Option String
room_of socket user_room s = elim (get socket.id s.socket_room) [
  | some room_id ↦ some room_id
  | none ↦ user_room socket.id
]

-- `sfu-reaction`
pub react : Socket → Validated String → (String → Option String) → Sfu → List (Audience × Notice)
unfolding room_of
react socket (invalid message) user_room s = []
react socket (valid emoji) user_room s = elim (room_of socket user_room s) [
  | none ↦ []
  | some room_id ↦
      if is_empty room_id then [] else (everyone room_id, reaction emoji socket.id) ∷ []
]

abbrev pub named : Option String → Option String
named none = none
named (some room_id) = if is_empty room_id then none else some room_id

-- `callerIsHost` up to its wait: the room that the database is asked for
pub asked_room : Socket → (String → Option String) → Sfu → Option String
unfolding room_of
asked_room socket user_room s = named (room_of socket user_room s)

-- `callerIsHost` from there: the room, if the caller is its host
pub caller_is_host : Socket → Query → Option String → Option String
caller_is_host socket query none = none
caller_is_host socket query (some room_id) =
    if is_admin_of query socket.user.id then some room_id else none

-- `sfu-end-meeting` up to its wait, and from there
pub begin_end_meeting : Socket → Sfu → Option String
begin_end_meeting socket s = named (get socket.id s.socket_room)

pub end_meeting : Socket → Query → Option String → Sfu → Done
end_meeting socket query none s = says s []
end_meeting socket query (some room_id) s =
    if is_admin_of query socket.user.id
    then record {
      sfu = s;
      notices = (everyone room_id, meeting_ended) ∷ [];
      ended = some room_id;
      kicked = none;
    }
    else says s []

-- The first audio producer that is not a screen's.
pub mic_producer : List (String × Producer) → Option (String × Producer)
mic_producer [] = none
mic_producer ((key, p) ∷ ps) = if is_mic p then some (key, p) else mic_producer ps

-- The same producer, paused where it stands.
pub pause_first_mic : List (String × Producer) → List (String × Producer)
pause_first_mic [] = []
pause_first_mic ((key, p) ∷ ps) =
    let rest = pause_first_mic ps in
    if is_mic p then (key, record p { paused = true }) ∷ ps else (key, p) ∷ rest

abbrev pub silence : Peer → Peer
silence peer = record peer { producers = pause_first_mic peer.producers }

-- `pauseMic`, where mediasoup pauses the producers with some ids and fails for the others: `none` is
-- its answer `false`, or its exception, which each caller catches.
pub pause_mic : (String → Bool) → String → String → Sfu → Option (Sfu × List (Audience × Notice))
pause_mic pauses room_id target s = elim (get_peer room_id target s) [
  | none ↦ none
  | some peer ↦ elim (mic_producer peer.producers) [
    | none ↦ none
    | some (key, p) ↦
        if p.paused || not (pauses p.id)
        then none
        else some (
          update_peer room_id target peer.ref silence s,
          (everyone room_id, producer_paused p.id target) ∷ (one target, force_muted) ∷ [],
        )
  ]
]

abbrev pub muted : Sfu → Option (Sfu × List (Audience × Notice)) → Done
muted s none = says s []
muted s (some (t, notices)) = says t notices

-- `sfu-host-mute` and the commands below, for a caller that `callerIsHost` answers with a room.
abbrev pub mute_one : (String → Bool) → Socket → String → Option String → Sfu → Done
mute_one pauses socket target none s = says s []
mute_one pauses socket target (some room_id) s =
    if target == socket.id then says s [] else muted s (pause_mic pauses room_id target s)

-- The loop of `sfu-mute-all` over the sockets of the room.
pub mute_each : (String → Bool) → Socket → String → List String → Sfu → Done
unfolding pause_mic
mute_each pauses socket room_id [] s = says s []
mute_each pauses socket room_id (target ∷ targets) s =
    let here = mute_one pauses socket target (some room_id) s in
    let rest = mute_each pauses socket room_id targets here.sfu in
    says rest.sfu (here.notices ++ rest.notices)

abbrev pub mute_room : (String → Bool) → Socket → Option String → Sfu → Done
mute_room pauses socket none s = says s []
mute_room pauses socket (some room_id) s = elim (get_room room_id s) [
  | none ↦ says s []
  | some room ↦ mute_each pauses socket room_id (map (λ e. e.0) room.peers) s
]

-- The target's room, as presence knows it, is the host's.
abbrev pub is_room : Option String → String → Bool
is_room none room_id = false
is_room (some r) room_id = r == room_id

abbrev pub remove_one : Socket → String → (String → Option String) → Option String → Sfu → Done
remove_one socket target user_room none s = says s []
remove_one socket target user_room (some room_id) s =
    if not (target == socket.id) && is_room (user_room target) room_id
    then record {
      sfu = s;
      notices = (one target, removed) ∷ [];
      ended = none;
      kicked = some target;
    }
    else says s []

abbrev pub tell : Option String → (String → Audience × Notice) → Sfu → Done
tell none message s = says s []
tell (some room_id) message s = says s (message room_id ∷ [])

-- The host's commands, with their validated targets.
pub data Command : Type 0 where
  host_mute request_unmute host_remove : Validated String → Command
  mute_all request_unmute_all : Command
  set_spotlight : Validated (Option String) → Command

-- A command from a caller that `callerIsHost` has answered. A payload that is not valid is turned away
-- before the database is asked, and does nothing.
pub command :
    (String → Bool) → Socket → (String → Option String) → Option String → Command → Sfu → Done
unfolding mute_each
command pauses socket user_room host (host_mute (invalid m)) s = says s []
command pauses socket user_room host (host_mute (valid target)) s =
    mute_one pauses socket target host s
command pauses socket user_room host mute_all s = mute_room pauses socket host s
command pauses socket user_room host (request_unmute (invalid m)) s = says s []
command pauses socket user_room host (request_unmute (valid target)) s =
    tell host (λ room_id. (one target, unmute_request socket.user.name)) s
command pauses socket user_room host request_unmute_all s =
    tell host (λ room_id. (others room_id, unmute_request socket.user.name)) s
command pauses socket user_room host (host_remove (invalid m)) s = says s []
command pauses socket user_room host (host_remove (valid target)) s =
    remove_one socket target user_room host s
command pauses socket user_room host (set_spotlight (invalid m)) s = says s []
command pauses socket user_room host (set_spotlight (valid target)) s =
    tell host (λ room_id. (everyone room_id, spotlight target)) s

-- A command from the answer of the database on, with the room that it was asked for.
pub moderate :
    (String → Bool)
    → Socket
    → (String → Option String)
    → Query
    → Command
    → Option String
    → Sfu
    → Done
unfolding command caller_is_host
moderate pauses socket user_room query c asked s =
    command pauses socket user_room (caller_is_host socket query asked) c s
