-- ===== src/Presence.antt =====
-- server/src/socket/room-manager.ts: who is in which meeting. `rooms` holds each room's sockets with
-- their users, `socket_room` is the reverse index, both in insertion order.
pub mod Roster
pub mod Indexed
mod Tests
use a_meet.Prelude.{
  String, ◌==◌, Bool, true, false, ◌||◌, Option, none, some, List, [], ◌∷◌, if◌then◌else◌, or_else,
}
use a_meet.Prelude.Maps.{get, set, delete}
use a_meet.Prelude.Text.{is_empty}
use a_meet.Types.{AuthUser}

pub record Presence : Type 0 where
  pub rooms : List (String × List (String × AuthUser))
  pub socket_room : List (String × String)

-- A row of the roster: `{ ...user, socketId }`.
pub record Row : Type 0 where
  pub user : AuthUser
  pub socket_id : String

-- `rooms.get(roomId)`, empty where there is no such room.
abbrev pub users_of : String → Presence → List (String × AuthUser)
users_of room_id p = or_else (get room_id p.rooms) []

unfoldable pub add_user : String → String → AuthUser → Presence → Presence
add_user room_id socket_id user p = record {
  rooms = set room_id (set socket_id user (users_of room_id p)) p.rooms;
  socket_room = set socket_id room_id p.socket_room;
}

-- An empty room is deleted.
abbrev pub put_users : String → List (String × AuthUser) → Presence → Presence
put_users room_id [] p = record p { rooms = delete room_id p.rooms }
put_users room_id (e ∷ users) p = record p { rooms = set room_id (e ∷ users) p.rooms }

-- The new state, with the room that was left and the user.
unfoldable pub remove_user : String → Presence → Presence × Option (String × AuthUser)
remove_user socket_id p = elim (get socket_id p.socket_room) [
  | none ↦ (p, none)
  | some room_id ↦
      if is_empty room_id then (p, none) else elim (get socket_id (users_of room_id p)) [
        | none ↦ (p, none)
        | some user ↦
            let q = put_users room_id (delete socket_id (users_of room_id p)) p in
            (record q { socket_room = delete socket_id q.socket_room }, some (room_id, user))
      ]
]

-- `byUser`, filled in the order of the entries.
unfoldable pub by_user : List (String × AuthUser) → List (String × Row) → List (String × Row)
by_user [] rows = rows
by_user ((socket_id, user) ∷ entries) rows =
    by_user entries (set user.id (record { user = user; socket_id = socket_id }) rows)

-- The rows, each under its user's id.
unfoldable pub get_room_users : String → Presence → List (String × Row)
unfolding by_user
get_room_users room_id p = by_user (users_of room_id p) []

unfoldable pub has_user : String → List (String × AuthUser) → Bool
has_user user_id [] = false
has_user user_id ((socket_id, user) ∷ entries) = user.id == user_id || has_user user_id entries

unfoldable pub is_user_in_room : String → String → Presence → Bool
unfolding has_user
is_user_in_room room_id user_id p = has_user user_id (users_of room_id p)

unfoldable pub get_user_room : String → Presence → Option String
get_user_room socket_id p = get socket_id p.socket_room
