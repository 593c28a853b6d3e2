-- ===== src/RoomAdmin.antt =====
-- server/src/rooms/room-admin.ts: who administers a room. A reference is the text of its id.
use a_meet.Prelude.{String, ◌==◌, Bool, false, not, ◌&&◌, Option, none, some}
use a_meet.Prelude.Text.{is_empty}
use a_meet.Types.{RoomDoc, Query, found, missing, failed}

abbrev pub get_room_admin_id : RoomDoc → Option String
get_room_admin_id room = elim room.admin [ some a ↦ some a | none ↦ room.host ]

abbrev is_id : Option String → String → Bool
is_id none user = false
is_id (some a) user = not (is_empty a) && not (is_empty user) && a == user

unfoldable pub is_room_admin : RoomDoc → String → Bool
unfolding is_empty
is_room_admin room user = is_id (get_room_admin_id room) user

-- The test on the answer of the database: no room has no administrator.
unfoldable pub is_admin_of : Query → String → Bool
unfolding is_room_admin
is_admin_of (found room) user = is_room_admin room user
is_admin_of missing user = false
is_admin_of (failed e) user = false
