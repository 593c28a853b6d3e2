-- ===== src/Scheduled.antt =====
-- server/src/controllers/room.controller.ts: the creation of rooms under a new code, and the
-- scheduled meetings. The database's answers are arguments, and so are the random codes; a time is a
-- number. The list of a user's meetings is a query of the database alone.
pub mod Codes
pub mod Rights
mod Tests
use a_meet.Prelude.{
  ℕ, zero, suc, String, Bool, true, false, not, ◌&&◌, ◌||◌, Option, none, some, is_some,
  if◌then◌else◌,
}
use a_meet.Types.{RoomDoc}
use a_meet.RoomAdmin.{get_room_admin_id, is_room_admin}

-- What is stored of a room, beside its code, its administrators and whether it is active.
pub record MeetingDoc : Type 0 where
  pub room : RoomDoc
  pub title : Option String
  pub description : Option String
  pub scheduled_for : Option ℕ
  pub created_at : ℕ

-- `Room.create`: the code is taken (11000), another error, or the document.
pub data Created : Type 0 where
  taken : Created
  create_failed : String → Created
  created : MeetingDoc → Created

pub data Unique : Type 0 where
  made : MeetingDoc → Unique
  all_taken : Unique
  threw : String → Unique

-- The loop, with the number of attempts that are left and that of the next code.
unfoldable pub create_attempts : (String → Created) → (ℕ → String) → ℕ → ℕ → Unique
create_attempts create code attempt zero = all_taken
create_attempts create code attempt (suc left) =
    let rest = create_attempts create code (suc attempt) left in
    elim (create (code attempt)) [
      | taken ↦ rest
      | create_failed message ↦ threw message
      | created doc ↦ made doc
    ]

unfoldable pub create_unique_room : (String → Created) → (ℕ → String) → Unique
unfolding create_attempts
create_unique_room create code = create_attempts create code 0 5

pub record MeetingDto : Type 0 where
  pub room_id : String
  pub title : Option String
  pub description : Option String
  pub scheduled_for : Option ℕ
  pub created_at : ℕ

abbrev pub to_meeting_dto : MeetingDoc → MeetingDto
to_meeting_dto m = record {
  room_id = m.room.room_id;
  title = m.title;
  description = m.description;
  scheduled_for = m.scheduled_for;
  created_at = m.created_at;
}

-- The answer of a lookup, which may throw.
pub data Lookup : Type 0 where
  absent : Lookup
  lookup_failed : String → Lookup
  present : MeetingDoc → Lookup

-- A response: its status and body, or an error for Express.
pub data Response : Type 0 where
  room_created : String → Response
  meeting_created : MeetingDto → Response
  no_unique_code : Response
  not_found : Response
  forbidden : Response
  updated : MeetingDto → Response
  cancelled : Response
  ended : Response
  -- the ids of the host and of the administrator, and whether the room is active
  room_details : MeetingDto → Option String → Option String → Bool → Response
  next_error : String → Response

unfoldable pub create_room : Unique → Response
create_room (made doc) = room_created doc.room.room_id
create_room all_taken = no_unique_code
create_room (threw message) = next_error message

unfoldable pub create_scheduled_room : Unique → Response
create_scheduled_room (made doc) = meeting_created (to_meeting_dto doc)
create_scheduled_room all_taken = no_unique_code
create_scheduled_room (threw message) = next_error message

-- The meeting, or the response that was sent in its place.
pub data Owned : Type 0 where
  owned : MeetingDoc → Owned
  answered : Response → Owned

unfoldable pub load_owned_meeting : String → Lookup → Owned
load_owned_meeting user absent = answered not_found
load_owned_meeting user (lookup_failed message) = answered (next_error message)
load_owned_meeting user (present m) =
    if not (is_some m.scheduled_for) || not m.room.active
    then answered not_found
    else if is_room_admin m.room user
    then owned m
    else answered forbidden

-- `if (x !== undefined) room.x = x`
abbrev keep_or : {A : Type 0} → Option A → Option A → Option A
keep_or none old = old
keep_or (some a) old = some a

pub record Changes : Type 0 where
  pub title : Option String
  pub scheduled_for : Option ℕ
  pub description : Option String

abbrev pub change : Changes → MeetingDoc → MeetingDoc
change c m = record m {
  title = keep_or c.title m.title;
  scheduled_for = keep_or c.scheduled_for m.scheduled_for;
  description = keep_or c.description m.description;
}

-- With the document that is saved; `save` may throw.
unfoldable pub update_scheduled_room :
    String → Changes → Lookup → Option String → Option MeetingDoc × Response
unfolding load_owned_meeting
update_scheduled_room user c lookup save = elim (load_owned_meeting user lookup) [
  | answered r ↦ (none, r)
  | owned m ↦ elim save [
    | some message ↦ (none, next_error message)
    | none ↦ (some (change c m), updated (to_meeting_dto (change c m)))
  ]
]

abbrev pub cancel : MeetingDoc → MeetingDoc
cancel m = record m { room = record m.room { active = false } }

unfoldable pub cancel_scheduled_room :
    String → Lookup → Option String → Option MeetingDoc × Response
unfolding load_owned_meeting
cancel_scheduled_room user lookup save = elim (load_owned_meeting user lookup) [
  | answered r ↦ (none, r)
  | owned m ↦ elim save [
    | some message ↦ (none, next_error message)
    | none ↦ (some (cancel m), cancelled)
  ]
]

-- The administrator that is stored where a room has none; the update happens in the background.
unfoldable pub backfill : MeetingDoc → MeetingDoc
backfill m = elim m.room.admin [
  | some admin ↦ m
  | none ↦ record m { room = record m.room { admin = m.room.host } }
]

-- With the document after the background update. The profiles' names and avatars are left out.
unfoldable pub get_room : Lookup → Option MeetingDoc × Response
unfolding backfill
get_room absent = (none, not_found)
get_room (lookup_failed message) = (none, next_error message)
get_room (present m) =
    if m.room.active
    then (
      some (backfill m),
      room_details (to_meeting_dto m) m.room.host (get_room_admin_id m.room) m.room.active,
    )
    else (none, ended)
