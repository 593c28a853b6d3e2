-- ===== src/Scheduled/Rights.antt =====
-- What the host, and nobody else, can do to a scheduled meeting.
use a_meet.Prelude.{String, ◌≡◌, true, Option, none, some, is_some, arith}
use a_meet.RoomAdmin.{get_room_admin_id, is_room_admin}
use a_meet.Scheduled.{
  MeetingDoc, present, not_found, ended, room_details, Changes, load_owned_meeting,
  update_scheduled_room, cancel_scheduled_room, backfill, get_room, to_meeting_dto,
}

-- A meeting that is changed or cancelled was a scheduled one, was active, and is administered by
-- the caller; its code and its administrators stay.
pub record IsAllowed (user : String) (m n : MeetingDoc) : Type 0 where
  pub scheduled : is_some m.scheduled_for ≡ true
  pub active : m.room.active ≡ true
  pub own : is_room_admin m.room user ≡ true
  pub code : n.room.room_id ≡ m.room.room_id
  pub same : get_room_admin_id n.room ≡ get_room_admin_id m.room

-- Whatever an update saves, it was allowed, and the meeting stays active and scheduled.
pub update_scheduled_room-IsAllowed :
    (user : String) (c : Changes) (m n : MeetingDoc) (save : Option String)
    → (update_scheduled_room user c (present m) save).0 ≡ some n
    → IsAllowed user m n × (n.room.active ≡ true) × (is_some n.scheduled_for ≡ true)
unfolding update_scheduled_room load_owned_meeting
update_scheduled_room-IsAllowed user c m n save h = (
  record {
    scheduled = ground arith;
    active = ground arith;
    own = ground arith;
    code = ground arith;
    same = ground arith;
  },
  ground arith,
  ground arith,
)

-- A meeting that is cancelled was the caller's to cancel, and it has ended for everyone: a lookup of
-- it is answered so, and the administrator can neither change nor cancel it again.
pub cancel_scheduled_room-ended :
    (user : String) (m n : MeetingDoc) (save : Option String) (c : Changes) (again : Option String)
    → (cancel_scheduled_room user (present m) save).0 ≡ some n
    → IsAllowed user m n
      × (get_room (present n) ≡ (none, ended))
      × (update_scheduled_room user c (present n) again ≡ (none, not_found))
      × (cancel_scheduled_room user (present n) again ≡ (none, not_found))
unfolding update_scheduled_room cancel_scheduled_room load_owned_meeting get_room
cancel_scheduled_room-ended user m n save c again h = (
  record {
    scheduled = ground arith;
    active = ground arith;
    own = ground arith;
    code = ground arith;
    same = ground arith;
  },
  ground arith,
  ground arith,
  ground arith,
)

-- The response to a lookup of an active room names the administrator that the server goes by, and
-- the update in the background changes nobody's rights and nothing else that the response says.
pub get_room-backfill :
    (m : MeetingDoc) (user : String)
    → m.room.active ≡ true
    → ((get_room (present m)).0 ≡ some (backfill m))
      × ((get_room (present m)).1
          ≡ room_details (to_meeting_dto m) m.room.host (get_room_admin_id m.room) true)
      × ((get_room (present (backfill m))).1 ≡ (get_room (present m)).1)
      × (is_room_admin (backfill m).room user ≡ is_room_admin m.room user)
unfolding get_room backfill is_room_admin
get_room-backfill m user h = (ground arith, ground arith, ground arith, ground arith)
