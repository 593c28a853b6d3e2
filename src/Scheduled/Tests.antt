-- ===== src/Scheduled/Tests.antt =====
-- The theorems on rooms and scheduled meetings at concrete inputs.
use a_meet.Prelude.{ℕ, zero, suc, ◌<◌, String, ◌==◌, ◌≡◌, refl, Bool, true, some, none, arith}
use a_meet.Prelude.Text.{is_empty}
use a_meet.RoomAdmin.{is_room_admin}
use a_meet.Sfu.Sample.{code, doc}
use a_meet.Scheduled.{
  MeetingDoc, present, not_found, ended, Changes, change, cancel, load_owned_meeting,
  update_scheduled_room, cancel_scheduled_room, get_room,
}
use a_meet.Scheduled.Rights.{IsAllowed, cancel_scheduled_room-ended}

scheduling : Unit {0}
unfolding load_owned_meeting update_scheduled_room cancel_scheduled_room is_room_admin is_empty
scheduling = tt

abbrev meeting : MeetingDoc
meeting = record {
  room = doc;
  title = some "Weekly";
  description = none;
  scheduled_for = some 7;
  created_at = 1;
}

abbrev retitle : Changes
retitle = record { title = some "Daily"; scheduled_for = none; description = none }

abbrev codes : ℕ → String
codes zero = "aaa-bbbb-ccc"
codes (suc n) = code

abbrev is_known : String → Bool
is_known c = c == "aaa-bbbb-ccc"

first_taken : (i : ℕ) → i < 1 → is_known (codes i) ≡ true
first_taken zero h = refl
first_taken (suc i) h = absurd (ground arith)

saved :
    (update_scheduled_room "u1" retitle (present meeting) none).0 ≡ some (change retitle meeting)
unfolding scheduling
saved = refl

gone : (cancel_scheduled_room "u1" (present meeting) none).0 ≡ some (cancel meeting)
unfolding scheduling
gone = refl

cancel_scheduled_room-ended_example :
    IsAllowed "u1" meeting (cancel meeting)
    × (get_room (present (cancel meeting)) ≡ (none, ended))
    × (update_scheduled_room "u1" retitle (present (cancel meeting)) none ≡ (none, not_found))
    × (cancel_scheduled_room "u1" (present (cancel meeting)) none ≡ (none, not_found))
cancel_scheduled_room-ended_example =
    cancel_scheduled_room-ended "u1" meeting (cancel meeting) none retitle none gone
