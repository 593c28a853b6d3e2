-- ===== src/Meeting/Tests.antt =====
-- Tests of the meeting's handlers, and the theorems at concrete inputs.
use a_meet.Prelude.{◌≡◌, refl, eq_iff, true, false, some, List, [], ◌∷◌, arith}
use a_meet.Prelude.Maps.{get, set, delete, contains, add, remove}
use a_meet.Prelude.Text.{is_empty, is_space, trim, trim_start, trim_end, utf16_length, units}
use a_meet.Types.{everyone, found}
use a_meet.RoomAdmin.{is_admin_of, is_room_admin}
use a_meet.Sfu.Sample.{ann, bob, doc}
use a_meet.Presence.{
  add_user, remove_user, by_user, get_room_users, has_user, is_user_in_room, get_user_room,
}
use a_meet.Transcript.{
  get_transcript_snapshot, cancel_transcript_expiry, schedule_transcript_expiry,
}
use a_meet.Meeting.{
  Socket, Leave, Meeting, emit, user_left, chat_posted, stop_contributor, leave_key, announce_join,
  join_room, schedule_if_empty, announce_leave, leave_room, disconnect, grace_over, chat_message,
}
use a_meet.Meeting.Grace.{
  is_leave, any, IsLast, IsQuietJoin, join_room-reconnected, join_room-second_room,
}
use a_meet.Meeting.Away.{Step, joins, drops, run, run-grace_over}
use a_meet.Meeting.Chat.{IsPostable}

meeting : Unit {0}
unfolding add_user remove_user by_user get_room_users has_user is_user_in_room get_user_room get set
    delete contains add remove is_empty is_space trim trim_start trim_end utf16_length units
    get_transcript_snapshot cancel_transcript_expiry schedule_transcript_expiry announce_join
    join_room schedule_if_empty announce_leave leave_room disconnect grace_over chat_message
    leave_key is_admin_of is_room_admin
meeting = tt

abbrev a : Socket
a = record { id = "s1"; user = ann }

abbrev b : Socket
b = record { id = "s2"; user = bob }

-- Ann's connection after a reload.
abbrev fresh : Socket
fresh = record { id = "s3"; user = ann }

abbrev nobody : Meeting
nobody = record {
  presence = record { rooms = []; socket_room = [] };
  pending_leaves = [];
  transcripts = record { sessions = []; expiry = [] };
}

abbrev both_in : Meeting
both_in = record {
  presence = record {
    rooms = ("r", ("s1", ann) ∷ ("s2", bob) ∷ []) ∷ [];
    socket_room = ("s1", "r") ∷ ("s2", "r") ∷ [];
  };
  pending_leaves = [];
  transcripts = record { sessions = []; expiry = [] };
}

named : is_empty "r" ≡ false
unfolding meeting
named = refl

named_other : is_empty "q" ≡ false
unfolding meeting
named_other = refl

removed : (remove_user "s1" both_in.presence).1 ≡ some ("r", ann)
unfolding meeting
removed = refl

ann-IsLast : IsLast a "r" ann both_in
unfolding meeting
ann-IsLast = (refl, refl)

join_room-reconnected_example :
    (any is_leave (disconnect a both_in).1 ≡ false)
    × IsQuietJoin true fresh "r" (disconnect a both_in).0
join_room-reconnected_example = join_room-reconnected true a fresh "r" both_in named ann-IsLast

abbrev second : Meeting
second = (disconnect a (join_room true a "q" (join_room true a "r" nobody).0).0).0

join_room-second_room_example :
    (is_user_in_room "r" "u1" second.presence ≡ true)
    × (disconnect a second ≡ (second, stop_contributor ∷ []))
    × (leave_room a second ≡ (second, []))
join_room-second_room_example =
    join_room-second_room true a "r" "q" nobody named named_other (ground (arith, eq_iff "r" "q"))

abbrev blip : List Step
blip = joins true a "r" ∷ joins true b "r" ∷ drops a ∷ []

abbrev ann_leave : Leave
ann_leave = record { room_id = "r"; user = ann }

still_set : get (leave_key "r" "u1") (run blip nobody).pending_leaves ≡ some ann_leave
unfolding meeting
still_set = refl

run-grace_over_example :
    (leave_key "r" "u1" ≡ leave_key "r" "u1")
    × (is_user_in_room "r" "u1" (run blip nobody).presence ≡ false)
    × ((grace_over (leave_key "r" "u1") (run blip nobody)).1
        ≡ emit (everyone "r") (user_left ann) ∷ [])
run-grace_over_example = run-grace_over blip nobody (leave_key "r" "u1") ann_leave refl still_set

in_room : get "s2" (run blip nobody).presence.socket_room ≡ some "r"
unfolding meeting
in_room = refl

hello_IsPostable : IsPostable a (some "hi") (some 13) both_in "r" "hi"
unfolding meeting
hello_IsPostable = record {
  in_room = refl;
  named = refl;
  given = refl;
  written = refl;
  short = ground arith;
  size = 13;
  sized = refl;
  light = ground arith;
}

posted :
    (chat_message a (some "hi") (some 13) "m1" 7 both_in).0
    ≡ emit (everyone "r") (chat_posted "m1" ann "hi" 7) ∷ []
unfolding meeting
posted = refl

guest : is_admin_of (found doc) "u2" ≡ false
unfolding meeting
guest = refl
