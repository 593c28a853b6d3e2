-- ===== src/Sfu/Moderation/Tests.antt =====
-- Tests of the host's commands, and the theorems at concrete inputs.
use a_meet.Prelude.{
  Bool, String, ◌==◌, ◌≡◌, refl, true, false, not, ◌&&◌, Option, none, some, [], ◌∷◌,
}
use a_meet.Prelude.Maps.{get, set}
use a_meet.Prelude.Text.{is_empty}
use a_meet.Types.{valid, invalid, found, others, everyone, one}
use a_meet.RoomAdmin.{is_room_admin, is_admin_of}
use a_meet.Sfu.{get_room, get_peer, update_peer, put_peers}
use a_meet.Sfu.Sample.{ann, bob, code, doc, sfu}
use a_meet.Sfu.Join.{Socket}
use a_meet.Sfu.Handles.{locate, on_peer, ok}
use a_meet.Sfu.Moderation.{
  says, mic_producer, pause_first_mic, pause_mic, mute_each, command, moderate, end_meeting,
  asked_room, begin_end_meeting, caller_is_host, room_of, raise_hand, react, reaction,
  hand_raise_update, host_mute, host_remove, mute_all, set_spotlight, spotlight, request_unmute_all,
  unmute_request, producer_paused, force_muted,
}
use a_meet.Sfu.Moderation.Hosts.{moderate-unauthorised, IsKicked, moderate-kicked}
use a_meet.Sfu.Moderation.Microphones.{has_mics_off, is_mutable}
use a_meet.Sfu.Moderation.Mutes.{mute_all-mutes}

moderation : Unit {0}
unfolding moderate command mute_each pause_mic pause_first_mic mic_producer end_meeting asked_room
    begin_end_meeting caller_is_host room_of raise_hand react is_admin_of is_room_admin is_empty
    locate on_peer update_peer put_peers get_room get_peer get set
moderation = tt

abbrev host : Socket
host = record { id = "s1"; user = ann }

abbrev guest : Socket
guest = record { id = "s2"; user = bob }

-- Presence knows the same rooms.
abbrev user_room : String → Option String
user_room id = get id sfu.socket_room

-- mediasoup pauses each producer.
abbrev pauses : String → Bool
pauses id = true

abbrev of_host : Option String
of_host = asked_room host user_room sfu

abbrev of_guest : Option String
of_guest = asked_room guest user_room sfu

hands :
    ((raise_hand guest (valid true) sfu).1 ≡ (others code, hand_raise_update "s2" true) ∷ [])
    × ((raise_hand guest (valid true) sfu).2 ≡ some ok)
    × (react guest (valid "+1") user_room sfu ≡ (everyone code, reaction "+1" "s2") ∷ [])
    × (react guest (invalid "emoji") user_room sfu ≡ [])
unfolding moderation
hands = (refl, refl, refl, refl)

commands :
    ((moderate pauses host user_room (found doc) (host_mute (valid "s2")) of_host sfu).notices
      ≡ (everyone code, producer_paused "p2" "s2") ∷ (one "s2", force_muted) ∷ [])
    × ((moderate pauses host user_room (found doc) (host_mute (valid "s1")) of_host sfu).notices
        ≡ [])
    × ((moderate pauses host user_room (found doc) (set_spotlight (valid none)) of_host sfu).notices
        ≡ (everyone code, spotlight none) ∷ [])
    × ((moderate pauses host user_room (found doc) request_unmute_all of_host sfu).notices
        ≡ (others code, unmute_request "Ann") ∷ [])
    × ((moderate pauses guest user_room (found doc) mute_all of_guest sfu).notices ≡ [])
    × ((end_meeting host (found doc) (begin_end_meeting host sfu) sfu).ended ≡ some code)
unfolding moderation
commands = (refl, refl, refl, refl, refl, refl)

-- The producer of the guest cannot be paused.
skipped : (moderate (λ id. false) host user_room (found doc) mute_all of_host sfu).notices ≡ []
unfolding moderation
skipped = refl

moderate-unauthorised_example :
    (moderate pauses guest user_room (found doc) mute_all (some code) sfu ≡ says sfu [])
    × (end_meeting guest (found doc) (some code) sfu ≡ says sfu [])
unfolding moderation
moderate-unauthorised_example =
    moderate-unauthorised pauses guest user_room (found doc) mute_all (some code) sfu refl

moderate-kicked_example : IsKicked host user_room user_room (found doc) sfu "s2"
unfolding moderation
moderate-kicked_example =
    moderate-kicked pauses host user_room user_room (found doc) (host_remove (valid "s2")) sfu sfu
      "s2" refl

mute_all-mutes_example :
    let t = (moderate pauses host user_room (found doc) mute_all (some code) sfu).sfu in
    (("s2" == "s1") ≡ false
      → is_mutable pauses (get_peer code "s2" sfu) ≡ true
      → has_mics_off (get_peer code "s2" t) ≡ true)
    × ((q : String)
        → ((code == q) && not ("s2" == "s1")) ≡ false
        → get_peer q "s2" t ≡ get_peer q "s2" sfu)
unfolding moderation
mute_all-mutes_example =
    mute_all-mutes pauses host user_room (found doc) (some code) code "s2" sfu refl
