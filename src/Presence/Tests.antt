-- ===== src/Presence/Tests.antt =====
-- Tests of presence, and the theorem on the roster at a concrete input.
use a_meet.Prelude.{◌≡◌, refl, true, none, [], ◌∷◌}
use a_meet.Prelude.Maps.{get, set, delete, has, Unique}
use a_meet.Prelude.Text.{is_empty}
use a_meet.Sfu.Sample.{ann, bob}
use a_meet.Presence.{
  Presence, users_of, add_user, remove_user, by_user, get_room_users, has_user, is_user_in_room,
  get_user_room,
}
use a_meet.Presence.Roster.{latest, get_room_users-latest}

presence : Unit {0}
unfolding add_user remove_user by_user get_room_users has_user is_user_in_room get_user_room get set
    delete is_empty
presence = tt

abbrev two_tabs : Presence
two_tabs = record {
  rooms = ("r", ("s1", ann) ∷ ("s2", bob) ∷ ("s3", ann) ∷ []) ∷ [];
  socket_room = ("s1", "r") ∷ ("s2", "r") ∷ ("s3", "r") ∷ [];
}

live_socket :
    get_room_users "r" two_tabs
    ≡ ("u1", record { user = ann; socket_id = "s3" })
      ∷ ("u2", record { user = bob; socket_id = "s2" })
      ∷ []
unfolding presence
live_socket = refl

other_tab : is_user_in_room "r" "u1" (remove_user "s3" two_tabs).0 ≡ true
unfolding presence
other_tab = refl

left_room : get_user_room "s3" (remove_user "s3" two_tabs).0 ≡ none
unfolding presence
left_room = refl

get_room_users-latest_example :
    Unique (get_room_users "r" two_tabs)
    × (get "u1" (get_room_users "r" two_tabs) ≡ latest "u1" (users_of "r" two_tabs))
    × (has "u1" (get_room_users "r" two_tabs) ≡ is_user_in_room "r" "u1" two_tabs)
get_room_users-latest_example = get_room_users-latest "r" "u1" two_tabs
