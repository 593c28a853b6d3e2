-- ===== src/Bot/Tests.antt =====
-- Commands to the bot, and instances of the theorems about them.
use a_meet.Bot.{Posted, Call, send, edit_reply, reply, dispatch_interaction, handle_create}
use a_meet.Bot.Answers.{
  has_message, response_of, calls_for, dispatch_interaction-has_message, handle_create-calls_for,
}
use a_meet.Discord.{Links, create_room_for_discord}
use a_meet.Prelude.{Bool, true, false, none, some, [], ◌∷◌, ◌≡◌, refl}
use a_meet.Prelude.Maps.{get}

-- Nothing can be posted in the channel.
abbrev is_send : Call → Bool
is_send Call.defer_reply = false
is_send (edit_reply c) = false
is_send (reply c) = false
is_send (send room_id) = true

abbrev made : Posted
made = record {
  status = 201;
  ok = true;
  body = some (record { code = none; room_id = "abc"; link_url = "" });
}

dispatch_interaction-has_message_example :
    has_message (dispatch_interaction is_send "create" true (some made)).made ≡ true
dispatch_interaction-has_message_example =
    dispatch_interaction-has_message is_send "create" true (some made) refl refl

abbrev links : Links
links = ("42", "u1") ∷ []

handle_create-calls_for_example :
    (handle_create
      (λ c. false)
      true
      (some (response_of (create_room_for_discord "42" (some "abc") links).1))).made
    ≡ calls_for (get "42" links) (some "abc")
handle_create-calls_for_example = handle_create-calls_for "42" (some "abc") links
