-- ===== src/Bot/Answers.antt =====
-- "Every path answers the interaction": the answers of bot/src/interactions.ts.
use a_meet.Bot.{
  Posted, Outcome, answered, unread, not_linked_error, http_error, aborted, create_link_token,
  create_room, link_prompt, generic_error, link_first, ready, posted, unknown, wrong, Call,
  defer_reply, edit_reply, reply, send, Run, last, link_reply, handle_link, announce, create_reply,
  handle_create, handle_interaction, recover, dispatch_interaction,
}
use a_meet.Prelude.Maps.{get}
use a_meet.Discord.{
  Response, created, ok, invalid_link, not_linked, no_code, failed, Links, create_room_for_discord,
}
use a_meet.Discord.Linking.{room_for, create_room_for_discord-eq}
use a_meet.Prelude.{
  ℕ, String, Bool, true, false, ◌||◌, Option, none, some, List, [], ◌∷◌, ◌++◌, ◌≡◌, refl, arith,
}

-- The user sees an answer: a message, and not just that the bot thinks.
abbrev pub is_message : Call → Bool
is_message defer_reply = false
is_message (edit_reply c) = true
is_message (reply c) = true
is_message (send room_id) = false

abbrev pub has_message : List Call → Bool
has_message [] = false
has_message (c ∷ cs) = is_message c || has_message cs

has_message-append :
    (cs : List Call) (c : Call) → has_message (cs ++ c ∷ []) ≡ (has_message cs || is_message c)
has_message-append [] c = ground arith
has_message-append (d ∷ cs) c = let ih = has_message-append cs c in ground arith

-- The user has a message, or an exception is under way.
abbrev IsAnswering : Run → Type 0
IsAnswering r = (r.threw || has_message r.made) ≡ true

module _ (refuses : Call → Bool) where
  last-IsAnswering :
      (c : Call) (made : List Call) → is_message c ≡ true → IsAnswering (last refuses c made)
  unfolding last
  last-IsAnswering c made m = ground (arith, has_message-append made c)

  link_reply-IsAnswering :
      (o : Outcome) (made : List Call) → IsAnswering (link_reply refuses o made)
  unfolding link_reply
  link_reply-IsAnswering (answered url) made =
      let l = last-IsAnswering (edit_reply generic_error) made refl in
      ground (arith, has_message-append made (edit_reply (link_prompt url)))
  link_reply-IsAnswering unread made = last-IsAnswering (edit_reply generic_error) made refl
  link_reply-IsAnswering not_linked_error made =
      last-IsAnswering (edit_reply generic_error) made refl
  link_reply-IsAnswering (http_error status) made =
      last-IsAnswering (edit_reply generic_error) made refl
  link_reply-IsAnswering aborted made = last-IsAnswering (edit_reply generic_error) made refl

  announce-IsAnswering :
      (sendable : Bool) (room_id : String) (made : List Call)
      → IsAnswering (announce refuses sendable room_id made)
  unfolding announce
  announce-IsAnswering sendable room_id made =
      let l = last-IsAnswering (edit_reply (ready room_id)) made refl in
      let p = last-IsAnswering (edit_reply posted) (made ++ send room_id ∷ []) refl in ground arith

  create_reply-IsAnswering :
      (sendable : Bool) (o : Outcome) (made : List Call)
      → IsAnswering (create_reply refuses sendable o made)
  unfolding create_reply
  create_reply-IsAnswering sendable (answered room_id) made =
      announce-IsAnswering sendable room_id made
  create_reply-IsAnswering sendable unread made =
      last-IsAnswering (edit_reply generic_error) made refl
  create_reply-IsAnswering sendable not_linked_error made =
      last-IsAnswering (edit_reply link_first) made refl
  create_reply-IsAnswering sendable (http_error status) made =
      last-IsAnswering (edit_reply generic_error) made refl
  create_reply-IsAnswering sendable aborted made =
      last-IsAnswering (edit_reply generic_error) made refl

  handle_interaction-IsAnswering :
      (sub : String) (sendable : Bool) (response : Option Posted)
      → IsAnswering (handle_interaction refuses sub sendable response)
  unfolding handle_interaction handle_link handle_create
  handle_interaction-IsAnswering sub sendable response =
      let l = link_reply-IsAnswering (create_link_token response) (defer_reply ∷ []) in
      let c = create_reply-IsAnswering sendable (create_room response) (defer_reply ∷ []) in
      let u = last-IsAnswering (reply unknown) [] refl in ground arith

  recover-has_message :
      (made : List Call)
      → refuses (edit_reply wrong) ≡ false
      → refuses (reply wrong) ≡ false
      → has_message (recover refuses made).made ≡ true
  unfolding recover
  recover-has_message [] e r = rw r refl
  recover-has_message (c ∷ cs) e r =
      rw e (let m = has_message-append (c ∷ cs) (edit_reply wrong) in ground arith)

-- A `meet` command gets a message whatever the server answers, or if it does not, with a body that
-- can be read or without, and whichever
-- calls Discord refuses, as long as it accepts the bot's last resort, "Something went wrong".
pub dispatch_interaction-has_message :
    (refuses : Call → Bool) (sub : String) (sendable : Bool) (response : Option Posted)
    → refuses (edit_reply wrong) ≡ false
    → refuses (reply wrong) ≡ false
    → has_message (dispatch_interaction refuses sub sendable response).made ≡ true
unfolding dispatch_interaction
dispatch_interaction-has_message refuses sub sendable response e r =
    let run = handle_interaction refuses sub sendable response in
    let a = handle_interaction-IsAnswering refuses sub sendable response in
    let b = recover-has_message refuses run.made e r in ground arith

abbrev refusal : ℕ → Bool → Option String → Posted
refusal status success code = record {
  status = status;
  ok = success;
  body = some (record { code = code; room_id = ""; link_url = "" });
}

-- What the server's answer is for `post`: created is 201, and only a missing link has a code.
abbrev pub response_of : Response → Posted
response_of (created room_id) = record {
  status = 201;
  ok = true;
  body = some (record { code = none; room_id = room_id; link_url = "" });
}
response_of ok = refusal 200 true none
response_of invalid_link = refusal 400 false none
response_of not_linked = refusal 404 false (some "not_linked")
response_of no_code = refusal 500 false none
response_of failed = refusal 500 false none

-- What `/meet create` does in Discord for a user whose link is this one, with this code for a room
abbrev pub calls_for : Option String → Option String → List Call
calls_for none code = defer_reply ∷ edit_reply link_first ∷ []
calls_for (some user_id) none = defer_reply ∷ edit_reply generic_error ∷ []
calls_for (some user_id) (some room_id) = defer_reply ∷ send room_id ∷ edit_reply posted ∷ []

answers_for :
    (link code : Option String)
    → (handle_create (λ c. false) true (some (response_of (room_for code link).1))).made
      ≡ calls_for link code
unfolding handle_create create_reply create_room announce last
answers_for none code = refl
answers_for (some user_id) none = refl
answers_for (some user_id) (some room_id) = refl

-- `/meet create` from Discord to the server and back, where Discord accepts each call and the channel
-- can be sent to: a user without a link is told to link the account, in private and with no room;
-- a linked user's room is announced and confirmed; and where no code is free the user is told.
pub handle_create-calls_for :
    (discord_id : String) (code : Option String) (links : Links)
    → (handle_create
        (λ c. false)
        true
        (some (response_of (create_room_for_discord discord_id code links).1))).made
      ≡ calls_for (get discord_id links) code
handle_create-calls_for discord_id code links =
    rw (create_room_for_discord-eq discord_id code links) (answers_for (get discord_id links) code)
