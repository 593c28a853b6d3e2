-- ===== src/Bot.antt =====
-- The Discord bot: bot/src/http/client.ts, bot/src/interactions.ts and bot/src/commands/handlers.ts.
-- What the server answers is an argument, and Discord may refuse any call: which ones is a parameter.
-- The contents of messages that are fixed texts are named.
pub mod Answers
mod Tests
use a_meet.Prelude.{
  ℕ, String, ◌==◌, Bool, true, false, not, ◌&&◌, ◌||◌, Option, none, some, List, [], ◌∷◌, ◌++◌,
  if◌then◌else◌, nat_beq,
}
use a_meet.Prelude.Text.{is_empty}

-- The fields of a body that are read
pub record Body : Type 0 where
  pub code : Option String
  pub room_id : String
  pub link_url : String

-- What `post` gives, if it does not throw: the status, whether it is a success, and the body, if it
-- could be read.
pub record Posted : Type 0 where
  pub status : ℕ
  pub ok : Bool
  pub body : Option Body

-- How `createRoom` and `createLinkToken` end, where the handler reads the field that it wants:
-- `unread` is the exception of reading it from a success without a body.
pub data Outcome : Type 0 where
  answered : String → Outcome
  unread : Outcome
  not_linked_error : Outcome
  http_error : ℕ → Outcome
  aborted : Outcome

abbrev pub is_not_linked : Option String → Bool
is_not_linked none = false
is_not_linked (some code) = code == "not_linked"

abbrev pub code_of : Option Body → Option String
code_of none = none
code_of (some b) = b.code

abbrev pub read : (Body → String) → Option Body → Outcome
read field none = unread
read field (some b) = answered (field b)

-- `createLinkToken`: the URL
unfoldable pub create_link_token : Option Posted → Outcome
create_link_token none = aborted
create_link_token (some p) = if p.ok then read (λ b. b.link_url) p.body else http_error p.status

-- `createRoom`: the room's id
unfoldable pub create_room : Option Posted → Outcome
create_room none = aborted
create_room (some p) =
    if p.ok
    then read (λ b. b.room_id) p.body
    else if nat_beq p.status 404 && is_not_linked (code_of p.body)
    then not_linked_error
    else http_error p.status

pub data Content : Type 0 where
  -- the link to confirm, "Something went wrong talking to A-Meet", "Link your account first"
  link_prompt : String → Content
  generic_error : Content
  link_first : Content
  -- the room's link, with the hint that it could not be posted, and the confirmation
  ready : String → Content
  posted : Content
  unknown : Content
  -- "Something went wrong. Please try again."
  wrong : Content

-- The calls of Discord: the first two answer the interaction in private.
pub data Call : Type 0 where
  defer_reply : Call
  edit_reply : Content → Call
  reply : Content → Call
  -- the announcement in the channel, of the meeting of this room
  send : String → Call

-- The calls that were accepted, and whether an exception is under way
pub record Run : Type 0 where
  pub made : List Call
  pub threw : Bool

module _ (refuses : Call → Bool) where
  -- A call, after those that were made; and what follows it, unless it throws
  unfoldable pub last : Call → List Call → Run
  last c made =
      if refuses c
      then record { made = made; threw = true }
      else record { made = made ++ c ∷ []; threw = false }

  -- The edit of `handleLink` and, where it or the token failed, the one of its catch block
  unfoldable pub link_reply : Outcome → List Call → Run
  unfolding last
  link_reply (answered url) made =
      if refuses (edit_reply (link_prompt url))
      then last (edit_reply generic_error) made
      else record { made = made ++ edit_reply (link_prompt url) ∷ []; threw = false }
  link_reply unread made = last (edit_reply generic_error) made
  link_reply not_linked_error made = last (edit_reply generic_error) made
  link_reply (http_error status) made = last (edit_reply generic_error) made
  link_reply aborted made = last (edit_reply generic_error) made

  -- `handleLink`
  unfoldable pub handle_link : Option Posted → Run
  unfolding link_reply create_link_token
  handle_link response =
      if refuses defer_reply
      then record { made = []; threw = true }
      else link_reply (create_link_token response) (defer_reply ∷ [])

  -- The announcement, in a channel that can be sent to or not, and the private answer
  unfoldable pub announce : Bool → String → List Call → Run
  unfolding last
  announce sendable room_id made =
      if not sendable || refuses (send room_id)
      then last (edit_reply (ready room_id)) made
      else last (edit_reply posted) (made ++ send room_id ∷ [])

  unfoldable pub create_reply : Bool → Outcome → List Call → Run
  unfolding last announce
  create_reply sendable (answered room_id) made = announce sendable room_id made
  create_reply sendable unread made = last (edit_reply generic_error) made
  create_reply sendable not_linked_error made = last (edit_reply link_first) made
  create_reply sendable (http_error status) made = last (edit_reply generic_error) made
  create_reply sendable aborted made = last (edit_reply generic_error) made

  -- `handleCreate`
  unfoldable pub handle_create : Bool → Option Posted → Run
  unfolding create_reply create_room
  handle_create sendable response =
      if refuses defer_reply
      then record { made = []; threw = true }
      else create_reply sendable (create_room response) (defer_reply ∷ [])

  -- `handleInteraction`, for a command `meet` with this subcommand
  unfoldable pub handle_interaction : String → Bool → Option Posted → Run
  unfolding handle_link handle_create last
  handle_interaction sub sendable response =
      if sub == "link"
      then handle_link response
      else if sub == "create"
      then handle_create sendable response
      else last (reply unknown) []

  abbrev pub was_answered : List Call → Bool
  was_answered [] = false
  was_answered (c ∷ cs) = true

  -- The catch block of `dispatchInteraction`, whose own failure is swallowed
  unfoldable pub recover : List Call → Run
  recover made =
      let c = if was_answered made then edit_reply wrong else reply wrong in
      record { made = if refuses c then made else made ++ c ∷ []; threw = false }

  -- `dispatchInteraction`
  unfoldable pub dispatch_interaction : String → Bool → Option Posted → Run
  unfolding handle_interaction recover
  dispatch_interaction sub sendable response =
      let run = handle_interaction sub sendable response in
      if run.threw then recover run.made else run
