-- ===== src/Discord.antt =====
-- Accounts of Discord: server/src/integrations/discord/link-token.ts, the endpoints of
-- server/src/controllers/discord.controller.ts, and the guards of server/src/middleware/auth.ts,
-- socket-auth.ts and bot-auth.ts. jsonwebtoken is not part of the program: signing and verifying are
-- parameters, as are the derived key and the database's failures. A time is a number of milliseconds,
-- a lifetime one of seconds, which the library counts.
pub mod Tokens
pub mod Linking
mod Tests
use a_meet.Prelude.{
  ℕ, String, ◌==◌, Bool, true, false, not, ◌&&◌, ◌||◌, Option, none, some, List, [], ◌∷◌, or_else,
  if◌then◌else◌,
}
use a_meet.Prelude.Maps.{get, set}
use a_meet.Prelude.Text.{is_empty}
use a_meet.Types.{AuthUser}

-- The payloads that are signed
pub record Claims : Type 0 where
  pub typ : Option String
  pub discord_id : Option String
  pub sub : Option String
  pub name : Option String
  pub email : Option String
  pub avatar : Option String

-- `jwt.sign` at a time, with a lifetime, and `jwt.verify` at a time, which may throw. An empty key, for
-- which signing throws, is excluded where a theorem relies on the token.
pub record Jwt (Token : Type 0) : Type 0 where
  pub sign : Claims → String → ℕ → ℕ → Token
  pub verify : Token → String → ℕ → Option Claims

-- `env`: the secret, the key that is derived of it for link tokens, and the lifetimes in seconds.
pub record Keys : Type 0 where
  pub jwt_secret : String
  pub link_token_secret : String
  pub jwt_expires_in : ℕ
  pub link_token_ttl : ℕ

abbrev pub link_token_type : String
link_token_type = "discord-link"

abbrev pub link_claims : String → Claims
link_claims discord_id = record {
  typ = some link_token_type;
  discord_id = some discord_id;
  sub = none;
  name = none;
  email = none;
  avatar = none;
}

abbrev pub user_claims : AuthUser → Claims
user_claims u = record {
  typ = none;
  discord_id = none;
  sub = some u.id;
  name = some u.name;
  email = some u.email;
  avatar = some u.avatar;
}

abbrev pub is_link : Option String → Bool
is_link none = false
is_link (some t) = t == link_token_type

abbrev pub written : Option String → Option String
written none = none
written (some t) = if is_empty t then none else some t

-- The Discord id of a verified payload
abbrev pub linked_id : Option Claims → Option String
linked_id none = none
linked_id (some c) = if is_link c.typ then written c.discord_id else none

abbrev pub user_of : Option Claims → Option AuthUser
user_of none = none
user_of (some c) = some (record {
  id = or_else c.sub "";
  name = or_else c.name "";
  email = or_else c.email "";
  avatar = or_else c.avatar "";
})

-- The answers of the endpoints
pub data Response : Type 0 where
  -- 201, with the room
  created : String → Response
  ok : Response
  -- 400
  invalid_link : Response
  -- 404, with the code `not_linked`
  not_linked : Response
  -- 500
  no_code : Response
  -- `next(err)`
  failed : Response

module _ {Token : Type 0} where
  -- `mintLinkToken`, at a time
  unfoldable pub mint_link_token : Jwt Token → Keys → String → ℕ → Token
  mint_link_token jwt k discord_id now =
      jwt.sign (link_claims discord_id) k.link_token_secret now k.link_token_ttl

  -- `verifyLinkToken`: the Discord id, unless it throws
  unfoldable pub verify_link_token : Jwt Token → Keys → Token → ℕ → Option String
  verify_link_token jwt k token now = linked_id (jwt.verify token k.link_token_secret now)

  -- `signToken`
  unfoldable pub sign_token : Jwt Token → Keys → AuthUser → ℕ → Token
  sign_token jwt k user now = jwt.sign (user_claims user) k.jwt_secret now k.jwt_expires_in

  -- `requireAuth` and `socketAuth`, on the cookie's token: the user, unless the request is refused
  unfoldable pub require_auth : Jwt Token → Keys → Option Token → ℕ → Option AuthUser
  require_auth jwt k none now = none
  require_auth jwt k (some token) now = user_of (jwt.verify token k.jwt_secret now)

-- The mapping of Discord ids to users, by Discord id
abbrev pub Links : Type 0
Links = List (String × String)

-- `linkAccount`, after its token was verified; the database may fail.
unfoldable pub link_account : Option String → String → Bool → Links → Links × Response
link_account none user_id fails links = (links, invalid_link)
link_account (some discord_id) user_id fails links =
    if fails then (links, failed) else (set discord_id user_id links, ok)

-- `createRoomForDiscord`: the host of the room that is created, and the answer; `createUniqueRoom`
-- gives a code or none.
unfoldable pub create_room_for_discord : String → Option String → Links → Option String × Response
create_room_for_discord discord_id code links = elim (get discord_id links) [
  | none ↦ (none, not_linked)
  | some user_id ↦ elim code [
    | none ↦ (none, no_code)
    | some room_id ↦ (some user_id, created room_id)
  ]
]

-- `keysMatch`: `timingSafeEqual` compares bytes.
abbrev pub keys_match : String → String → Bool
keys_match provided expected = provided == expected

-- `requireBotAuth`: whether the request goes on, with the configured key and the header
unfoldable pub require_bot_auth : String → Option String → Bool
require_bot_auth expected provided =
    not (is_empty expected) && keys_match (or_else provided "") expected
