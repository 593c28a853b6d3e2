-- ===== src/Discord/Linking.antt =====
-- From a link token to a room: the endpoints of server/src/controllers/discord.controller.ts in a row.
use a_meet.Discord.{
  Jwt, Keys, mint_link_token, verify_link_token, sign_token, Links, Response, created, ok,
  invalid_link, not_linked, no_code, link_account, create_room_for_discord,
}
use a_meet.Discord.Tokens.{second, IsSound, IsKeyed, verify_link_token-mint_link_token}
use a_meet.Prelude.{
  ℕ, String, false, Option, none, some, ◌≡◌, ◌≢◌, ◌+◌, ◌<◌, ap, subst, sym, refl, ◌∙◌, Option-cases,
  inl, inr,
}
use a_meet.Prelude.Maps.{get, set, get-set_self, get-set_ne}
use a_meet.Prelude.Text.{is_empty}
use a_meet.Types.{AuthUser}

-- The user's confirmation of a Discord id: what is stored and answered, and what comes of the next
-- requests for a room.
pub record IsLinked (discord_id user_id : String) (links : Links) (done : Links × Response)
    : Type 0 where
  pub answer : done.1 ≡ ok
  pub hosts :
      (code : String)
      → create_room_for_discord discord_id (some code) done.0 ≡ (some user_id, created code)
  pub others :
      (j : String)
      → discord_id ≢ j
      → (code : Option String)
      → create_room_for_discord j code done.0 ≡ create_room_for_discord j code links

-- What is answered for the user of a link
abbrev pub room_for : Option String → Option String → Option String × Response
room_for code none = (none, not_linked)
room_for none (some user_id) = (none, no_code)
room_for (some room_id) (some user_id) = (some user_id, created room_id)

pub create_room_for_discord-eq :
    (discord_id : String) (code : Option String) (links : Links)
    → create_room_for_discord discord_id code links ≡ room_for code (get discord_id links)
unfolding create_room_for_discord
create_room_for_discord-eq discord_id none links = elim (Option-cases (get discord_id links)) [
  | inl n ↦ rw (create_room_for_discord, n) refl
  | inr (u, e) ↦ rw (create_room_for_discord, e) refl
]
create_room_for_discord-eq discord_id (some code) links =
    elim (Option-cases (get discord_id links)) [
      | inl n ↦ rw (create_room_for_discord, n) refl
      | inr (u, e) ↦ rw (create_room_for_discord, e) refl
    ]

linked :
    (discord_id user_id : String) (links : Links)
    → IsLinked discord_id user_id links (link_account (some discord_id) user_id false links)
unfolding link_account
linked discord_id user_id links = record {
  answer = refl;
  hosts = λ code.
      create_room_for_discord-eq discord_id (some code) (set discord_id user_id links)
      ∙ ap (room_for (some code)) (get-set_self discord_id user_id links);
  others = λ j ne code.
      create_room_for_discord-eq j code (set discord_id user_id links)
      ∙ ap (room_for code) (get-set_ne discord_id j user_id links ne)
      ∙ sym (create_room_for_discord-eq j code links);
}

-- The two keys are there and differ, and a link token that the bot was given is confirmed by a
-- signed-in user before the seconds of its lifetime have gone by, and the database does not fail: the id is the user's, whoever it was before, its rooms are hosted by that
-- user, and other ids are served as before. A user's own auth token confirms nothing.
pub link_account-IsLinked :
    {Token : Type 0} (jwt : Jwt Token)
    → IsSound jwt
    → (k : Keys) → IsKeyed k
    → (discord_id : String) → is_empty discord_id ≡ false
    → (user : AuthUser) (links : Links) (now later : ℕ)
    → second later < second now + k.link_token_ttl
    → IsLinked discord_id user.id links (
        link_account
          (verify_link_token jwt k (mint_link_token jwt k discord_id now) later)
          user.id
          false
          links)
      × (link_account
            (verify_link_token jwt k (sign_token jwt k user now) later)
            user.id
            false
            links
          ≡ (links, invalid_link))
unfolding link_account
link_account-IsLinked jwt v k key id e user links now later lt =
    let s = verify_link_token-mint_link_token jwt v k key id e user now later in
    (
      subst (λ o. IsLinked id user.id links (link_account o user.id false links)) (sym (s.link lt))
          (linked id user.id links),
      ap (λ o. link_account o user.id false links) s.no_link,
    )
