-- ===== src/Discord/Tokens.antt =====
-- Link tokens and auth tokens, of server/src/integrations/discord/link-token.ts and
-- server/src/middleware/auth.ts: what jsonwebtoken documents is named, and what follows.
use a_meet.Discord.{
  Claims, Jwt, Keys, link_claims, user_claims, linked_id, is_link, user_of, mint_link_token,
  verify_link_token, sign_token, require_auth,
}
use a_meet.Prelude.{
  ℕ, String, false, none, some, ◌≡◌, ◌≢◌, ◌+◌, ◌≤◌, ◌<◌, ◌/◌, ◌⊎◌, eq_iff, arith, inl, inr, true,
  leb, Option, Bool-cases, ap, sym, refl, ◌∙◌,
}
use a_meet.Prelude.Text.{is_empty}
use a_meet.Types.{AuthUser}

-- The second of a time in milliseconds, as `iat` and `exp` are counted
abbrev pub second : ℕ → ℕ
second time = time / 1000

-- What jsonwebtoken documents: a token that was signed with a key that is not empty verifies under that
-- key while the seconds of its lifetime have not gone by since the second of its signing, and under no
-- other key.
pub record IsSound {Token : Type 0} (jwt : Jwt Token) : Type 0 where
  pub verifies :
      (c : Claims) (key : String) (now ttl later : ℕ)
      → is_empty key ≡ false
      → second later < second now + ttl
      → jwt.verify (jwt.sign c key now ttl) key later ≡ some c
  pub expires :
      (c : Claims) (key : String) (now ttl later : ℕ)
      → is_empty key ≡ false
      → second now + ttl ≤ second later
      → jwt.verify (jwt.sign c key now ttl) key later ≡ none
  pub rejects :
      (c : Claims) (key other : String) (now ttl later : ℕ)
      → is_empty key ≡ false
      → key ≢ other
      → jwt.verify (jwt.sign c key now ttl) other later ≡ none

-- The two keys are there and differ.
pub record IsKeyed (k : Keys) : Type 0 where
  pub has_secret : is_empty k.jwt_secret ≡ false
  pub has_derived : is_empty k.link_token_secret ≡ false
  pub differ : k.jwt_secret ≢ k.link_token_secret

-- The uses of a token, in the place of the other kind and in its own.
pub record IsSeparate {Token : Type 0} (jwt : Jwt Token) (k : Keys) (discord_id : String)
    (user : AuthUser) (now later : ℕ) : Type 0 where
  pub link :
      second later < second now + k.link_token_ttl
      → verify_link_token jwt k (mint_link_token jwt k discord_id now) later ≡ some discord_id
  pub late :
      second now + k.link_token_ttl ≤ second later
      → verify_link_token jwt k (mint_link_token jwt k discord_id now) later ≡ none
  pub cookie :
      second later < second now + k.jwt_expires_in
      → require_auth jwt k (some (sign_token jwt k user now)) later ≡ some user
  pub no_cookie : require_auth jwt k (some (mint_link_token jwt k discord_id now)) later ≡ none
  pub no_link : verify_link_token jwt k (sign_token jwt k user now) later ≡ none
  -- even under the key of the link tokens
  pub typed :
      (c : Claims) (ttl : ℕ)
      → c.typ ≢ some "discord-link"
      → verify_link_token jwt k (jwt.sign c k.link_token_secret now ttl) later ≡ none

is_link-eq : (t : Option String) → is_link t ≡ true → t ≡ some "discord-link"
is_link-eq none h = absurd (ground arith)
is_link-eq (some t) h = ground (arith, eq_iff t "discord-link")

untyped : (c : Claims) → c.typ ≢ some "discord-link" → linked_id (some c) ≡ none
untyped c ne = elim (Bool-cases (is_link c.typ)) [
  | inl e ↦ absurd (ne (is_link-eq c.typ e))
  | inr e ↦ rw e refl
]

-- A token expires or does not.
expiry : (n l : ℕ) → (l < n) ⊎ (n ≤ l)
expiry n l = elim (Bool-cases (leb n l)) [ inl e ↦ inr (ground arith) | inr e ↦ inl (ground arith) ]

-- Where jsonwebtoken does what it documents, and the secret and the key that is derived of it are not
-- empty and differ: a link token gives back its Discord id until the seconds of its lifetime have gone
-- by and not after, a user's token gives back the user, neither is accepted in the other's place, and
-- no token without the type of the link tokens is accepted as one, even if it was signed with their key.
pub verify_link_token-mint_link_token :
    {Token : Type 0} (jwt : Jwt Token)
    → IsSound jwt
    → (k : Keys) → IsKeyed k
    → (discord_id : String) → is_empty discord_id ≡ false
    → (user : AuthUser) (now later : ℕ) → IsSeparate jwt k discord_id user now later
unfolding mint_link_token verify_link_token sign_token require_auth
verify_link_token-mint_link_token jwt v k key id e user now later = record {
  link = λ lt.
      ap linked_id (
        v.verifies (link_claims id) k.link_token_secret now k.link_token_ttl later key.has_derived
          lt)
      ∙ (rw e refl);
  late = λ le. ap linked_id (
      v.expires (link_claims id) k.link_token_secret now k.link_token_ttl later key.has_derived le);
  cookie = λ lt.
      ap user_of
        (v.verifies (user_claims user) k.jwt_secret now k.jwt_expires_in later key.has_secret lt);
  no_cookie = ap user_of (
      v.rejects (link_claims id) k.link_token_secret k.jwt_secret now k.link_token_ttl later
        key.has_derived (λ p. key.differ (sym p)));
  no_link = ap linked_id (
      v.rejects (user_claims user) k.jwt_secret k.link_token_secret now k.jwt_expires_in later
        key.has_secret key.differ);
  typed = λ c ttl ne. elim (expiry (second now + ttl) (second later)) [
    | inl lt ↦
        ap linked_id (v.verifies c k.link_token_secret now ttl later key.has_derived lt)
        ∙ untyped c ne
    | inr le ↦ ap linked_id (v.expires c k.link_token_secret now ttl later key.has_derived le)
  ];
}
