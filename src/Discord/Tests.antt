-- ===== src/Discord/Tests.antt =====
-- A toy of jsonwebtoken, in which a token shows what it was signed with, and instances of the theorems.
use a_meet.Discord.{
  Claims, Jwt, Keys, invalid_link, link_account, verify_link_token, mint_link_token, sign_token,
}
use a_meet.Discord.Tokens.{second, IsSound, IsKeyed, IsSeparate, verify_link_token-mint_link_token}
use a_meet.Discord.Linking.{IsLinked, link_account-IsLinked}
use a_meet.Prelude.{
  ℕ, String, ◌==◌, eq_iff, false, ◌&&◌, none, some, [], ltb, if◌then◌else◌, ◌≡◌, ◌+◌, arith, refl,
}
use a_meet.Prelude.Text.{is_empty}
use a_meet.Types.{AuthUser}

abbrev toy : Jwt (Claims × String × ℕ)
toy = record {
  sign = λ c key now ttl. (c, key, second now + ttl);
  verify = λ t key now. if (t.1 == key) && ltb (second now) t.2 then some t.0 else none;
}

toy-IsSound : IsSound toy
toy-IsSound = record {
  verifies = λ c key now ttl later n lt. ground (arith, eq_iff key key);
  expires = λ c key now ttl later n le. ground arith;
  rejects = λ c key other now ttl later n ne. ground (arith, eq_iff key other);
}

abbrev keys : Keys
keys = record {
  jwt_secret = "s";
  link_token_secret = "derived";
  jwt_expires_in = 604800;
  link_token_ttl = 600;
}

keys-IsKeyed : IsKeyed keys
unfolding is_empty
keys-IsKeyed = record {
  has_secret = refl;
  has_derived = refl;
  differ = λ e. ground (arith, eq_iff "s" "derived");
}

given : is_empty "42" ≡ false
unfolding is_empty
given = refl

abbrev ann : AuthUser
ann = record { id = "u1"; name = "Ann"; email = "ann@a.b"; avatar = "" }

verify_link_token-mint_link_token_example : IsSeparate toy keys "42" ann 10900 60000
verify_link_token-mint_link_token_example =
    verify_link_token-mint_link_token toy toy-IsSound keys keys-IsKeyed "42" given ann 10900 60000

link_account-IsLinked_example :
    IsLinked "42" "u1" [] (
      link_account
        (verify_link_token toy keys (mint_link_token toy keys "42" 10900) 60000)
        "u1"
        false
        [])
    × (link_account (verify_link_token toy keys (sign_token toy keys ann 10900) 60000) "u1" false []
        ≡ ([], invalid_link))
link_account-IsLinked_example =
    link_account-IsLinked toy toy-IsSound keys keys-IsKeyed "42" given ann [] 10900 60000
      (ground arith)
