-- ===== src/Client/Labels.antt =====
-- Small decisions of the pages: client/src/utils/format-time.ts, how far away a meeting is;
-- client/src/utils/peer-color.ts, a participant's colour; and client/src/utils/room-entry.ts, who is
-- sent to the preview first. Times are milliseconds, and a text is the list of its UTF-16 units.
pub mod Legible
mod Tests
use a_meet.Prelude.{
  ℕ, zero, suc, Bool, true, false, not, ◌||◌, Option, none, some, List, [], ◌∷◌, ◌+◌, ◌-◌, ◌*◌, ◌/◌,
  ◌%◌, ◌^◌, ltb, leb, if◌then◌else◌,
}

abbrev pub ms_per_day : ℕ
ms_per_day = 86400000

-- `Math.round(a / b)`, half up
abbrev pub round : ℕ → ℕ → ℕ
round a b = (2 * a + b) / (2 * b)

pub data Phrase : Type 0 where
  minutes : ℕ → Phrase
  hours : ℕ → Phrase
  days : ℕ → Phrase

pub data Relative : Type 0 where
  starting_now : Relative
  in_the_future : Phrase → Relative
  ago : Phrase → Relative

unfoldable pub phrase_of : ℕ → Phrase
phrase_of abs =
    if ltb (round abs 60000) 60
    then minutes (round abs 60000)
    else if ltb (round abs 3600000) 24
    then hours (round abs 3600000)
    else days (round abs ms_per_day)

-- `relativeTime`, of a date and the time now
unfoldable pub relative_time : ℕ → ℕ → Relative
unfolding phrase_of
relative_time date now =
    let abs = (date - now) + (now - date) in
    if ltb abs 60000
    then starting_now
    else if leb now date
    then in_the_future (phrase_of abs)
    else ago (phrase_of abs)

-- `PEER_COLORS`, by their places
abbrev pub peer_colors : ℕ
peer_colors = 8

unfoldable pub hash : ℕ → List ℕ → ℕ
hash h [] = h
hash h (c ∷ cs) = hash ((h * 31 + c) % 2 ^ 32) cs

-- `getPeerColor`; without a name it is the first.
unfoldable pub get_peer_color : Option (List ℕ) → ℕ
unfolding hash
get_peer_color none = 0
get_peer_color (some []) = 0
get_peer_color (some (c ∷ cs)) = hash 0 (c ∷ cs) % peer_colors

-- `shouldRedirectToLobby`: whether the path is a room's, and what the navigation carries
unfoldable pub should_redirect_to_lobby : Bool → Bool → Bool → Bool
should_redirect_to_lobby is_room from_create from_lobby =
    if not is_room then false else not (from_create || from_lobby)
