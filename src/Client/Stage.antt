-- ===== src/Client/Stage.antt =====
-- What a participant sees in the middle of the page: client/src/hooks/useRoomLayout.ts, the layout
-- and its focus; client/src/hooks/useScreenShare.ts, the shared screens; and the host's spotlight of
-- client/src/hooks/useHostModeration.ts. A missing key is `none`.
pub mod Focus
mod Tests
use a_meet.Prelude.{
  String, ◌==◌, Bool, true, false, not, ◌&&◌, ◌||◌, Option, none, some, List, [], ◌∷◌, ◌++◌, map,
  or_else, is_some, if◌then◌else◌,
}
use a_meet.Prelude.Maps.{get, contains}
use a_meet.Prelude.Text.{is_empty}

pub data LayoutMode : Type 0 where
  auto : LayoutMode
  tiled : LayoutMode
  spotlight : LayoutMode
  sidebar : LayoutMode

pub data LayoutStage : Type 0 where
  presentation : LayoutStage
  -- on whom, and whether the rail is shown
  focus : String → Bool → LayoutStage
  grid : LayoutStage
  alone : LayoutStage
  solo : LayoutStage

pub record Options : Type 0 where
  pub self_key : String
  pub remote_keys : List String
  pub active_speaker : Option String
  pub spotlight_key : Option String
  pub has_screen : Bool
  pub is_alone : Bool
  pub is_solo_call : Bool

-- A key is only valid while its participant is present.
abbrev pub key_present : Options → Option String → Bool
key_present o none = false
key_present o (some k) = not (is_empty k) && (k == o.self_key || contains k o.remote_keys)

abbrev pub explicit_focus : Options → Option String → Option String
explicit_focus o pinned =
    if key_present o o.spotlight_key
    then o.spotlight_key
    else if key_present o pinned
    then pinned
    else none

abbrev pub first_of : List String → Option String
first_of [] = none
first_of (k ∷ ks) = some k

abbrev pub fallback_focus : Options → String
fallback_focus o =
    let first = or_else (first_of o.remote_keys) o.self_key in
    if key_present o o.active_speaker then or_else o.active_speaker first else first

abbrev pub is_forced : LayoutMode → Bool
is_forced auto = false
is_forced tiled = false
is_forced spotlight = true
is_forced sidebar = true

abbrev pub has_rail : LayoutMode → Bool
has_rail spotlight = false
has_rail auto = true
has_rail tiled = true
has_rail sidebar = true

abbrev pub smart_stage : Options → LayoutMode → LayoutStage
smart_stage o tiled = grid
smart_stage o mode = if o.is_alone then alone else if o.is_solo_call then solo else grid

-- `stage` of `useRoomLayout`, with the viewer's pin and layout
unfoldable pub stage_of : Options → Option String → LayoutMode → LayoutStage
stage_of o pinned mode =
    if o.has_screen
    then presentation
    else if is_some (explicit_focus o pinned) || is_forced mode
    then focus (or_else (explicit_focus o pinned) (fallback_focus o)) (has_rail mode)
    else smart_stage o mode

-- `handlePin`: what is pinned after a click
unfoldable pub handle_pin : String → Option String → Option String
handle_pin id none = some id
handle_pin id (some k) = if k == id then none else some id

-- `handleSpotlight`: what the host asks the server to spotlight
unfoldable pub handle_spotlight : String → Option String → Option String
handle_spotlight id none = some id
handle_spotlight id (some k) = if k == id then none else some id

-- `ScreenShareEntry`; a stream is known by a text.
pub record Share : Type 0 where
  pub key : String
  pub stream : String
  pub is_local : Bool
  pub name : String
  pub surface : Option String

abbrev pub remote_share : List (String × String) → String × String → Share
remote_share names (id, stream) = record {
  key = id;
  stream = stream;
  is_local = false;
  name = or_else (get id names) "Participant";
  surface = none;
}

abbrev pub local_share : Bool → Option String → Option String → String → List Share
local_share is_sharing none surface name = []
local_share is_sharing (some stream) surface name =
    if is_sharing
    then record { key = "local"; stream = stream; is_local = true; name = name; surface = surface }
      ∷ []
    else []

-- `shares` of `useScreenShare`, from the remote screens and the peers' names
unfoldable pub shares_of :
    List (String × String)
    → List (String × String)
    → Bool
    → Option String
    → Option String
    → String
    → List Share
shares_of remote_screens names is_sharing stream surface name =
    map (remote_share names) remote_screens ++ local_share is_sharing stream surface name

abbrev pub find : (Share → Bool) → List Share → Option Share
find f [] = none
find f (s ∷ ss) = let rest = find f ss in if f s then some s else rest

abbrev pub first_share : List Share → Option Share
first_share [] = none
first_share (s ∷ ss) = some s

abbrev pub or_next : Option Share → Option Share → Option Share
or_next none next = next
or_next (some s) next = some s

abbrev pub has_key : Option String → Share → Bool
has_key none s = false
has_key (some k) s = s.key == k

-- `pinnedShare`
unfoldable pub pinned_share : Option String → List Share → Option Share
pinned_share key shares =
    or_next (find (has_key key) shares)
      (or_next (find (λ s. not s.is_local) shares) (first_share shares))

abbrev pub has_screen_of : List Share → Bool
has_screen_of [] = false
has_screen_of (s ∷ ss) = true

abbrev pub same_stream : Option String → Option String → Bool
same_stream none s = false
same_stream (some t) none = false
same_stream (some t) (some s) = s == t

-- `showScreenAnyway`: the local stream that was revealed is the one that is shared.
unfoldable pub show_screen_anyway : Bool → Option String → Option String → Bool
show_screen_anyway is_sharing stream revealed = is_sharing && same_stream stream revealed
