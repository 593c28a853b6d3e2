-- ===== src/Client/Lobby.antt =====
-- client/src/hooks/useLobbyMedia.ts: the preview's camera and microphone. A device is its tracks in the
-- preview's stream, each enabled or not, with the state that is rendered; the lists of devices and the
-- selected one's id are left out. A change of the device is cut where it waits for the browser.
pub mod Shown
use a_meet.Prelude.{
  ℕ, zero, suc, Bool, true, false, not, Option, none, some, List, [], ◌∷◌, ◌++◌, ◌+◌, map, nat_beq,
  if◌then◌else◌,
}

-- One kind of device: whether each track is enabled, and the state, `videoOn` or `audioOn`
pub record Device : Type 0 where
  pub tracks : List Bool
  pub on : Bool

pub record Lobby : Type 0 where
  pub has_stream : Bool
  pub camera : Device
  pub microphone : Device
  pub permission_denied : Bool

abbrev pub no_device : Device
no_device = record { tracks = []; on = false }

abbrev pub new_lobby : Lobby
new_lobby = record {
  has_stream = false;
  camera = no_device;
  microphone = no_device;
  permission_denied = false;
}

-- What the browser answers: so many tracks, no permission or no device, or another error.
pub data Prompt : Type 0 where
  granted : ℕ → Prompt
  denied : Prompt
  broken : Prompt

abbrev pub repeated : ℕ → Bool → List Bool
repeated zero b = []
repeated (suc n) b = b ∷ repeated n b

abbrev pub off_tracks : Prompt → List Bool
off_tracks (granted n) = repeated n false
off_tracks denied = []
off_tracks broken = []

abbrev pub count_denied : Prompt → ℕ
count_denied (granted n) = 0
count_denied denied = 1
count_denied broken = 0

-- `init`: the tracks start disabled.
unfoldable pub init : Prompt → Prompt → Lobby → Lobby
init audio video l = record {
  has_stream = true;
  camera = record { tracks = off_tracks video; on = false };
  microphone = record { tracks = off_tracks audio; on = false };
  permission_denied =
      if nat_beq (count_denied audio + count_denied video) 2 then true else l.permission_denied;
}

-- `setVideoDevice` and `setAudioDevice`: the old tracks go,
unfoldable pub begin_change : Device → Device
begin_change d = record d { tracks = [] }

-- and the new ones join what is there, as enabled as the device is on.
unfoldable pub finish_change : Prompt → Device → Device
finish_change (granted n) d = record d { tracks = d.tracks ++ repeated n d.on }
finish_change denied d = record d { on = false }
finish_change broken d = record d { on = false }

-- `toggleVideo` and `toggleAudio`, by the first track
unfoldable pub toggle : Device → Device
toggle d = elim d.tracks [
  | [] ↦ d
  | ◌∷◌ t ts ↦ record { tracks = map (λ b. not t) d.tracks; on = not t }
]

-- `stop`
unfoldable pub stop : Lobby → Lobby
stop l = record l {
  has_stream = false;
  camera = record l.camera { tracks = [] };
  microphone = record l.microphone { tracks = [] };
}
