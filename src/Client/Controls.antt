-- ===== src/Client/Controls.antt =====
-- client/src/hooks/useMediasoup.ts: the microphone, the camera and the shared screen of the
-- participant. The handlers are cut where they wait for the browser or the media server. A track is a
-- number that the browser gives out; a request to the server is an output, whose failure is ignored.
pub mod Wishes
pub mod Screen
mod Tests
use a_meet.Prelude.{
  ℕ, String, Bool, true, false, not, ◌&&◌, Option, none, some, List, [], ◌∷◌, ◌++◌, ◌+◌, nat_beq,
  map, is_some, if◌then◌else◌,
}

pub record Producer : Type 0 where
  pub id : String
  pub paused : Bool
  pub track : ℕ

pub data Request : Type 0 where
  pause_producer : String → Request
  resume_producer : String → Request
  close_producer : String → Request

pub record Controls : Type 0 where
  -- the user's requested states, which a setup reads
  pub desired_audio_on : Bool
  pub desired_video_on : Bool
  -- the local stream: whether each microphone track is enabled, and the camera's tracks
  pub has_stream : Bool
  pub audio_tracks : List Bool
  pub video_tracks : List ℕ
  -- tracks that were stopped
  pub stopped : List ℕ
  pub audio_producer : Option Producer
  pub video_producer : Option Producer
  -- a transport to send on, and whether the device can send video
  pub can_send_video : Bool
  -- rendered
  pub local_audio_on : Bool
  pub local_video_on : Bool
  pub has_camera : Bool

-- The hook when it is mounted, with the states that the lobby hands on
abbrev pub new_controls : Bool → Bool → Controls
new_controls start_audio_on start_video_on = record {
  desired_audio_on = start_audio_on;
  desired_video_on = start_video_on;
  has_stream = false;
  audio_tracks = [];
  video_tracks = [];
  stopped = [];
  audio_producer = none;
  video_producer = none;
  can_send_video = false;
  local_audio_on = false;
  local_video_on = false;
  has_camera = false;
}

-- What the browser answers when a device is asked for: a track, no permission or no device, or
-- another error.
pub data Prompt : Type 0 where
  granted : ℕ → Prompt
  denied : Prompt
  broken : Prompt

abbrev pub is_denied : Prompt → ℕ
is_denied (granted track) = 0
is_denied denied = 1
is_denied broken = 0

abbrev pub enabled_of : Prompt → List Bool
enabled_of (granted track) = true ∷ []
enabled_of denied = []
enabled_of broken = []

abbrev pub tracks_of : Prompt → List ℕ
tracks_of (granted track) = track ∷ []
tracks_of denied = []
tracks_of broken = []

-- The camera is only asked for where it is wanted.
abbrev pub asked_for : Bool → Prompt → Prompt
asked_for wanted answer = if wanted then answer else broken

abbrev pub is_written : List Bool → Bool
is_written [] = false
is_written (t ∷ ts) = true

abbrev pub is_filled : List ℕ → Bool
is_filled [] = false
is_filled (t ∷ ts) = true

-- `init`, up to the local stream, where no click comes between its two prompts: the state, and
-- whether the user is told that permission is denied
unfoldable pub acquire : Prompt → Prompt → Controls → Controls × Bool
acquire audio video c =
    let camera = asked_for c.desired_video_on video in
    (
      record c {
        has_stream = true;
        audio_tracks = enabled_of audio;
        video_tracks = tracks_of camera;
        has_camera = is_filled (tracks_of camera);
        local_audio_on = is_written (enabled_of audio) && c.desired_audio_on;
        local_video_on = is_filled (tracks_of camera) && c.desired_video_on;
      },
      nat_beq (is_denied audio + is_denied camera) 2,
    )

-- `producer.pause()` and `producer.resume()`
abbrev pub set_paused : Bool → Option Producer → Option Producer
set_paused paused none = none
set_paused paused (some p) = some (record p { paused = paused })

abbrev pub told : (String → Request) → Option Producer → List Request
told f none = []
told f (some p) = f p.id ∷ []

unfoldable pub toggle_audio : Controls → Controls × List Request
toggle_audio c =
    let next = not c.desired_audio_on in
    (
      record c {
        desired_audio_on = next;
        audio_tracks = map (λ t. next) c.audio_tracks;
        local_audio_on = next && is_written c.audio_tracks;
        audio_producer = set_paused (not next) c.audio_producer;
      },
      told (if next then resume_producer else pause_producer) c.audio_producer,
    )

-- `setupSfu` has produced the microphone.
unfoldable pub produce_audio : String → ℕ → Controls → Controls × List Request
produce_audio id track c = (
  record c {
    audio_producer = some (record { id = id; paused = not c.desired_audio_on; track = track });
    local_audio_on = c.desired_audio_on;
  },
  if c.desired_audio_on then [] else pause_producer id ∷ [],
)

-- `setupSfu` has produced the camera.
unfoldable pub produce_video : String → ℕ → Controls → Controls × List Request
produce_video id track c = (
  record c {
    video_producer = some (record { id = id; paused = not c.desired_video_on; track = track });
    local_video_on = c.desired_video_on;
  },
  if c.desired_video_on then [] else pause_producer id ∷ [],
)

-- The transport closed, or a new setup begins.
unfoldable pub drop_producers : Controls → Controls
drop_producers c = record c { audio_producer = none; video_producer = none }

-- What `toggleVideo` waits for.
pub data Waits : Type 0 where
  nothing : Waits
  -- the browser's camera
  camera : Waits
  -- `replaceTrack`, and `produce`
  replacing : Waits
  producing : Waits

abbrev pub video_off : Controls → Controls × List Request × Waits
video_off c = (
  record c {
    desired_video_on = false;
    local_video_on = false;
    video_producer = set_paused true c.video_producer;
    stopped = c.video_tracks ++ c.stopped;
    video_tracks = [];
    has_camera = false;
  },
  told pause_producer c.video_producer,
  nothing,
)

-- `toggleVideo`
unfoldable pub toggle_video : Controls → Controls × List Request × Waits
toggle_video c =
    if c.desired_video_on
    then video_off c
    else if not c.has_stream
    then (record c { desired_video_on = false }, [], nothing)
    else (record c { desired_video_on = true }, [], camera)

-- The new track takes the place of the stream's tracks, and the camera is on.
abbrev pub install : ℕ → Controls → Controls × List Request × Waits
install track c = (
  record c {
    stopped = c.video_tracks ++ c.stopped;
    video_tracks = track ∷ [];
    local_video_on = true;
    has_camera = true;
  },
  told resume_producer c.video_producer,
  nothing,
)

-- The browser grants a camera, with a track or without.
unfoldable pub grant_camera : Option ℕ → Controls → Controls × List Request × Waits
grant_camera none c = (record c { desired_video_on = false }, [], nothing)
grant_camera (some track) c =
    if not c.desired_video_on
    then (record c { stopped = track ∷ c.stopped }, [], nothing)
    else if is_some c.video_producer
    then (c, [], replacing)
    else if c.can_send_video
    then (c, [], producing)
    else install track c

-- The producer has the new track.
unfoldable pub replace_track : ℕ → Controls → Controls × List Request × Waits
replace_track track c =
    install track (record c { video_producer = set_paused false c.video_producer })

-- The camera has a producer.
unfoldable pub finish_produce : String → ℕ → Controls → Controls × List Request × Waits
finish_produce id track c =
    install track
      (record c { video_producer = some (record { id = id; paused = false; track = track }) })

-- One of the waits failed; the track is stopped, if there is one.
unfoldable pub fail_video : Option ℕ → Controls → Controls
fail_video track c = record c {
  stopped = elim track [ none ↦ c.stopped | some t ↦ t ∷ c.stopped ];
  desired_video_on = false;
  local_video_on = false;
  has_camera = false;
}
