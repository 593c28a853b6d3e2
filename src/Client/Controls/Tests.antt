-- ===== src/Client/Controls/Tests.antt =====
-- Runs of the participant's controls, and instances of the theorems about them.
use a_meet.Client.Controls.{Prompt, denied, new_controls, Controls, toggle_audio, produce_audio}
use a_meet.Client.Controls.Wishes.{
  IsHeeded, IsFilming, acquired, toggles_audio, toggles_video, audio_produced, granted, replaced,
  run, run-IsHeeded, toggle_video-IsFilming,
}
use a_meet.Client.Controls.Screen.{Share, begin_share}
use a_meet.Prelude.{true, false, none, some, [], ◌∷◌, ◌≡◌, refl}

abbrev muted : Controls
muted = record {
  desired_audio_on = false;
  desired_video_on = false;
  has_stream = true;
  audio_tracks = true ∷ [];
  video_tracks = [];
  stopped = [];
  audio_producer = none;
  video_producer = some (record { id = "v"; paused = true; track = 1 });
  can_send_video = true;
  local_audio_on = false;
  local_video_on = false;
  has_camera = false;
}

abbrev filming : Controls
filming = record muted { desired_video_on = true; local_video_on = true; video_tracks = 1 ∷ [] }

-- A click before the microphone's producer is there is not lost.
early_click :
    (run (toggles_audio ∷ audio_produced "a" 2 ∷ []) muted).audio_producer
    ≡ some (record { id = "a"; paused = false; track = 2 })
unfolding toggle_audio produce_audio
early_click = refl

run-IsHeeded_example : IsHeeded (
    run
      (acquired (Prompt.granted 2) denied ∷ toggles_audio ∷ audio_produced "a" 2 ∷ [])
      (new_controls false true))
run-IsHeeded_example =
    run-IsHeeded (acquired (Prompt.granted 2) denied ∷ toggles_audio ∷ audio_produced "a" 2 ∷ [])
      false true

toggle_video-IsFilming_example :
    IsFilming 7 (run (toggles_video ∷ granted (some 7) ∷ toggles_video ∷ replaced 7 ∷ []) muted)
toggle_video-IsFilming_example = toggle_video-IsFilming 7 muted refl refl refl

abbrev idle : Share
idle = record {
  has_transport = true;
  screen_producer = none;
  screen_audio_producer = none;
  open_producers = [];
  screen_stream = none;
  stopped = [];
}

may_share : begin_share idle ≡ true
unfolding begin_share
may_share = refl
