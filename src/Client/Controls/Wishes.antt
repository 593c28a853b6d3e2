-- ===== src/Client/Controls/Wishes.antt =====
-- What the participant asked for and what is sent, in client/src/hooks/useMediasoup.ts.
use a_meet.Client.Controls.{
  Prompt, acquire, new_controls, Producer, Controls, toggle_audio, produce_audio, produce_video,
  drop_producers, toggle_video, grant_camera, replace_track, finish_produce, fail_video,
}
use a_meet.Prelude.{
  ℕ, String, Bool, true, false, not, Option, none, some, List, [], ◌∷◌, ◌++◌, is_some, ◌≡◌, refl,
  subst, arith, Option-cases, inl, inr,
}

abbrev pub is_sending : Option Producer → Bool
is_sending none = false
is_sending (some p) = not p.paused

-- The microphone's producer sends just if the user wants it on, and it is not rendered as on
-- otherwise.
pub record IsHeeded (c : Controls) : Type 0 where
  pub heeded : (p : Producer) → c.audio_producer ≡ some p → p.paused ≡ not c.desired_audio_on
  pub rendered : c.local_audio_on ≡ true → c.desired_audio_on ≡ true

pub data Event : Type 0 where
  -- the browser answers for the microphone and for the camera
  acquired : Prompt → Prompt → Event
  toggles_audio : Event
  toggles_video : Event
  audio_produced : String → ℕ → Event
  video_produced : String → ℕ → Event
  dropped : Event
  granted : Option ℕ → Event
  replaced : ℕ → Event
  finished : String → ℕ → Event
  failed : Option ℕ → Event

abbrev pub step : Event → Controls → Controls
step (acquired audio video) c = (acquire audio video c).0
step toggles_audio c = (toggle_audio c).0
step toggles_video c = (toggle_video c).0
step (audio_produced id track) c = (produce_audio id track c).0
step (video_produced id track) c = (produce_video id track c).0
step dropped c = drop_producers c
step (granted track) c = (grant_camera track c).0
step (replaced track) c = (replace_track track c).0
step (finished id track) c = (finish_produce id track c).0
step (failed track) c = fail_video track c

abbrev pub run : List Event → Controls → Controls
run [] c = c
run (e ∷ es) c = run es (step e c)

step-IsHeeded : (e : Event) (c : Controls) → IsHeeded c → IsHeeded (step e c)
unfolding acquire toggle_audio toggle_video produce_audio produce_video drop_producers grant_camera
    replace_track finish_produce fail_video
step-IsHeeded (acquired audio video) c v = ground arith
step-IsHeeded toggles_audio c v = ground arith
step-IsHeeded toggles_video c v = ground arith
step-IsHeeded (audio_produced id track) c v = ground arith
step-IsHeeded (video_produced id track) c v = ground arith
step-IsHeeded dropped c v = ground arith
step-IsHeeded (granted none) c v = ground arith
step-IsHeeded (granted (some track)) c v = ground arith
step-IsHeeded (replaced track) c v = ground arith
step-IsHeeded (finished id track) c v = ground arith
step-IsHeeded (failed track) c v = ground arith

run_on-IsHeeded : (es : List Event) (c : Controls) → IsHeeded c → IsHeeded (run es c)
run_on-IsHeeded [] c v = v
run_on-IsHeeded (e ∷ es) c v = run_on-IsHeeded es (step e c) (step-IsHeeded e c v)

-- Whatever the user clicks and in whatever order the browser and the media server answer, from the
-- states that the lobby hands on: the microphone's producer, when there is one, sends just if the user
-- wants it on, and the microphone is rendered as on only if the user wants it on.
pub run-IsHeeded :
    (es : List Event) (audio video : Bool) → IsHeeded (run es (new_controls audio video))
run-IsHeeded es audio video =
    run_on-IsHeeded es (new_controls audio video)
      (record { heeded = λ p e. ground arith; rendered = λ e. ground arith })

-- The camera is rendered and sends, and its track is live in the local stream.
pub record IsFilming (track : ℕ) (c : Controls) : Type 0 where
  pub unwanted : c.desired_video_on ≡ false
  pub rendered : c.local_video_on ≡ true
  pub sends : is_sending c.video_producer ≡ true
  pub films : c.video_tracks ≡ track ∷ []

-- The user turns the camera on and, while the producer's track is being replaced, off again: when
-- the replacement is done the camera films and sends although the user wants it off.
pub toggle_video-IsFilming :
    (track : ℕ) (c : Controls)
    → c.has_stream ≡ true
    → c.desired_video_on ≡ false
    → is_some c.video_producer ≡ true
    → IsFilming track
        (run (toggles_video ∷ granted (some track) ∷ toggles_video ∷ replaced track ∷ []) c)
unfolding toggle_video grant_camera replace_track
toggle_video-IsFilming track c s d p = elim (Option-cases c.video_producer) [
  | inl n ↦ absurd (ground arith)
  | inr (producer, e) ↦
      let k : record c {
        has_stream = true;
        desired_video_on = false;
        video_producer = some producer;
      }
          ≡ c =
        ground arith in
      subst
        (λ x.
          IsFilming track
            (run (toggles_video ∷ granted (some track) ∷ toggles_video ∷ replaced track ∷ []) x))
        k (record { unwanted = refl; rendered = refl; sends = refl; films = refl })
]

-- The camera is off: nothing is rendered or sent, and each track that it had is stopped.
pub record IsOff (tracks : List ℕ) (c : Controls) : Type 0 where
  pub unwanted : c.desired_video_on ≡ false
  pub hidden : c.local_video_on ≡ false
  pub silent : is_sending c.video_producer ≡ false
  pub removed : c.video_tracks ≡ []
  pub stops : List ℕ
  pub all_stopped : c.stopped ≡ tracks ++ stops

-- A click that turns the camera off, when the camera is on: it is off at once, whatever the server
-- answers.
pub toggle_video-IsOff :
    (c : Controls) → c.desired_video_on ≡ true → IsOff c.video_tracks (toggle_video c).0
unfolding toggle_video
toggle_video-IsOff c d = rw d (record {
  unwanted = refl;
  hidden = refl;
  silent = ground arith;
  removed = refl;
  stops = c.stopped;
  all_stopped = refl;
})
