-- ===== src/Client/Controls/Screen.antt =====
-- client/src/hooks/useMediasoup.ts: the shared screen, `shareScreen` and `stopScreenShare`.
use a_meet.Client.Controls.{Request, close_producer}
use a_meet.Prelude.Maps.{contains}
use a_meet.Prelude.{
  ℕ, String, ◌==◌, eq_iff, eq_refl, Bool, true, false, Option, none, some, List, [], ◌∷◌, ◌++◌, map,
  is_some, if◌then◌else◌, ◌≡◌, refl, arith,
}

-- What the browser captures: its picture's and its sound's track.
pub record Capture : Type 0 where
  pub video_track : Option ℕ
  pub audio_track : Option ℕ

pub record Share : Type 0 where
  pub has_transport : Bool
  -- the ids of the producers that are held, and of those that are open
  pub screen_producer : Option String
  pub screen_audio_producer : Option String
  pub open_producers : List String
  -- the tracks of the stream that is rendered, and those that were stopped
  pub screen_stream : Option (List ℕ)
  pub stopped : List ℕ

abbrev pub is_sharing : Share → Bool
is_sharing s = is_some s.screen_stream

abbrev pub without : List String → List String → List String
without ids [] = []
without ids (x ∷ xs) = let rest = without ids xs in if contains x ids then rest else x ∷ rest

abbrev pub ids_of : Option String → List String
ids_of none = []
ids_of (some id) = id ∷ []

abbrev pub tracks_in : Option (List ℕ) → List ℕ
tracks_in none = []
tracks_in (some ts) = ts

-- `stopScreenShare`
unfoldable pub stop_screen_share : Share → Share × List Request
stop_screen_share s = elim s.screen_producer [
  | none ↦ (s, [])
  | some id ↦
      let ids = id ∷ ids_of s.screen_audio_producer in
      (
        record s {
          screen_producer = none;
          screen_audio_producer = none;
          open_producers = without ids s.open_producers;
          screen_stream = none;
          stopped = tracks_in s.screen_stream ++ s.stopped;
        },
        map close_producer ids,
      )
]

-- `shareScreen`, up to the browser's prompt: whether it is shown
unfoldable pub begin_share : Share → Bool
begin_share s = elim s.screen_producer [ none ↦ s.has_transport | some id ↦ false ]

abbrev pub tracks_of : Capture → List ℕ
tracks_of c = elim c.video_track [
  | none ↦ elim c.audio_track [ none ↦ [] | some a ↦ a ∷ [] ]
  | some v ↦ elim c.audio_track [ none ↦ v ∷ [] | some a ↦ v ∷ a ∷ [] ]
]

-- The picture has a producer.
unfoldable pub share_video : String → Share → Share
share_video id s = record s { screen_producer = some id; open_producers = id ∷ s.open_producers }

-- The sound has a producer, or it could not be produced and its track is stopped; the stream is
-- rendered.
unfoldable pub finish_share : ℕ → Option (ℕ × Option String) → Share → Share
finish_share video none s = record s { screen_stream = some (video ∷ []) }
finish_share video (some (audio, none)) s = record s {
  stopped = audio ∷ s.stopped;
  screen_stream = some (video ∷ []);
}
finish_share video (some (audio, some id)) s = record s {
  screen_audio_producer = some id;
  open_producers = id ∷ s.open_producers;
  screen_stream = some (video ∷ audio ∷ []);
}

-- A capture without a picture is stopped.
unfoldable pub refuse_capture : Capture → Share → Share
refuse_capture c s = record s { stopped = tracks_of c ++ s.stopped }

-- What the sound's producer is held as, and the tracks that are rendered
abbrev pub sound : Option (ℕ × Option String) → Option String
sound none = none
sound (some (audio, id)) = id

-- A share that has opened these producers beside the open ones, and what stopping it does.
pub record IsStopped (ids others : List String) (shared : Share) : Type 0 where
  pub rendered : is_sharing shared ≡ true
  pub told_of : (stop_screen_share shared).1 ≡ map close_producer ids
  pub closed : (stop_screen_share shared).0.open_producers ≡ without ids others
  pub hidden : is_sharing (stop_screen_share shared).0 ≡ false
  pub released : (stop_screen_share shared).0.screen_producer ≡ none
  pub silent : (stop_screen_share shared).0.screen_audio_producer ≡ none

-- A share that starts with no other is rendered whatever becomes of its sound; stopping it closes
-- each producer that it opened, tells the server of each and of no other, and leaves nothing rendered
-- or held.
pub stop_screen_share-IsStopped :
    (id : String) (video : ℕ) (audio : Option (ℕ × Option String)) (s : Share)
    → s.screen_audio_producer ≡ none
    → IsStopped
        (id ∷ ids_of (sound audio))
        s.open_producers
        (finish_share video audio (share_video id s))
unfolding finish_share share_video stop_screen_share contains
stop_screen_share-IsStopped id video none s e = rw e (record {
  rendered = refl;
  told_of = refl;
  closed = ground (arith, eq_refl id);
  hidden = refl;
  released = refl;
  silent = refl;
})
stop_screen_share-IsStopped id video (some (audio, none)) s e = rw e (record {
  rendered = refl;
  told_of = refl;
  closed = ground (arith, eq_refl id);
  hidden = refl;
  released = refl;
  silent = refl;
})
stop_screen_share-IsStopped id video (some (audio, some a)) s e = record {
  rendered = refl;
  told_of = refl;
  closed = ground (arith, eq_refl id, eq_refl a);
  hidden = refl;
  released = refl;
  silent = refl;
}

-- A producer is still open after the share was stopped, and none is held.
pub record IsLeaked (id : String) (s : Share) : Type 0 where
  pub open_still : contains id s.open_producers ≡ true
  pub released : s.screen_producer ≡ none

-- Two shares are begun before the browser grants the first, and then both are granted: the second's
-- producer replaces the first's, which stays open when the share is stopped.
pub stop_screen_share-IsLeaked :
    (first second : String) (w : ℕ) (s : Share)
    → begin_share s ≡ true
    → s.screen_audio_producer ≡ none
    → first == second ≡ false
    → IsLeaked first
        (stop_screen_share (finish_share w none (share_video second (share_video first s)))).0
unfolding finish_share share_video stop_screen_share contains
stop_screen_share-IsLeaked first second w s b e ne = rw e (record {
  open_still =
      ground (arith, eq_iff first second, eq_iff second first, eq_refl second, eq_refl first);
  released = refl;
})
