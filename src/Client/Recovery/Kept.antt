-- ===== src/Client/Recovery/Kept.antt =====
-- What a stage of a setup in client/src/hooks/useMediasoup.ts does not change: the user's stream, and
-- that the hook is unmounted.
use a_meet.Client.Recovery.{
  Stage, awaits_socket, asks_capabilities, loads_device, asks_send, asks_recv, produces_audio,
  pauses_audio, produces_video, pauses_video, lists_producers, consumes, Hook, Media, video_stage,
  audio_stage, enter, unless_cancelled, set_up, go_on,
}
use a_meet.Prelude.{true, some, if◌then◌else◌, ◌≡◌, refl, ◌∙◌, arith}

enter-has_stream : (stage : Stage) (h : Hook) → (enter stage h).has_stream ≡ h.has_stream
unfolding enter
enter-has_stream lists_producers h = ground arith
enter-has_stream stage h = refl

unless_cancelled-has_stream :
    (h next : Hook)
    → next.has_stream ≡ h.has_stream
    → (unless_cancelled h next).has_stream ≡ h.has_stream
unfolding unless_cancelled
unless_cancelled-has_stream h next e = ground arith

pub go_on-has_stream :
    (m : Media) (stage : Stage) (h : Hook) → (go_on m stage h).has_stream ≡ h.has_stream
unfolding go_on set_up
go_on-has_stream m awaits_socket h = refl
go_on-has_stream m asks_capabilities h =
    unless_cancelled-has_stream h (enter loads_device h) (enter-has_stream loads_device h)
go_on-has_stream m loads_device h = enter-has_stream asks_send h
go_on-has_stream m asks_send h =
    let sent = record h { send_transport = some h.connection } in
    unless_cancelled-has_stream h (enter asks_recv sent) (enter-has_stream asks_recv sent)
go_on-has_stream m asks_recv h =
    let received = record h { recv_transport = some h.connection } in
    unless_cancelled-has_stream h (enter (audio_stage m) received)
      (enter-has_stream (audio_stage m) received)
go_on-has_stream m produces_audio h =
    enter-has_stream (if m.wants_audio then video_stage m else pauses_audio) h
go_on-has_stream m pauses_audio h = enter-has_stream (video_stage m) h
go_on-has_stream m produces_video h =
    enter-has_stream (if m.wants_video then lists_producers else pauses_video) h
go_on-has_stream m pauses_video h = enter-has_stream lists_producers h
go_on-has_stream m lists_producers h =
    unless_cancelled-has_stream h (enter consumes h) (enter-has_stream consumes h)
go_on-has_stream m consumes h = unless_cancelled-has_stream h (set_up h) refl

enter-cancelled : (stage : Stage) (h : Hook) → (enter stage h).cancelled ≡ h.cancelled
unfolding enter
enter-cancelled lists_producers h = ground arith
enter-cancelled stage h = refl

unless_cancelled-cancelled :
    (h next : Hook) → h.cancelled ≡ true → (unless_cancelled h next).cancelled ≡ true
unfolding unless_cancelled
unless_cancelled-cancelled h next e = ground arith

-- An unmounted hook stays unmounted.
pub go_on-cancelled :
    (m : Media) (stage : Stage) (h : Hook) → h.cancelled ≡ true → (go_on m stage h).cancelled ≡ true
unfolding go_on set_up
go_on-cancelled m awaits_socket h c = c
go_on-cancelled m asks_capabilities h c = unless_cancelled-cancelled h (enter loads_device h) c
go_on-cancelled m loads_device h c = enter-cancelled asks_send h ∙ c
go_on-cancelled m asks_send h c =
    unless_cancelled-cancelled h (enter asks_recv (record h { send_transport = some h.connection }))
      c
go_on-cancelled m asks_recv h c =
    unless_cancelled-cancelled h
      (enter (audio_stage m) (record h { recv_transport = some h.connection })) c
go_on-cancelled m produces_audio h c =
    enter-cancelled (if m.wants_audio then video_stage m else pauses_audio) h ∙ c
go_on-cancelled m pauses_audio h c = enter-cancelled (video_stage m) h ∙ c
go_on-cancelled m produces_video h c =
    enter-cancelled (if m.wants_video then lists_producers else pauses_video) h ∙ c
go_on-cancelled m pauses_video h c = enter-cancelled lists_producers h ∙ c
go_on-cancelled m lists_producers h c = unless_cancelled-cancelled h (enter consumes h) c
go_on-cancelled m consumes h c = unless_cancelled-cancelled h (set_up h) c
