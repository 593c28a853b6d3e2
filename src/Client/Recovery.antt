-- ===== src/Client/Recovery.antt =====
-- client/src/hooks/useMediasoup.ts, the media connection of a participant: the setup of the SFU
-- session, cut at its waits, and the retries of a setup that failed. `connection` numbers the
-- socket's connections; a transport is known by the connection whose session it was created in. The
-- consume requests of the last stage are the module Remote's: their errors are caught there.
-- The audio graph of the microphone's volume and the parameters of the codecs are left out.
pub mod Ladder
pub mod Kept
pub mod Served
pub mod Alive
pub mod Renewal
pub mod Exhaustion
mod Tests
use a_meet.Prelude.{
  ℕ, zero, suc, Bool, true, false, Option, none, some, List, [], ◌∷◌, ◌+◌, ◌*◌, ◌^◌, ◌&&◌, ◌||◌,
  not, min, leb, is_some, if◌then◌else◌,
}

abbrev pub media_retry_base_ms : ℕ
media_retry_base_ms = 500

abbrev pub media_retry_max_ms : ℕ
media_retry_max_ms = 8000

abbrev pub media_max_retries : ℕ
media_max_retries = 5

pub data Status : Type 0 where
  connecting : Status
  ready : Status
  reconnecting : Status
  exhausted : Status

-- `MediaRecoveryState`: the status and the number of the retry.
pub record Recovery : Type 0 where
  pub status : Status
  pub attempt : ℕ

-- What `setupSfu` waits for.
pub data Stage : Type 0 where
  awaits_socket : Stage
  asks_capabilities : Stage
  loads_device : Stage
  asks_send : Stage
  asks_recv : Stage
  produces_audio : Stage
  pauses_audio : Stage
  produces_video : Stage
  pauses_video : Stage
  lists_producers : Stage
  consumes : Stage

pub record Hook : Type 0 where
  pub cancelled : Bool
  pub has_stream : Bool
  pub connected : Bool
  pub connection : ℕ
  -- `setupRunning`, and where it stands
  pub setup : Option Stage
  -- the delay of the retry timer that is set
  pub timer : Option ℕ
  pub attempt : ℕ
  pub recovery : Recovery
  pub send_transport : Option ℕ
  pub recv_transport : Option ℕ

abbrev pub new_hook : Hook
new_hook = record {
  cancelled = false;
  has_stream = false;
  connected = false;
  connection = 0;
  setup = none;
  timer = none;
  attempt = 0;
  recovery = record { status = connecting; attempt = 0 };
  send_transport = none;
  recv_transport = none;
}

-- Stale transports are closed before the first request.
unfoldable pub ask_capabilities : Hook → Hook
ask_capabilities h = record h {
  setup = some asks_capabilities;
  send_transport = none;
  recv_transport = none;
}

abbrev pub first_status : ℕ → Status
first_status zero = connecting
first_status (suc n) = reconnecting

-- `runSetup`, up to its first wait
unfoldable pub run_setup : Hook → Hook
unfolding ask_capabilities
run_setup h =
    let started = record h {
      setup = some awaits_socket;
      timer = none;
      recovery = record { status = first_status h.attempt; attempt = h.attempt };
    } in
    if h.cancelled || not h.has_stream || is_some h.setup
    then h
    else if h.connected
    then ask_capabilities started
    else started

abbrev pub delay_of : ℕ → ℕ
delay_of attempt = min media_retry_max_ms (media_retry_base_ms * 2 ^ attempt)

unfoldable pub schedule_retry : Hook → Hook
schedule_retry h =
    if h.cancelled
    then h
    else if not h.connected
    then record h { recovery = record { status = reconnecting; attempt = h.attempt } }
    else if leb media_max_retries h.attempt
    then record h { recovery = record { status = exhausted; attempt = h.attempt } }
    else record h {
      timer = some (delay_of h.attempt);
      attempt = suc h.attempt;
      recovery = record { status = reconnecting; attempt = suc h.attempt };
    }

-- What the setup has to send: whether there is a track that the device can send, and whether the
-- user wants it on.
pub record Media : Type 0 where
  pub audio : Bool
  pub video : Bool
  pub wants_audio : Bool
  pub wants_video : Bool

-- The stages that follow one, where the user's tracks decide.
abbrev pub video_stage : Media → Stage
video_stage m = if m.video then produces_video else lists_producers

abbrev pub audio_stage : Media → Stage
audio_stage m = if m.audio then produces_audio else video_stage m

-- The hook waits at this stage; before the list of producers it looks whether it is unmounted.
unfoldable pub enter : Stage → Hook → Hook
enter lists_producers h =
    if h.cancelled then record h { setup = none } else record h { setup = some lists_producers }
enter stage h = record h { setup = some stage }

-- An answer after which an unmounted hook stops.
unfoldable pub unless_cancelled : Hook → Hook → Hook
unless_cancelled h next = if h.cancelled then record h { setup = none } else next

-- The end of a setup that did not fail
unfoldable pub set_up : Hook → Hook
set_up h = record h { setup = none; attempt = 0; recovery = record { status = ready; attempt = 0 } }

-- What a stage waits for is there; the socket itself wakes `awaits_socket`.
unfoldable pub go_on : Media → Stage → Hook → Hook
unfolding enter unless_cancelled set_up
go_on m awaits_socket h = h
go_on m asks_capabilities h = unless_cancelled h (enter loads_device h)
go_on m loads_device h = enter asks_send h
go_on m asks_send h =
    unless_cancelled h (enter asks_recv (record h { send_transport = some h.connection }))
go_on m asks_recv h =
    unless_cancelled h (enter (audio_stage m) (record h { recv_transport = some h.connection }))
go_on m produces_audio h = enter (if m.wants_audio then video_stage m else pauses_audio) h
go_on m pauses_audio h = enter (video_stage m) h
go_on m produces_video h = enter (if m.wants_video then lists_producers else pauses_video) h
go_on m pauses_video h = enter lists_producers h
go_on m lists_producers h = unless_cancelled h (enter consumes h)
go_on m consumes h = unless_cancelled h (set_up h)

-- What a stage waits for fails; while it consumes, the error is caught and the loop goes on.
unfoldable pub fail : Stage → Hook → Hook
unfolding schedule_retry
fail awaits_socket h = h
fail consumes h = h
fail stage h = schedule_retry (record h { setup = none })

-- The setup that waits for the socket goes on; an unmounted hook has removed its listener.
unfoldable pub wake : Option Stage → Hook → Hook
unfolding ask_capabilities
wake (some awaits_socket) h = if h.cancelled then h else ask_capabilities h
wake s h = h

-- The socket connects: `onSocketConnect`, then the setup that waits for it.
unfoldable pub on_connect : Hook → Hook
unfolding run_setup wake
on_connect h =
    let up = record h { connected = true; connection = suc h.connection } in
    let next =
      if up.cancelled || not up.has_stream then up else run_setup (record up { attempt = 0 }) in
    wake next.setup next

abbrev pub after_drop : Recovery → Recovery
after_drop r = elim r.status [
  | ready ↦ record r { status = reconnecting }
  | connecting ↦ record r { status = reconnecting }
  | reconnecting ↦ r
  | exhausted ↦ r
]

-- `onSocketDisconnect`, which an unmounted hook has removed
unfoldable pub on_disconnect : Hook → Hook
on_disconnect h = record h {
  connected = false;
  recovery = if h.cancelled then h.recovery else after_drop h.recovery;
}

-- The retry timer fires.
unfoldable pub time_out : Hook → Hook
unfolding run_setup
time_out h = if is_some h.timer then run_setup (record h { timer = none }) else h

unfoldable pub retry_media : Hook → Hook
unfolding run_setup
retry_media h =
    let again = record h { attempt = 0 } in
    if h.cancelled
    then h
    else if h.connected
    then run_setup again
    else record again { recovery = record { status = reconnecting; attempt = 0 } }

-- The end of `init`: the user's media is there, or was denied.
unfoldable pub start : Hook → Hook
unfolding run_setup
start h = if h.cancelled then h else run_setup (record h { has_stream = true })

-- The hook is unmounted.
unfoldable pub clean_up : Hook → Hook
clean_up h = record h {
  cancelled = true;
  has_stream = false;
  timer = none;
  attempt = 0;
  send_transport = none;
  recv_transport = none;
}

pub data Event : Type 0 where
  starts : Event
  connects : Event
  disconnects : Event
  succeeds : Media → Event
  fails : Event
  times_out : Event
  retries : Event
  unmounts : Event

unfoldable pub proceed : Media → Option Stage → Hook → Hook
unfolding go_on
proceed m none h = h
proceed m (some stage) h = go_on m stage h

unfoldable pub give_up : Option Stage → Hook → Hook
unfolding fail
give_up none h = h
give_up (some stage) h = fail stage h

unfoldable pub step : Event → Hook → Hook
unfolding start on_connect on_disconnect proceed give_up time_out retry_media clean_up
step starts h = start h
step connects h = on_connect h
step disconnects h = on_disconnect h
step (succeeds m) h = proceed m h.setup h
step fails h = give_up h.setup h
step times_out h = time_out h
step retries h = retry_media h
step unmounts h = clean_up h

abbrev pub run : List Event → Hook → Hook
run [] h = h
run (e ∷ es) h = run es (step e h)
